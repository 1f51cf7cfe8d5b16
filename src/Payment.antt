-- ===== src/Payment.antt =====
-- internal/payment/{model,service}.go: the simulated payment. `F` stands for `float64`. The delay is
-- left out; the random draws and the generated payment id are arguments.
pub mod Atomic
pub mod Rate
use distributed_software_hom.Prelude.{
  ℕ, String, Bool, true, false, ◌||◌, ◌≡◌, arith, ◌==◌, str_eq, if◌then◌else◌,
}
use distributed_software_hom.Result.{Result, ok, err, ◌>>=◌}
use distributed_software_hom.Database.{Schema, Table, IsApart, Transactions, committed, no_value}
use distributed_software_hom.Event.{
  EventType, Payload, PaymentRequestedEvent, PaymentResultEvent, requested, paid, not_paid, Message,
  event, Stamp, stamped, payment_success, payment_failed, payment_events,
}
use distributed_software_hom.Outbox
use distributed_software_hom.Outbox.{OutboxEvent, outbox_schema, write_event}

pub record Payment (F : Type 0) : Type 0 where
  pub id : ℕ
  pub payment_id : String
  pub order_no : String
  pub user_id : ℕ
  pub amount : F
  pub status : ℕ  -- 0=pending, 1=success, 2=failed

-- The comparison of `float64`, and the two bounds of a probability.
pub record Probabilities (F : Type 0) : Type 0 where
  pub less : F → F → Bool
  pub zero : F
  pub one : F

-- `SetSuccessRate`: what is stored for a configured rate.
unfoldable pub success_rate_of : {F : Type 0} → Probabilities F → F → F
success_rate_of prob rate =
    if prob.less rate prob.zero || prob.less prob.one rate then prob.one else rate

-- A stored rate is never below 0 nor above 1, whatever was configured, since 1 is neither.
pub success_rate_of_bounds :
    {F : Type 0} (prob : Probabilities F) (rate : F)
    → prob.less prob.one prob.zero ≡ false
    → prob.less prob.one prob.one ≡ false
    → (prob.less (success_rate_of prob rate) prob.zero ≡ false)
      × (prob.less prob.one (success_rate_of prob rate) ≡ false)
unfolding success_rate_of
success_rate_of_bounds prob rate h k = ground arith

module _ {F : Type 0} where
  -- `primaryKey`, and `uniqueIndex` on PaymentID
  abbrev pub payment_schema : Schema (Payment F)
  payment_schema = record {
    id_of = λ p. p.id;
    with_id = λ i p. record p { id = i };
    clash = λ a b. a.id == b.id || str_eq a.payment_id b.payment_id;
  }

-- The database of the payment service.
pub record PaymentStore (F S : Type 0) : Type 0 where
  pub payments : Table S (Payment F) payment_schema
  pub outbox : Table S (OutboxEvent F) outbox_schema
  pub transactions : Transactions S (Unit {0})
  pub payments_apart : IsApart payments outbox
  pub outbox_apart : IsApart outbox payments

abbrev pub result_type : Bool → EventType
result_type success = if success then payment_success else payment_failed

module _ {F : Type 0} where
  abbrev pub new_payment : String → PaymentRequestedEvent F → Bool → Payment F
  new_payment payment_id evt success = record {
    id = 0;
    payment_id = payment_id;
    order_no = evt.order_no;
    user_id = evt.user_id;
    amount = evt.amount;
    status = if success then 1 else 2;
  }

  abbrev pub result_event : Stamp → String → PaymentRequestedEvent F → PaymentResultEvent F
  result_event stamp payment_id evt = record {
    base = stamped stamp;
    order_no = evt.order_no;
    payment_id = payment_id;
    amount = evt.amount;
  }

  abbrev pub result_payload : Bool → PaymentResultEvent F → Payload F
  result_payload true e = paid e
  result_payload false e = not_paid e

  module _ {S : Type 0} (store : PaymentStore F S) where
    unfoldable pub record_payment : Stamp → String → PaymentRequestedEvent F → Bool → S → Result S
    record_payment stamp payment_id evt success s =
        store.payments.create (new_payment payment_id evt success) s >>= λ (i, t).
        write_event store.outbox Outbox.payment evt.order_no (result_type success) payment_events
          (result_payload success (result_event stamp payment_id evt)) t

    -- `rate` is the stored success rate, `roll` the value of `rand.Float64()`.
    unfoldable pub handle_order_event : Probabilities F → F → F → Stamp → String → Message F → S → S
    handle_order_event prob rate roll stamp payment_id (event (requested evt)) s =
        let success = prob.less roll rate in
        committed s (
          store.transactions.transaction
            (λ t. no_value (record_payment stamp payment_id evt success t)) s)
    handle_order_event prob rate roll stamp payment_id _ s = s
