-- ===== src/Order/Events.antt =====
-- internal/order/event_handler.go: the order service's side of the saga. Each handler runs to its
-- end before the next one; an error is logged and dropped, as in the source.
pub mod Advance
pub mod Late
pub mod Polled
pub mod Rows
use distributed_software_hom.Prelude.{ℕ, String}
use distributed_software_hom.Result.{Result, ok, err, ◌>>=◌}
use distributed_software_hom.Database.{no_value}
use distributed_software_hom.Redis.{Redis, text, result_key}
use distributed_software_hom.Event.{
  EventType, Payload, StockDeductedEvent, StockDeductFailedEvent, PaymentResultEvent, requested,
  completed, cancelled, deducted, deduct_failed, paid, not_paid, Message, event, Stamp, stamped,
  payment_requested, order_completed, order_cancelled, order_events,
}
use distributed_software_hom.Outbox
use distributed_software_hom.Outbox.{write_event}
use distributed_software_hom.Order
use distributed_software_hom.Order.{
  Order, Status, get_order_by_order_no, update_status_by_order_no_tx,
}
use distributed_software_hom.Order.Store.{OrderStore}

-- The payloads that the handlers publish, from the order that they have read.
abbrev pub payment_payload : {F : Type 0} → Stamp → String → Order F → Payload F
payment_payload stamp order_no o = requested (record {
  base = stamped stamp;
  order_no = order_no;
  user_id = o.user_id;
  amount = o.total_price;
})

abbrev pub cancelled_payload : {F : Type 0} → Stamp → String → Order F → ℕ → String → Payload F
cancelled_payload stamp order_no o pid reason = cancelled (record {
  base = stamped stamp;
  order_no = order_no;
  user_id = o.user_id;
  product_id = pid;
  quantity = o.quantity;
  reason = reason;
})

abbrev pub completed_payload : {F : Type 0} → Stamp → String → Order F → Payload F
completed_payload stamp order_no o = completed (record {
  base = stamped stamp;
  order_no = order_no;
  product_id = o.product_id;
  quantity = o.quantity;
})

module _ {F S : Type 0} (store : OrderStore F S) where
  -- The body of each handler's transaction.
  unfoldable pub advance : String → Status → EventType → Payload F → S → Result S
  advance order_no status event_type payload s =
      update_status_by_order_no_tx store.orders order_no status s >>= λ t.
      write_event store.outbox Outbox.order order_no event_type order_events payload t

  unfoldable pub run_advance : String → Status → EventType → Payload F → S → Result (Unit {0} × S)
  run_advance order_no status event_type payload s =
      store.transactions.transaction (λ t. no_value (advance order_no status event_type payload t))
        s

  unfoldable pub handle_stock_deducted : Stamp → StockDeductedEvent → S → S
  handle_stock_deducted stamp evt s = elim (get_order_by_order_no store.orders evt.order_no s) [
    | err e ↦ s
    | ok o ↦
        elim (run_advance evt.order_no Status.awaiting_payment payment_requested
          (payment_payload stamp evt.order_no o) s) [ err e ↦ s | ok (_, s') ↦ s' ]
  ]

  module _ {D : Type 0} (redis : Redis D) where
    -- A failed transaction returns before the result is set.
    abbrev pub with_result : String → String → S → D → Result (Unit {0} × S) → S × D
    with_result order_no answer s d (err e) = (s, d)
    with_result order_no answer s d (ok (_, s')) =
        (s', (redis.set (result_key order_no) (text answer) d).1)

    unfoldable pub handle_stock_deduct_failed : Stamp → StockDeductFailedEvent → S → D → S × D
    handle_stock_deduct_failed stamp evt s d =
        elim (get_order_by_order_no store.orders evt.order_no s) [
          | err e ↦ (s, d)
          | ok o ↦ with_result evt.order_no "FAILED" s d (
              run_advance evt.order_no Status.cancelled order_cancelled
                (cancelled_payload stamp evt.order_no o evt.product_id "stock_deduction_failed") s)
        ]

    unfoldable pub handle_payment_success : Stamp → PaymentResultEvent F → S → D → S × D
    handle_payment_success stamp evt s d =
        elim (get_order_by_order_no store.orders evt.order_no s) [
          | err e ↦ (s, d)
          | ok o ↦ with_result evt.order_no "SUCCESS" s d (
              run_advance evt.order_no Status.paid order_completed
                (completed_payload stamp evt.order_no o) s)
        ]

    unfoldable pub handle_payment_failed : Stamp → PaymentResultEvent F → S → D → S × D
    handle_payment_failed stamp evt s d = elim (get_order_by_order_no store.orders evt.order_no s) [
      | err e ↦ (s, d)
      | ok o ↦ with_result evt.order_no "FAILED" s d (
          run_advance evt.order_no Status.cancelled order_cancelled
            (cancelled_payload stamp evt.order_no o o.product_id "payment_failed") s)
    ]

    unfoldable pub handle_inventory_event : Stamp → Message F → S → D → S × D
    handle_inventory_event stamp (event (deducted evt)) s d = (handle_stock_deducted stamp evt s, d)
    handle_inventory_event stamp (event (deduct_failed evt)) s d =
        handle_stock_deduct_failed stamp evt s d
    handle_inventory_event stamp _ s d = (s, d)

    unfoldable pub handle_payment_event : Stamp → Message F → S → D → S × D
    handle_payment_event stamp (event (paid evt)) s d = handle_payment_success stamp evt s d
    handle_payment_event stamp (event (not_paid evt)) s d = handle_payment_failed stamp evt s d
    handle_payment_event stamp _ s d = (s, d)
