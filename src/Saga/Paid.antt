-- ===== src/Saga/Paid.antt =====
-- The first three of the events that end a purchase: the deduction, the request of the payment and
-- its result (internal/{inventory,order}/event_handler.go, internal/payment/service.go).
use distributed_software_hom.Prelude.{
  ℕ, String, Bool, ◌≡◌, true, subst, sym, List, [], ◌∷◌, ◌++◌, ap, ◌∙◌, if◌then◌else◌, Any-last,
  subst, sym, refl, arith,
}
use distributed_software_hom.Prelude.Int.{ℤ, pos, leb_ℤ, ◌+ℤ◌, +ℤ_parts}
use distributed_software_hom.Result.{ok}
use distributed_software_hom.Database.{IsUp, no_value}
use distributed_software_hom.Database.Rows.{IsUnclashed}
use distributed_software_hom.Redis.{Redis}
use distributed_software_hom.Event.{
  OrderCreatedEvent, Payload, created, deducted, requested, Stamp, payment_requested,
}
use distributed_software_hom.Outbox.{OutboxEvent}
use distributed_software_hom.Inventory.{Inventory, inventory_schema, lock_units}
use distributed_software_hom.Inventory.Events.{InventoryStore}
use distributed_software_hom.Inventory.Events.Compensation.{IsRowOf}
use distributed_software_hom.Inventory.Events.Redelivered.{IsCommitted, covered_deducts}
use distributed_software_hom.Order.{Order, Status, with_status, by_order_no, get_order_by_order_no}
use distributed_software_hom.Order.Store.{OrderStore}
use distributed_software_hom.Order.Events.{run_advance, payment_payload}
use distributed_software_hom.Order.Events.Advance.{IsOrderOf, run_advance-Advanced}
use distributed_software_hom.Order.Events.Rows.{advanced_row}
use distributed_software_hom.Payment.{PaymentStore, Probabilities, record_payment, result_payload}
use distributed_software_hom.Payment.Atomic.{transaction-Recorded}
use distributed_software_hom.Saga.{
  System, view, Reach, start, later, inventory_consumes, order_consumes_inventory, payment_consumes,
  payloads, payloads-append, inventory_consumed, order_consumed_inventory, payment_consumed,
}
use distributed_software_hom.Saga.Spec.{View, IsIn}
use distributed_software_hom.Saga.Deliveries.{
  paid_with, taken_for, asked_for, inventory_takes, order_asks, payment_pays,
}

-- An outbox with one row more has its payload behind the others.
pub payloads-emitted :
    {F : Type 0} (e : OutboxEvent F) (before after : List (OutboxEvent F))
    → after ≡ before ++ e ∷ []
    → payloads after ≡ payloads before ++ e.payload ∷ []
payloads-emitted e before after h = ap payloads h ∙ payloads-append before e

-- The last of some events is one of them.
pub last_IsIn :
    {F : Type 0} (p : Payload F) (before after : List (Payload F))
    → after ≡ before ++ p ∷ []
    → IsIn p after
last_IsIn p before after h = subst (IsIn p) (sym h) (Any-last (λ q. q ≡ p) before p refl)

-- Units that are locked can be taken or returned.
pub locked_covers : (q l : ℤ) → leb_ℤ (pos 0) l ≡ true → leb_ℤ q (l +ℤ q) ≡ true
locked_covers q l h = ground (arith, +ℤ_parts l q)

module _ {F SO SI SP D : Type 0} (order_store : OrderStore F SO)
    (inventory_store : InventoryStore F SI) (payment_store : PaymentStore F SP)
    (redis : Redis D) where
  open order_store use {orders}
  open inventory_store use {inventories}
  open payment_store use {payments}

  abbrev pub seen_by : System SO SI SP D → View F
  seen_by = view order_store inventory_store payment_store redis

  -- The systems after ORDER_CREATED, STOCK_DEDUCTED and PAYMENT_REQUESTED.
  abbrev pub after_created : Stamp → OrderCreatedEvent F → System SO SI SP D → System SO SI SP D
  after_created s1 evt w =
      inventory_consumed order_store inventory_store payment_store redis s1 (created evt) w

  abbrev pub after_deducted :
      Stamp → Stamp → OrderCreatedEvent F → System SO SI SP D → System SO SI SP D
  after_deducted s1 s2 evt w =
      order_consumed_inventory order_store inventory_store payment_store redis s2
        (deducted (taken_for s1 evt)) (after_created s1 evt w)

  abbrev pub after_requested :
      Probabilities F
      → F
      → F
      → String
      → Stamp
      → Stamp
      → Stamp
      → OrderCreatedEvent F
      → Order F
      → System SO SI SP D
      → System SO SI SP D
  after_requested prob rate roll payment_id s1 s2 s3 evt o w =
      payment_consumed order_store inventory_store payment_store redis prob rate roll s3 payment_id
        (requested (asked_for s2 evt.order_no o)) (after_deducted s1 s2 evt w)

  -- Each of the three events is published by the consumer of the one before.
  abbrev pub ArePublished :
      Payload F
      → Stamp
      → Stamp
      → OrderCreatedEvent F
      → Order F
      → System SO SI SP D
      → System SO SI SP D
      → System SO SI SP D
      → System SO SI SP D
      → Type 0
  ArePublished result s1 s2 evt o w w1 w2 w3 =
      ((seen_by w1).from_inventory ≡ (seen_by w).from_inventory ++ deducted (taken_for s1 evt) ∷ [])
      × ((seen_by w2).from_order
          ≡ (seen_by w).from_order ++ requested (asked_for s2 evt.order_no o) ∷ [])
      × ((seen_by w3).from_payment ≡ (seen_by w).from_payment ++ result ∷ [])

  -- The system after the result of the payment: the units are locked, the order waits, and a payment
  -- more is recorded.
  abbrev pub IsPaidFor :
      OrderCreatedEvent F
      → Order F
      → Inventory
      → String
      → Bool
      → System SO SI SP D
      → System SO SI SP D
      → Type 0
  IsPaidFor evt o inv payment_id outcome w w' =
      IsOrderOf order_store evt.order_no (with_status Status.awaiting_payment o) w'.orders
      × (get_order_by_order_no orders evt.order_no w'.orders
          ≡ ok (with_status Status.awaiting_payment o))
      × IsRowOf inventory_store evt.product_id (lock_units evt.quantity inv) w'.inventory
      × IsUnclashed inventory_schema.clash (inventories.rows w'.inventory)
      × ((i : ℕ) × (payments.rows w'.payments
            ≡ payments.rows w.payments
              ++ record {
                id = i;
                payment_id = payment_id;
                order_no = evt.order_no;
                user_id = o.user_id;
                amount = o.total_price;
                status = if outcome then 1 else 2;
              }
                ∷ []))

  pub after_requested-IsPaidFor :
      (w : System SO SI SP D) (evt : OrderCreatedEvent F) (o : Order F) (inv : Inventory)
      (prob : Probabilities F) (rate roll : F) (payment_id : String) (s1 s2 s3 : Stamp)
      (outcome : Bool) (i1 : SI) (o1 : SO) (p1 : SP)
      → ((s : SO) → IsUp orders s)
      → ((s : SI) → IsUp inventories s)
      → IsOrderOf order_store evt.order_no o w.orders
      → IsUnclashed inventory_schema.clash (inventories.rows w.inventory)
      → IsRowOf inventory_store evt.product_id inv w.inventory
      → leb_ℤ evt.quantity inv.available ≡ true
      → prob.less roll rate ≡ outcome
      → IsCommitted inventory_store s1 evt w.inventory i1
      → run_advance order_store evt.order_no Status.awaiting_payment payment_requested
          (payment_payload s2 evt.order_no o)
          w.orders
        ≡ ok (tt, o1)
      → payment_store.transactions.transaction
          (λ t.
            no_value
              (record_payment payment_store s3 payment_id (asked_for s2 evt.order_no o) outcome t))
          w.payments
        ≡ ok (tt, p1)
      → let w1 = after_created s1 evt w in
        let w2 = after_deducted s1 s2 evt w in
        let w3 = after_requested prob rate roll payment_id s1 s2 s3 evt o w in
        let w' : System SO SI SP D = record w { orders = o1; inventory = i1; payments = p1 } in
        (w3 ≡ w')
        × ArePublished
            (result_payload outcome (paid_with s3 evt.order_no payment_id o))
            s1
            s2
            evt
            o
            w
            w1
            w2
            w3
        × IsPaidFor evt o inv payment_id outcome w w'
  unfolding get_order_by_order_no
  after_requested-IsPaidFor w evt o inv prob rate roll payment_id s1 s2 s3 outcome i1 o1 p1
        orders_up stock_up found unique row enough drawn c1 c2 c3 =
      let n = evt.order_no in
      let request = asked_for s2 n o in
      let asking = payment_payload s2 n o in
      let (row1, unique1, (i, emitted)) =
        covered_deducts inventory_store s1 evt inv w.inventory i1 (stock_up w.inventory) unique row
          enough c1 in
      let (j, moved, asked) =
        run_advance-Advanced order_store n Status.awaiting_payment payment_requested asking w.orders
          o1 tt c2 in
      let found1 =
        advanced_row order_store n Status.awaiting_payment payment_requested asking o w.orders o1
          found c2 in
      let (k, l, paid_rows, told) =
        transaction-Recorded payment_store s3 payment_id request outcome w.payments p1 c3 in
      let w1 : System SO SI SP D = record w { inventory = i1 } in
      let w2 : System SO SI SP D = record w1 { orders = o1 } in
      let w3 : System SO SI SP D = record w2 { payments = p1 } in
      let eq1 : after_created s1 evt w ≡ w1 =
        inventory_takes order_store inventory_store payment_store redis w s1 evt i1 c1 in
      let eq2 : after_deducted s1 s2 evt w ≡ w2 =
        ap
          (order_consumed_inventory order_store inventory_store payment_store redis s2
            (deducted (taken_for s1 evt)))
          eq1
        ∙ order_asks order_store inventory_store payment_store redis w1 s2 (taken_for s1 evt) o o1
            ((orders_up w.orders).first_found (by_order_no n) o found) c2 in
      let eq3 : after_requested prob rate roll payment_id s1 s2 s3 evt o w ≡ w3 =
        ap
          (payment_consumed order_store inventory_store payment_store redis prob rate roll s3
            payment_id (requested request))
          eq2
        ∙ payment_pays order_store inventory_store payment_store redis w2 prob rate roll s3
            payment_id request outcome p1 drawn c3 in
      (
        eq3,
        (
          ap (λ x. (seen_by x).from_inventory) eq1 ∙ payloads-emitted _ _ _ emitted,
          ap (λ x. (seen_by x).from_order) eq2 ∙ payloads-emitted _ _ _ asked,
          ap (λ x. (seen_by x).from_payment) eq3 ∙ payloads-emitted _ _ _ told,
        ),
        (
          found1,
          (orders_up o1).first_found (by_order_no n) (with_status Status.awaiting_payment o) found1,
          row1,
          unique1,
          (k, paid_rows),
        ),
      )

  -- The three events are steps of the saga.
  pub after_requested-Reach :
      (w : System SO SI SP D) (evt : OrderCreatedEvent F) (o : Order F) (prob : Probabilities F)
      (rate roll : F) (payment_id : String) (s1 s2 s3 : Stamp) (result : Payload F)
      → IsIn (created evt) (seen_by w).from_order
      → ArePublished result s1 s2 evt o w
          (after_created s1 evt w)
          (after_deducted s1 s2 evt w)
          (after_requested prob rate roll payment_id s1 s2 s3 evt o w)
      → Reach order_store inventory_store payment_store redis w
          (after_requested prob rate roll payment_id s1 s2 s3 evt o w)
  after_requested-Reach w evt o prob rate roll payment_id s1 s2 s3 result published events =
      later
        (later (later start (inventory_consumes s1 (created evt) published))
          (order_consumes_inventory s2 (deducted (taken_for s1 evt)) (last_IsIn _ _ _ events.0)))
        (payment_consumes prob rate roll s3 payment_id (requested (asked_for s2 evt.order_no o))
          (last_IsIn _ _ _ events.1))
