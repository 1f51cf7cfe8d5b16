-- ===== src/Saga/Steps.antt =====
-- Every step of the services is a transition of Saga.Spec, and what that gives for the orders of the
-- system that cmd/order-service, cmd/inventory-service and cmd/payment-service form.
use distributed_software_hom.Prelude.{
  true, ◌≡◌, inl, inr, refl, sym, ap, ap₂, ◌∙◌, ◌==◌, Any, All-in, subst,
}
use distributed_software_hom.Result.{Result-cases}
use distributed_software_hom.Database.{Schema, Table, IsApart}
use distributed_software_hom.Redis.{Redis}
use distributed_software_hom.Event.{
  OrderCreatedEvent, StockDeductedEvent, PaymentRequestedEvent, PaymentResultEvent, created,
  deducted, requested, paid,
}
use distributed_software_hom.Outbox.{OutboxEvent, outbox_schema}
use distributed_software_hom.Outbox.Relay.{mark_sent}
use distributed_software_hom.Inventory.Events.{InventoryStore}
use distributed_software_hom.Order.{Order, Status}
use distributed_software_hom.Order.Store.{OrderStore}
use distributed_software_hom.Payment.{PaymentStore}
use distributed_software_hom.Saga.{
  mark_sent-payloads, System, view, Step, purchase, inventory_consumes, payment_consumes,
  order_consumes_inventory, order_consumes_payment, order_relays, inventory_relays, payment_relays,
  redis_changes, stock_is_deducted, stock_is_set, payloads, Reach, start, later,
}
use distributed_software_hom.Saga.Spec.{View, IsIn, IsOrderFor, IsPaymentFor, Change}
use distributed_software_hom.Saga.Spec.Caused.{IsCaused, Cause}
use distributed_software_hom.Saga.Spec.Kept.{Change-IsCaused}
use distributed_software_hom.Saga.Orders.{
  purchase-Change, inventory_event-Change, payment_event-Change,
}
use distributed_software_hom.Saga.Others
use distributed_software_hom.Saga.Others.{stock_event-Change}

-- The mark of a relay leaves a table apart from the outbox alone.
pub mark_sent-rows :
    {F S R : Type 0} {schema : Schema R} (outbox : Table S (OutboxEvent F) outbox_schema)
    (t : Table S R schema)
    → IsApart outbox t
    → (e : OutboxEvent F) (s : S) → t.rows (mark_sent outbox e s) ≡ t.rows s
unfolding mark_sent
mark_sent-rows {F} outbox t apart e s =
    let q = λ (r : OutboxEvent F). r.id == e.id in
    let f = λ (r : OutboxEvent F). record r { sent = true } in
    elim (Result-cases (outbox.update q f s)) [
      | inr (x, failed) ↦ rw (failed, mark_sent) refl
      | inl ((n, s'), done) ↦ rw (done, mark_sent) (apart.update_apart q f s n s' done)
    ]

-- What the services have on record for a paid order.
pub record Settled {F : Type 0} (v : View F) (o : Order F) : Type 0 where
  pub order : OrderCreatedEvent F
  pub deduction : StockDeductedEvent
  pub request : PaymentRequestedEvent F
  pub payment : PaymentResultEvent F
  pub ordered : (order.order_no ≡ o.order_no) × IsIn (created order) v.from_order
  pub placed : Any (IsOrderFor order) v.orders
  pub secured :
      (deduction.order_no ≡ o.order_no)
      × (deduction.product_id ≡ order.product_id)
      × (deduction.quantity ≡ order.quantity)
      × IsIn (deducted deduction) v.from_inventory
  pub asked : (request.order_no ≡ o.order_no) × IsIn (requested request) v.from_order
  pub received :
      (payment.order_no ≡ o.order_no)
      × (payment.amount ≡ request.amount)
      × IsIn (paid payment) v.from_payment
  pub recorded : Any (IsPaymentFor payment 1) v.payments

module _ {F : Type 0} where
  caused-Settled :
      (v : View F) (o : Order F)
      → IsCaused v
      → Any (λ x. x ≡ o) v.orders
      → o.status ≡ Status.paid
      → Settled v o
  caused-Settled v o h there is_paid =
      let (p, same_p, has_paid) =
        subst (Cause v o.order_no) is_paid
          (All-in (λ x. Cause v x.order_no x.status) o v.orders h.order_causes there) in
      let (r, same_r, amount, has_request, row) =
        All-in _ (paid p) v.from_payment h.payment_reasons has_paid in
      let (d, same_d, has_deducted) =
        All-in _ (requested r) v.from_order h.order_reasons has_request in
      let (c, same_c, product, quantity, has_created) =
        All-in _ (deducted d) v.from_inventory h.inventory_reasons has_deducted in
      let at_r = sym same_r ∙ same_p in
      let at_d = sym same_d ∙ at_r in
      record {
        order = c;
        deduction = d;
        request = r;
        payment = p;
        ordered = (sym same_c ∙ at_d, has_created);
        placed = All-in _ (created c) v.from_order h.order_reasons has_created;
        secured = (at_d, product, quantity, has_deducted);
        asked = (at_r, has_request);
        received = (same_p, amount, has_paid);
        recorded = row;
      }

module _ {F SO SI SP D : Type 0} (order_store : OrderStore F SO)
    (inventory_store : InventoryStore F SI) (payment_store : PaymentStore F SP)
    (redis : Redis D) where
  abbrev seen_by : System SO SI SP D → View F
  seen_by = view order_store inventory_store payment_store redis

  -- Each step of the services is a transition of the saga's specification, or changes nothing that
  -- the specification speaks about.
  pub Step-Change :
      (w w' : System SO SI SP D)
      → Step order_store inventory_store payment_store redis w w'
      → Change (seen_by w) (seen_by w')
  Step-Change w _ (purchase floats stamp n uid req counted) =
      purchase-Change order_store redis (seen_by w) floats stamp n uid req w.orders w.redis counted
  Step-Change w _ (inventory_consumes stamp p there) =
      stock_event-Change inventory_store redis (seen_by w) stamp p w.inventory w.redis there
  Step-Change w _ (payment_consumes prob rate roll stamp id p there) =
      Others.payment_event-Change payment_store (seen_by w) prob rate roll stamp id p w.payments
        there
  Step-Change w _ (order_consumes_inventory stamp p there) =
      inventory_event-Change order_store redis (seen_by w) stamp p w.orders w.redis there
  Step-Change w _ (order_consumes_payment stamp p there) =
      payment_event-Change order_store redis (seen_by w) stamp p w.orders w.redis there
  Step-Change w _ (order_relays e) = Change.idle (
      ap₂ (λ a b. record (seen_by w) { from_order = a; orders = b })
        (mark_sent-payloads order_store.outbox e w.orders)
        (mark_sent-rows order_store.outbox order_store.orders order_store.outbox_apart e w.orders))
  Step-Change w _ (inventory_relays e) = Change.idle (
      ap (λ a. record (seen_by w) { from_inventory = a })
        (mark_sent-payloads inventory_store.outbox e w.inventory))
  Step-Change w _ (payment_relays e) = Change.idle (
      ap₂ (λ a b. record (seen_by w) { from_payment = a; payments = b })
        (mark_sent-payloads payment_store.outbox e w.payments)
        (mark_sent-rows payment_store.outbox payment_store.payments payment_store.outbox_apart e
          w.payments))
  Step-Change w _ (redis_changes d) = Change.idle refl
  Step-Change w _ (stock_is_deducted pid q n) = Change.idle (
      ap (λ rows. record (seen_by w) { from_inventory = payloads rows })
        (Others.deduct-outbox inventory_store pid q w.inventory))
  Step-Change w _ (stock_is_set meanwhile pid total read s' saved now done) = Change.idle (
      ap (λ rows. record (seen_by w) { from_inventory = payloads rows })
        (Others.set_inventory-outbox inventory_store meanwhile pid total read s' saved done
          ∙ ap inventory_store.outbox.rows now))

  Reach-IsCaused :
      (w0 w : System SO SI SP D)
      → IsCaused (seen_by w0)
      → Reach order_store inventory_store payment_store redis w0 w
      → IsCaused (seen_by w)
  Reach-IsCaused w0 _ h start = h
  Reach-IsCaused w0 _ h (later {w} {w'} before step) =
      Change-IsCaused (seen_by w) (seen_by w') (Step-Change w w' step)
        (Reach-IsCaused w0 w h before)

  -- From a system in which every event and every status has its cause (an empty one, say), whatever
  -- order the events arrive in and however often, an order is paid only if the services have on
  -- record, all for its number: the published creation of an order with the row that it names, the
  -- deduction of its product and quantity, the request of the payment, and its success with a row of
  -- status 1 in the payments.
  pub Reach-Settled :
      (w0 w : System SO SI SP D) (o : Order F)
      → IsCaused (seen_by w0)
      → Reach order_store inventory_store payment_store redis w0 w
      → Any (λ x. x ≡ o) (order_store.orders.rows w.orders)
      → o.status ≡ Status.paid
      → Settled (seen_by w) o
  Reach-Settled w0 w o h run there is_paid =
      caused-Settled (seen_by w) o (Reach-IsCaused w0 w h run) there is_paid
