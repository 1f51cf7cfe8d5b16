-- ===== src/Saga/Completed.antt =====
-- A purchase that the three services (cmd/{order,inventory,payment}-service) bring to its end.
use distributed_software_hom.Prelude.{
  ap, ◌∙◌, sym, subst, some, find?, str_eq, ◌==◌, ◌+◌, ℕ, String, ◌≡◌, true, [], ◌∷◌, ◌++◌,
}
use distributed_software_hom.Prelude.Int.{◌-ℤ◌, pos, leb_ℤ}
use distributed_software_hom.Result.{ok}
use distributed_software_hom.Database.{IsUp, no_value}
use distributed_software_hom.Database.Rows.{IsUnclashed}
use distributed_software_hom.Redis.{Redis, IsRedisUp, text}
use distributed_software_hom.Event.{
  paid, completed, OrderCreatedEvent, OrderCompletedEvent, PaymentResultEvent, created, Stamp,
  payment_requested, order_completed,
}
use distributed_software_hom.Inventory.{Inventory, inventory_schema}
use distributed_software_hom.Inventory.Events.{InventoryStore, handle_order_completed}
use distributed_software_hom.Inventory.Events.Compensation.{IsRowOf}
use distributed_software_hom.Inventory.Events.Confirmed.{sold_row}
use distributed_software_hom.Inventory.Events.Redelivered.{IsCommitted}
use distributed_software_hom.Order.{Order, Status, with_status}
use distributed_software_hom.Order.Store.{OrderStore}
use distributed_software_hom.Order.Events.{run_advance, payment_payload, completed_payload}
use distributed_software_hom.Order.Events.Advance.{IsOrderOf, run_advance-Advanced}
use distributed_software_hom.Order.Events.Rows.{advanced_row}
use distributed_software_hom.Order.Events.Polled.{answered, poll_answered}
use distributed_software_hom.Order.Seckill.Poll.{get_seckill_result}
use distributed_software_hom.Payment.{PaymentStore, Probabilities, record_payment}
use distributed_software_hom.Saga.{
  System, view, Reach, later, inventory_consumed, order_consumed_payment, inventory_consumes,
  order_consumes_payment,
}
use distributed_software_hom.Saga.Spec.{View, IsIn}
use distributed_software_hom.Saga.Paid.{
  IsPaidFor, ArePublished, after_created, after_deducted, after_requested,
  after_requested-IsPaidFor, after_requested-Reach, payloads-emitted, last_IsIn, locked_covers,
}
use distributed_software_hom.Saga.Deliveries.{
  asked_for, paid_with, sold_for, order_completes, inventory_sells,
}

module _ {F SO SI SP D : Type 0} (order_store : OrderStore F SO)
    (inventory_store : InventoryStore F SI) (payment_store : PaymentStore F SP)
    (redis : Redis D) where
  open order_store use {orders}
  open inventory_store use {inventories}
  open payment_store use {payments}

  -- What a completed purchase leaves behind: columns and answers, written out.
  abbrev pub IsCompleted :
      OrderCreatedEvent F
      → Order F
      → Inventory
      → String
      → System SO SI SP D
      → System SO SI SP D
      → Type 0
  IsCompleted evt o inv payment_id w w' =
      (find? (λ r. str_eq r.order_no evt.order_no) (orders.rows w'.orders)
        ≡ some (record o { status = Status.paid }))
      × (get_seckill_result orders redis evt.order_no w'.orders w'.redis ≡ ok (text "SUCCESS"))
      × (find? (λ r. r.product_id == evt.product_id) (inventories.rows w'.inventory)
          ≡ some (record inv {
            available = inv.available -ℤ evt.quantity;
            version = inv.version + 1 + 1;
          }))
      × ((i : ℕ) × (payments.rows w'.payments
            ≡ payments.rows w.payments
              ++ record {
                id = i;
                payment_id = payment_id;
                order_no = evt.order_no;
                user_id = o.user_id;
                amount = o.total_price;
                status = 1;
              }
                ∷ []))

  module _ (w : System SO SI SP D) (evt : OrderCreatedEvent F) (o : Order F) (inv : Inventory)
      (prob : Probabilities F) (rate roll : F) (payment_id : String) (s1 s2 s3 s4 : Stamp) (i1 : SI)
      (o1 o2 : SO) (p1 : SP) (redis_up : IsRedisUp redis) (orders_up : (s : SO) → IsUp orders s)
      (stock_up : (s : SI) → IsUp inventories s)
      (published : IsIn
        (created evt)
        (view order_store inventory_store payment_store redis w).from_order)
      (found : IsOrderOf order_store evt.order_no o w.orders)
      (same_product : o.product_id ≡ evt.product_id) (same_quantity : o.quantity ≡ evt.quantity)
      (unique : IsUnclashed inventory_schema.clash (inventories.rows w.inventory))
      (row : IsRowOf inventory_store evt.product_id inv w.inventory)
      (enough : leb_ℤ evt.quantity inv.available ≡ true)
      (not_negative : leb_ℤ (pos 0) inv.locked ≡ true) (drawn : prob.less roll rate ≡ true)
      (c1 : IsCommitted inventory_store s1 evt w.inventory i1)
      (c2 : run_advance order_store evt.order_no Status.awaiting_payment payment_requested
          (payment_payload s2 evt.order_no o)
          w.orders
        ≡ ok (tt, o1))
      (c3 : payment_store.transactions.transaction
          (λ t.
            no_value
              (record_payment payment_store s3 payment_id (asked_for s2 evt.order_no o) true t))
          w.payments
        ≡ ok (tt, p1))
      (c4 : run_advance order_store evt.order_no Status.paid order_completed
          (completed_payload s4 evt.order_no o)
          o1
        ≡ ok (tt, o2)) where
    abbrev waiting : Order F
    waiting = with_status Status.awaiting_payment o

    abbrev success : PaymentResultEvent F
    success = paid_with s3 evt.order_no payment_id o

    abbrev sale : OrderCompletedEvent
    sale = sold_for s4 evt.order_no o

    abbrev paid_for : System SO SI SP D
    paid_for = record w { orders = o1; inventory = i1; payments = p1 }

    -- The systems after each of the events, and what they have published.
    abbrev w1 : System SO SI SP D
    w1 = after_created order_store inventory_store payment_store redis s1 evt w

    abbrev w2 : System SO SI SP D
    w2 = after_deducted order_store inventory_store payment_store redis s1 s2 evt w

    abbrev w3 : System SO SI SP D
    w3 =
        after_requested order_store inventory_store payment_store redis prob rate roll payment_id s1
          s2 s3 evt o w

    abbrev w4 : System SO SI SP D
    w4 = order_consumed_payment order_store inventory_store payment_store redis s4 (paid success) w3

    abbrev w5 : System SO SI SP D
    w5 = inventory_consumed order_store inventory_store payment_store redis s4 (completed sale) w4

    abbrev seen : System SO SI SP D → View F
    seen = view order_store inventory_store payment_store redis

    three :
        (w3 ≡ paid_for)
        × ArePublished order_store inventory_store payment_store redis
            (paid success)
            s1
            s2
            evt
            o
            w
            w1
            w2
            w3
        × IsPaidFor order_store inventory_store payment_store redis evt o inv payment_id true w
            paid_for
    three =
        after_requested-IsPaidFor order_store inventory_store payment_store redis w evt o inv prob
          rate roll payment_id s1 s2 s3 true i1 o1 p1 orders_up stock_up found unique row enough
          drawn c1 c2 c3

    -- The other two are steps of the saga as well.
    last-Reach :
        (((seen w4).from_order) ≡ (seen w3).from_order ++ (completed sale) ∷ [])
        → Reach order_store inventory_store payment_store redis w w5
    last-Reach emitted =
        let events = three.1 in
        later
          (later
            (after_requested-Reach order_store inventory_store payment_store redis w evt o prob rate
              roll payment_id s1 s2 s3 (paid success) published events)
            (order_consumes_payment s4 (paid success) (last_IsIn _ _ _ events.2)))
          (inventory_consumes s4 (completed sale) (last_IsIn _ _ _ emitted))

    -- The saga can complete. With Redis and the databases reachable and unique keys in the stock
    -- table, and where the four transactions of the services are committed: for an order whose
    -- ORDER_CREATED is published, with its own product and quantity, whose stock row covers the
    -- quantity and has no negative number of locked units, and whose payment draws below the rate,
    -- the handlers of five events, each of which the one before has published last, lead to a state
    -- of the saga in which the order is paid, a client that polls is told SUCCESS, the quantity has
    -- gone from the available units of the product, whose locked ones are as before, and one payment
    -- of the order's price is recorded as succeeded.
    pub Reach-IsCompleted :
        ArePublished order_store inventory_store payment_store redis
          (paid success)
          s1
          s2
          evt
          o
          w
          w1
          w2
          w3
        × ((seen w4).from_order ≡ (seen w3).from_order ++ completed sale ∷ [])
        × Reach order_store inventory_store payment_store redis w w5
        × IsCompleted evt o inv payment_id w w5
    Reach-IsCompleted =
        let (same3, events, (found1, read1, row1, unique1, payment)) = three in
        let d : D = answered order_store redis s4 success waiting o1 o2 w.redis read1 c4 in
        let last4 : System SO SI SP D = record paid_for { orders = o2; redis = d } in
        let last : System SO SI SP D = record last4 {
          inventory = handle_order_completed inventory_store sale i1;
        } in
        let same4 : w4 ≡ last4 =
          ap
            (order_consumed_payment order_store inventory_store payment_store redis s4
              (paid success))
            same3
          ∙ order_completes order_store inventory_store payment_store redis paid_for s4 success
              waiting o2 read1 c4 in
        let same5 : w5 ≡ last =
          ap
            (inventory_consumed order_store inventory_store payment_store redis s4 (completed sale))
            same4
          ∙ inventory_sells order_store inventory_store payment_store redis last4 s4 sale in
        let (m, moved, sold) =
          run_advance-Advanced order_store evt.order_no Status.paid order_completed
            (completed_payload s4 evt.order_no waiting) o1 o2 tt c4 in
        let emitted : (seen w4).from_order ≡ (seen w3).from_order ++ completed sale ∷ [] =
          ap (λ x. (seen x).from_order) same4
          ∙ payloads-emitted _ _ _ sold
          ∙ ap (λ x. (seen x).from_order ++ completed sale ∷ []) (sym same3) in
        (
          events,
          emitted,
          last-Reach emitted,
          subst (IsCompleted evt o inv payment_id w) (sym same5) (
            advanced_row order_store evt.order_no Status.paid order_completed
                (completed_payload s4 evt.order_no waiting) waiting o1 o2 found1 c4,
            poll_answered order_store redis s4 success waiting o1 o2 w.redis read1 c4 redis_up
                (orders_up o2),
            sold_row inventory_store sale evt.product_id evt.quantity inv i1 (stock_up i1) unique1
                same_product same_quantity row1
                (locked_covers evt.quantity inv.locked not_negative),
            payment,
          ),
        )
