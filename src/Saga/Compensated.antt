-- ===== src/Saga/Compensated.antt =====
-- A purchase whose payment fails, which the three services (cmd/{order,inventory,payment}-service)
-- undo.
use distributed_software_hom.Prelude.{
  sym, subst, find?, str_eq, ◌==◌, ap, ◌∙◌, some, none, ◌+◌, arith, refl, false, ℕ, String, ◌≡◌,
  true, [], ◌∷◌, ◌++◌,
}
use distributed_software_hom.Prelude.Int.{ℤ, pos, leb_ℤ, ◌+ℤ◌}
use distributed_software_hom.Result.{ok}
use distributed_software_hom.Database.{IsUp, no_value}
use distributed_software_hom.Database.Rows.{IsUnclashed}
use distributed_software_hom.Redis.{
  number, number_at, stock_key, lock_key, result_key, Redis, IsRedisUp, text,
}
use distributed_software_hom.Event.{
  not_paid, cancelled, OrderCancelledEvent, order_cancelled, stamped, OrderCreatedEvent,
  PaymentResultEvent, created, Stamp, payment_requested,
}
use distributed_software_hom.Inventory.{Inventory, inventory_schema}
use distributed_software_hom.Inventory.Events.{returned, InventoryStore}
use distributed_software_hom.Inventory.Events.Compensation.{IsRowOf}
use distributed_software_hom.Inventory.Events.Freed.{cancelled_redis, restored_row, set_other}
use distributed_software_hom.Inventory.RedisStock.{rollback_redis}
use distributed_software_hom.Inventory.Events.Redelivered.{IsCommitted}
use distributed_software_hom.Order.{Order, Status, with_status}
use distributed_software_hom.Order.Store.{OrderStore}
use distributed_software_hom.Order.Events.{cancelled_payload, run_advance, payment_payload}
use distributed_software_hom.Order.Events.Advance.{IsOrderOf, run_advance-Advanced}
use distributed_software_hom.Order.Events.Rows.{advanced_row}
use distributed_software_hom.Order.Events.Polled.{set_view, poll_agrees}
use distributed_software_hom.Order.Seckill.Poll.{get_seckill_result}
use distributed_software_hom.Payment.{PaymentStore, Probabilities, record_payment}
use distributed_software_hom.Saga.{
  System, view, Reach, later, inventory_consumed, order_consumed_payment, inventory_consumes,
  order_consumes_payment,
}
use distributed_software_hom.Saga.Spec.{View, IsIn}
use distributed_software_hom.Saga.Paid.{
  IsPaidFor, ArePublished, after_created, after_deducted, after_requested,
  after_requested-IsPaidFor, after_requested-Reach, payloads-emitted, last_IsIn, locked_covers,
}
use distributed_software_hom.Saga.Deliveries.{asked_for, paid_with, order_refuses, inventory_frees}

module _ {F SO SI SP D : Type 0} (order_store : OrderStore F SO)
    (inventory_store : InventoryStore F SI) (payment_store : PaymentStore F SP)
    (redis : Redis D) where
  open order_store use {orders}
  open inventory_store use {inventories}
  open payment_store use {payments}

  -- What a purchase without a payment leaves behind: columns, keys and answers, written out.
  abbrev pub IsCompensated :
      OrderCreatedEvent F
      → Order F
      → Inventory
      → ℤ
      → String
      → System SO SI SP D
      → System SO SI SP D
      → Type 0
  IsCompensated evt o inv counter payment_id w w' =
      (find? (λ r. str_eq r.order_no evt.order_no) (orders.rows w'.orders)
        ≡ some (record o { status = Status.cancelled }))
      × (get_seckill_result orders redis evt.order_no w'.orders w'.redis ≡ ok (text "FAILED"))
      × (find? (λ r. r.product_id == evt.product_id) (inventories.rows w'.inventory)
          ≡ some (record inv { version = inv.version + 1 + 1 }))
      × (redis.view (stock_key o.product_id) w'.redis ≡ some (number (counter +ℤ o.quantity)))
      × (redis.view (lock_key o.user_id o.product_id) w'.redis ≡ none)
      × ((i : ℕ) × (payments.rows w'.payments
            ≡ payments.rows w.payments
              ++ record {
                id = i;
                payment_id = payment_id;
                order_no = evt.order_no;
                user_id = o.user_id;
                amount = o.total_price;
                status = 2;
              }
                ∷ []))

  module _ (w : System SO SI SP D) (evt : OrderCreatedEvent F) (o : Order F) (inv : Inventory)
      (prob : Probabilities F) (rate roll : F) (payment_id : String) (s1 s2 s3 s4 : Stamp) (i1 : SI)
      (o1 o2 : SO) (p1 : SP) (redis_up : IsRedisUp redis) (orders_up : (s : SO) → IsUp orders s)
      (stock_up : (s : SI) → IsUp inventories s)
      (published : IsIn
        (created evt)
        (view order_store inventory_store payment_store redis w).from_order)
      (found : IsOrderOf order_store evt.order_no o w.orders)
      (same_product : o.product_id ≡ evt.product_id) (same_quantity : o.quantity ≡ evt.quantity)
      (unique : IsUnclashed inventory_schema.clash (inventories.rows w.inventory))
      (row : IsRowOf inventory_store evt.product_id inv w.inventory)
      (enough : leb_ℤ evt.quantity inv.available ≡ true)
      (not_negative : leb_ℤ (pos 0) inv.locked ≡ true) (drawn : prob.less roll rate ≡ false)
      (c1 : IsCommitted inventory_store s1 evt w.inventory i1)
      (c2 : run_advance order_store evt.order_no Status.awaiting_payment payment_requested
          (payment_payload s2 evt.order_no o)
          w.orders
        ≡ ok (tt, o1))
      (c3 : payment_store.transactions.transaction
          (λ t.
            no_value
              (record_payment payment_store s3 payment_id (asked_for s2 evt.order_no o) false t))
          w.payments
        ≡ ok (tt, p1))
      (c4 : run_advance order_store evt.order_no Status.cancelled order_cancelled
          (cancelled_payload s4 evt.order_no o o.product_id "payment_failed")
          o1
        ≡ ok (tt, o2))
      (counter : ℤ)
      (counted : number_at (redis.view (stock_key o.product_id) w.redis) ≡ some counter) where
    abbrev waiting : Order F
    waiting = with_status Status.awaiting_payment o

    abbrev failure : PaymentResultEvent F
    failure = paid_with s3 evt.order_no payment_id o

    abbrev compensation : OrderCancelledEvent
    compensation = record {
      base = stamped s4;
      order_no = evt.order_no;
      user_id = o.user_id;
      product_id = o.product_id;
      quantity = o.quantity;
      reason = "payment_failed";
    }

    abbrev paid_for : System SO SI SP D
    paid_for = record w { orders = o1; inventory = i1; payments = p1 }

    -- The systems after each of the events, and what they have published.
    abbrev w1 : System SO SI SP D
    w1 = after_created order_store inventory_store payment_store redis s1 evt w

    abbrev w2 : System SO SI SP D
    w2 = after_deducted order_store inventory_store payment_store redis s1 s2 evt w

    abbrev w3 : System SO SI SP D
    w3 =
        after_requested order_store inventory_store payment_store redis prob rate roll payment_id s1
          s2 s3 evt o w

    abbrev w4 : System SO SI SP D
    w4 =
        order_consumed_payment order_store inventory_store payment_store redis s4 (not_paid failure)
          w3

    abbrev w5 : System SO SI SP D
    w5 =
        inventory_consumed order_store inventory_store payment_store redis s4
          (cancelled compensation) w4

    abbrev seen : System SO SI SP D → View F
    seen = view order_store inventory_store payment_store redis

    three :
        (w3 ≡ paid_for)
        × ArePublished order_store inventory_store payment_store redis
            (not_paid failure)
            s1
            s2
            evt
            o
            w
            w1
            w2
            w3
        × IsPaidFor order_store inventory_store payment_store redis evt o inv payment_id false w
            paid_for
    three =
        after_requested-IsPaidFor order_store inventory_store payment_store redis w evt o inv prob
          rate roll payment_id s1 s2 s3 false i1 o1 p1 orders_up stock_up found unique row enough
          drawn c1 c2 c3

    -- The other two are steps of the saga as well.
    last-Reach :
        (((seen w4).from_order) ≡ (seen w3).from_order ++ (cancelled compensation) ∷ [])
        → Reach order_store inventory_store payment_store redis w w5
    last-Reach emitted =
        let events = three.1 in
        later
          (later
            (after_requested-Reach order_store inventory_store payment_store redis w evt o prob rate
              roll payment_id s1 s2 s3 (not_paid failure) published events)
            (order_consumes_payment s4 (not_paid failure) (last_IsIn _ _ _ events.2)))
          (inventory_consumes s4 (cancelled compensation) (last_IsIn _ _ _ emitted))

    abbrev refused : D
    refused = (redis.set (result_key evt.order_no) (text "FAILED") w.redis).1

    abbrev freed : D
    freed =
        (redis.del (lock_key o.user_id o.product_id)
          (rollback_redis redis o.product_id o.quantity refused)).1

    freed_views :
        (redis.view (stock_key o.product_id) freed ≡ some (number (counter +ℤ o.quantity)))
        × (redis.view (lock_key o.user_id o.product_id) freed ≡ none)
        × (redis.view (result_key evt.order_no) freed ≡ some (text "FAILED"))
    freed_views =
        let k = result_key evt.order_no in
        let same =
          set_other redis redis_up k (text "FAILED") (stock_key o.product_id) w.redis refl in
        let (stock, lock, kept) =
          cancelled_redis redis redis_up evt.order_no o.user_id o.product_id o.quantity counter
            refused (ap number_at same ∙ counted) in
        (
          stock,
          lock,
          kept ∙ set_view order_store redis redis_up evt.order_no (text "FAILED") w.redis,
        )

    -- The saga can undo a purchase. With Redis and the databases reachable and unique keys in the
    -- stock table, and where the four transactions of the services are committed: for an order whose
    -- ORDER_CREATED is published, with its own product and quantity, whose stock row covers the
    -- quantity and has no negative number of locked units, whose product has a number in its Redis
    -- counter (or no counter, which counts as 0), and whose payment does not draw below the rate,
    -- the handlers of five events, each of which the one before has published last, lead to a state
    -- of the saga in which the order is cancelled, a client that polls is told FAILED, the stock row
    -- is as before but for its version, which was raised twice, the counter in Redis has gained the
    -- quantity, the user has no lock on the product, and one payment of the order's price is
    -- recorded as failed.
    pub Reach-IsCompensated :
        ArePublished order_store inventory_store payment_store redis
          (not_paid failure)
          s1
          s2
          evt
          o
          w
          w1
          w2
          w3
        × ((seen w4).from_order ≡ (seen w3).from_order ++ cancelled compensation ∷ [])
        × Reach order_store inventory_store payment_store redis w w5
        × IsCompensated evt o inv counter payment_id w w5
    Reach-IsCompensated =
        let (same3, events, (found1, read1, row1, unique1, payment)) = three in
        let last4 : System SO SI SP D = record paid_for { orders = o2; redis = refused } in
        let last : System SO SI SP D = record last4 {
          inventory = returned inventory_store o.product_id o.quantity i1;
          redis = freed;
        } in
        let same4 : w4 ≡ last4 =
          ap
            (order_consumed_payment order_store inventory_store payment_store redis s4
              (not_paid failure))
            same3
          ∙ order_refuses order_store inventory_store payment_store redis paid_for s4 failure
              waiting o2 read1 c4 in
        let same5 : w5 ≡ last =
          ap
            (inventory_consumed order_store inventory_store payment_store redis s4
              (cancelled compensation))
            same4
          ∙ inventory_frees order_store inventory_store payment_store redis last4 s4 compensation in
        let payload = cancelled_payload s4 evt.order_no waiting o.product_id "payment_failed" in
        let (m, moved, cancelling) =
          run_advance-Advanced order_store evt.order_no Status.cancelled order_cancelled payload o1
            o2 tt c4 in
        let last_row =
          advanced_row order_store evt.order_no Status.cancelled order_cancelled payload waiting o1
            o2 found1 c4 in
        let (stock, lock, answer) = freed_views in
        let emitted : (seen w4).from_order ≡ (seen w3).from_order ++ cancelled compensation ∷ [] =
          ap (λ x. (seen x).from_order) same4
          ∙ payloads-emitted _ _ _ cancelling
          ∙ ap (λ x. (seen x).from_order ++ cancelled compensation ∷ []) (sym same3) in
        (
          events,
          emitted,
          last-Reach emitted,
          subst (IsCompensated evt o inv counter payment_id w) (sym same5) (
            last_row,
            poll_agrees order_store redis evt.order_no (with_status Status.cancelled o) o2 freed
                (orders_up o2) last_row (λ v there. ground (arith, answer, there)),
            restored_row inventory_store evt.product_id evt.quantity o.product_id o.quantity inv i1
                (stock_up i1) unique1 same_product same_quantity row1
                (locked_covers evt.quantity inv.locked not_negative),
            stock,
            lock,
            payment,
          ),
        )
