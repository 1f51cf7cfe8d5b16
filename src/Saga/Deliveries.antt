-- ===== src/Saga/Deliveries.antt =====
-- What the consumers of the three services (internal/{inventory,order}/event_handler.go and
-- internal/payment/service.go) do in the saga where their transactions are committed.
use distributed_software_hom.Prelude.{Bool, String, ◌≡◌, refl, ap}
use distributed_software_hom.Inventory.RedisStock.{rollback_redis}
use distributed_software_hom.Result.{ok}
use distributed_software_hom.Database.{no_value}
use distributed_software_hom.Redis.{Redis, text, result_key, lock_key}
use distributed_software_hom.Event.{
  OrderCreatedEvent, StockDeductedEvent, PaymentRequestedEvent, PaymentResultEvent,
  OrderCompletedEvent, OrderCancelledEvent, cancelled, not_paid, order_cancelled, event, created,
  deducted, requested, paid, completed, Stamp, stamped, payment_requested, order_completed,
}
use distributed_software_hom.Inventory.Events.{
  InventoryStore, handle_order_completed, handle_order_event, handle_order_cancelled, returned,
}
use distributed_software_hom.Inventory.Events.Redelivered.{IsCommitted, IsCommitted-state}
use distributed_software_hom.Order.{Order, Status, get_order_by_order_no}
use distributed_software_hom.Order.Store.{OrderStore}
use distributed_software_hom.Order.Events.{
  run_advance, payment_payload, completed_payload, cancelled_payload, handle_payment_failed,
  handle_stock_deducted, handle_inventory_event, handle_payment_event,
}
use distributed_software_hom.Order.Events.Polled.{answered, payment_success_ended}
use distributed_software_hom.Payment.{PaymentStore, Probabilities, record_payment, result_event}
use distributed_software_hom.Payment
use distributed_software_hom.Saga.{
  System, inventory_consumed, order_consumed_inventory, payment_consumed, order_consumed_payment,
}

-- The events of a purchase that succeeds, each made from the one before.
abbrev pub taken_for : {F : Type 0} → Stamp → OrderCreatedEvent F → StockDeductedEvent
taken_for stamp evt = record {
  base = stamped stamp;
  order_no = evt.order_no;
  product_id = evt.product_id;
  quantity = evt.quantity;
}

abbrev pub asked_for : {F : Type 0} → Stamp → String → Order F → PaymentRequestedEvent F
asked_for stamp order_no o = record {
  base = stamped stamp;
  order_no = order_no;
  user_id = o.user_id;
  amount = o.total_price;
}

abbrev pub sold_for : {F : Type 0} → Stamp → String → Order F → OrderCompletedEvent
sold_for stamp order_no o = record {
  base = stamped stamp;
  order_no = order_no;
  product_id = o.product_id;
  quantity = o.quantity;
}

abbrev pub paid_with : {F : Type 0} → Stamp → String → String → Order F → PaymentResultEvent F
paid_with stamp order_no payment_id o = record {
  base = stamped stamp;
  order_no = order_no;
  payment_id = payment_id;
  amount = o.total_price;
}

-- What a consumer does to the system when its transaction is committed.
module _ {F SO SI SP D : Type 0} (order_store : OrderStore F SO)
    (inventory_store : InventoryStore F SI) (payment_store : PaymentStore F SP) (redis : Redis D)
    (w : System SO SI SP D) where
  pub inventory_takes :
      (stamp : Stamp) (evt : OrderCreatedEvent F) (s' : SI)
      → IsCommitted inventory_store stamp evt w.inventory s'
      → inventory_consumed order_store inventory_store payment_store redis stamp (created evt) w
        ≡ record w { inventory = s' }
  unfolding handle_order_event
  inventory_takes stamp evt s' done =
      ap (λ s. record w { inventory = s })
        (IsCommitted-state inventory_store stamp evt w.inventory s' done)

  pub order_asks :
      (stamp : Stamp) (evt : StockDeductedEvent) (o : Order F) (s' : SO)
      → get_order_by_order_no order_store.orders evt.order_no w.orders ≡ ok o
      → run_advance order_store evt.order_no Status.awaiting_payment payment_requested
          (payment_payload stamp evt.order_no o)
          w.orders
        ≡ ok (tt, s')
      → order_consumed_inventory order_store inventory_store payment_store redis stamp
          (deducted evt)
          w
        ≡ record w { orders = s' }
  unfolding handle_inventory_event handle_stock_deducted
  order_asks stamp evt o s' read done =
      let ended : handle_stock_deducted order_store stamp evt w.orders ≡ s' =
        rw (read, handle_stock_deducted) (rw done refl) in
      ap (λ s. record w { orders = s }) ended

  pub payment_pays :
      (prob : Probabilities F) (rate roll : F) (stamp : Stamp) (payment_id : String)
      (evt : PaymentRequestedEvent F) (outcome : Bool) (s' : SP)
      → prob.less roll rate ≡ outcome
      → payment_store.transactions.transaction
          (λ t. no_value (record_payment payment_store stamp payment_id evt outcome t))
          w.payments
        ≡ ok (tt, s')
      → payment_consumed order_store inventory_store payment_store redis prob rate roll stamp
          payment_id
          (requested evt)
          w
        ≡ record w { payments = s' }
  unfolding Payment.handle_order_event
  payment_pays prob rate roll stamp payment_id evt outcome s' drawn done =
      let ended : Payment.handle_order_event payment_store prob rate roll stamp payment_id
            (event (requested evt)) w.payments
          ≡ s' =
        rw drawn (rw done refl) in
      ap (λ s. record w { payments = s }) ended

  pub order_completes :
      (stamp : Stamp) (evt : PaymentResultEvent F) (o : Order F) (s' : SO)
      → (read : get_order_by_order_no order_store.orders evt.order_no w.orders ≡ ok o)
      → (done : run_advance order_store evt.order_no Status.paid order_completed
            (completed_payload stamp evt.order_no o)
            w.orders
          ≡ ok (tt, s'))
      → order_consumed_payment order_store inventory_store payment_store redis stamp (paid evt) w
        ≡ record w {
          orders = s';
          redis = answered order_store redis stamp evt o w.orders s' w.redis read done;
        }
  unfolding handle_payment_event
  order_completes stamp evt o s' read done =
      ap (λ c. record w { orders = c.0; redis = c.1 })
        (payment_success_ended order_store redis stamp evt o w.orders s' w.redis read done)

  pub order_refuses :
      (stamp : Stamp) (evt : PaymentResultEvent F) (o : Order F) (s' : SO)
      → get_order_by_order_no order_store.orders evt.order_no w.orders ≡ ok o
      → run_advance order_store evt.order_no Status.cancelled order_cancelled
          (cancelled_payload stamp evt.order_no o o.product_id "payment_failed")
          w.orders
        ≡ ok (tt, s')
      → order_consumed_payment order_store inventory_store payment_store redis stamp
          (not_paid evt)
          w
        ≡ record w {
          orders = s';
          redis = (redis.set (result_key evt.order_no) (text "FAILED") w.redis).1;
        }
  unfolding handle_payment_event handle_payment_failed
  order_refuses stamp evt o s' read done =
      let ended : handle_payment_failed order_store redis stamp evt w.orders w.redis
          ≡ (s', (redis.set (result_key evt.order_no) (text "FAILED") w.redis).1) =
        rw (read, handle_payment_failed) (rw done refl) in
      ap (λ c. record w { orders = c.0; redis = c.1 }) ended

  pub inventory_frees :
      (stamp : Stamp) (evt : OrderCancelledEvent)
      → inventory_consumed order_store inventory_store payment_store redis stamp (cancelled evt) w
        ≡ record w {
          inventory = returned inventory_store evt.product_id evt.quantity w.inventory;
          redis =
              (redis.del
                (lock_key evt.user_id evt.product_id)
                (rollback_redis redis evt.product_id evt.quantity w.redis)).1;
        }
  unfolding handle_order_event handle_order_cancelled
  inventory_frees stamp evt = refl

  pub inventory_sells :
      (stamp : Stamp) (evt : OrderCompletedEvent)
      → inventory_consumed order_store inventory_store payment_store redis stamp (completed evt) w
        ≡ record w { inventory = handle_order_completed inventory_store evt w.inventory }
  unfolding handle_order_event
  inventory_sells stamp evt = refl
