-- ===== src/Saga/Consumers/Lost.antt =====
-- What a claim of pkg/kafka/consumer.go does with an event whose transaction fails: the handlers of
-- internal/{inventory,order}/event_handler.go and internal/payment/service.go log the error and
-- return nil.
use distributed_software_hom.Prelude.{◌≡◌, refl, ap, ◌++◌, List, ◌∷◌}
use distributed_software_hom.Result.{Error, ok, err}
use distributed_software_hom.Database.{no_value}
use distributed_software_hom.Redis.{Redis}
use distributed_software_hom.Event.{
  OrderCreatedEvent, StockDeductedEvent, StockDeductFailedEvent, PaymentRequestedEvent,
  PaymentResultEvent, created, requested, deducted, deduct_failed, paid, not_paid, event,
  payment_requested, order_completed, order_cancelled,
}
use distributed_software_hom.Inventory.Events
use distributed_software_hom.Inventory.Events.{InventoryStore, reserve, handle_order_created}
use distributed_software_hom.Order.{Order, Status, get_order_by_order_no}
use distributed_software_hom.Order.Store.{OrderStore}
use distributed_software_hom.Order.Events.{
  run_advance, payment_payload, cancelled_payload, completed_payload, handle_stock_deducted,
  handle_stock_deduct_failed, handle_payment_success, handle_payment_failed, handle_inventory_event,
  handle_payment_event,
}
use distributed_software_hom.Payment
use distributed_software_hom.Payment.{PaymentStore, record_payment}
use distributed_software_hom.Kafka.{consume_claim, mark_all, consume_claim_lost}
use distributed_software_hom.Saga.{System}
use distributed_software_hom.Saga.Consumers.{
  Handling, by_inventory_event, by_payment_event, by_stock, by_payment, Arrival, handled,
}

module _ {F SO SI SP D : Type 0} (order_store : OrderStore F SO)
    (inventory_store : InventoryStore F SI) (payment_store : PaymentStore F SP)
    (redis : Redis D) where
  -- The transaction that the handler runs for an event of the saga fails, in the state `w`.
  pub data IsAborted (a : Arrival F) (w : System SO SI SP D) : Handling → Type 0 where
    order_created_aborted :
        (evt : OrderCreatedEvent F) (e : Error)
        → a.message ≡ event (created evt)
        → inventory_store.transactions.transaction
            (λ t. no_value (reserve inventory_store a.stamp evt t))
            w.inventory
          ≡ err e
        → IsAborted a w by_stock
    payment_requested_aborted :
        (evt : PaymentRequestedEvent F) (e : Error)
        → a.message ≡ event (requested evt)
        → payment_store.transactions.transaction
            (λ t.
              no_value (
                record_payment payment_store a.stamp a.payment_id evt
                  (a.prob.less a.roll a.rate)
                  t))
            w.payments
          ≡ err e
        → IsAborted a w by_payment
    stock_deducted_aborted :
        (evt : StockDeductedEvent) (o : Order F) (e : Error)
        → a.message ≡ event (deducted evt)
        → get_order_by_order_no order_store.orders evt.order_no w.orders ≡ ok o
        → run_advance order_store evt.order_no Status.awaiting_payment payment_requested
            (payment_payload a.stamp evt.order_no o)
            w.orders
          ≡ err e
        → IsAborted a w by_inventory_event
    stock_deduct_failed_aborted :
        (evt : StockDeductFailedEvent) (o : Order F) (e : Error)
        → a.message ≡ event (deduct_failed evt)
        → get_order_by_order_no order_store.orders evt.order_no w.orders ≡ ok o
        → run_advance order_store evt.order_no Status.cancelled order_cancelled
            (cancelled_payload a.stamp evt.order_no o evt.product_id "stock_deduction_failed")
            w.orders
          ≡ err e
        → IsAborted a w by_inventory_event
    payment_success_aborted :
        (evt : PaymentResultEvent F) (o : Order F) (e : Error)
        → a.message ≡ event (paid evt)
        → get_order_by_order_no order_store.orders evt.order_no w.orders ≡ ok o
        → run_advance order_store evt.order_no Status.paid order_completed
            (completed_payload a.stamp evt.order_no o)
            w.orders
          ≡ err e
        → IsAborted a w by_payment_event
    payment_failed_aborted :
        (evt : PaymentResultEvent F) (o : Order F) (e : Error)
        → a.message ≡ event (not_paid evt)
        → get_order_by_order_no order_store.orders evt.order_no w.orders ≡ ok o
        → run_advance order_store evt.order_no Status.cancelled order_cancelled
            (cancelled_payload a.stamp evt.order_no o o.product_id "payment_failed")
            w.orders
          ≡ err e
        → IsAborted a w by_payment_event

  abbrev does : Handling → Arrival F → System SO SI SP D → System SO SI SP D
  does = handled order_store inventory_store payment_store redis

  -- A handler whose transaction fails has changed nothing, in the databases and in Redis.
  aborted-unchanged :
      (h : Handling) (a : Arrival F) (w : System SO SI SP D) → IsAborted a w h → does h a w ≡ w
  unfolding Events.handle_order_event handle_order_created Payment.handle_order_event
      handle_inventory_event handle_payment_event handle_stock_deducted handle_stock_deduct_failed
      handle_payment_success handle_payment_failed
  aborted-unchanged h a w (order_created_aborted evt e is failed) = rw is (rw failed refl)
  aborted-unchanged h a w (payment_requested_aborted evt e is failed) = rw is (rw failed refl)
  aborted-unchanged h a w (stock_deducted_aborted evt o e is read failed) =
      rw is (rw (read, handle_stock_deducted) (rw failed refl))
  aborted-unchanged h a w (stock_deduct_failed_aborted evt o e is read failed) =
      rw is (rw (read, handle_stock_deduct_failed) (rw failed refl))
  aborted-unchanged h a w (payment_success_aborted evt o e is read failed) =
      rw is (rw (read, handle_payment_success) (rw failed refl))
  aborted-unchanged h a w (payment_failed_aborted evt o e is read failed) =
      rw is (rw (read, handle_payment_failed) (rw failed refl))

  -- An event of the saga whose transaction fails when its turn in a claim comes is lost: the claim
  -- leaves the databases and Redis as if the event had not been sent, and yet it is marked like the
  -- others, so that Kafka does not deliver it again.
  pub aborted_lost :
      {Q : Type 0} (mark : Arrival F → Q → Q) (h : Handling) (front back : List (Arrival F))
      (a : Arrival F) (w w1 : System SO SI SP D) (q q1 : Q)
      → consume_claim mark (λ b x. (ok tt, does h b x)) front (w, q) ≡ (w1, q1)
      → IsAborted a w1 h
      → let run = consume_claim mark (λ b x. (ok tt, does h b x)) in
        ((run (front ++ a ∷ back) (w, q)).0 ≡ (run (front ++ back) (w, q)).0)
        × ((run (front ++ a ∷ back) (w, q)).1 ≡ mark_all mark (front ++ a ∷ back) q)
  aborted_lost mark h front back a w w1 q q1 reached aborted =
      consume_claim_lost mark (λ b x. (ok tt, does h b x)) front back a w w1 q q1 (ok tt) reached
        (ap (λ x. (ok tt, x)) (aborted-unchanged h a w1 aborted))
