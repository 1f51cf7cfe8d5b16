-- ===== src/Saga/Orders.antt =====
-- What the order service does to the saga: a purchase, and each event that it consumes, is one of the
-- transitions of Saga.Spec, or none.
use distributed_software_hom.Prelude.{
  ℕ, String, ◌≡◌, inl, inr, refl, ap, ap₂, ◌∙◌, List, [], ◌∷◌, ◌++◌, arith, eq_iff,
}
use distributed_software_hom.Result.{Error, err, Result-cases, Call-cases}
use distributed_software_hom.Prelude.Int.{pos, ◌≤ℤ◌}
use distributed_software_hom.Database.{no_value}
use distributed_software_hom.Database.Rows.{find?-Any, find?-passes}
use distributed_software_hom.Redis.{Redis}
use distributed_software_hom.Event.{
  EventType, Payload, created, completed, cancelled, requested, deducted, deduct_failed, paid,
  not_paid, event, Stamp, order_created, payment_requested, order_completed, order_cancelled,
  order_events,
}
use distributed_software_hom.Inventory.RedisStock.{deduct_redis}
use distributed_software_hom.Order.{Order, Status, CreateOrderRequest, by_order_no}
use distributed_software_hom.Order.Store.{Floats, OrderStore}
use distributed_software_hom.Order.Seckill.{
  seckill, buy, claim, product_on_sale, place, new_order, created_payload,
}
use distributed_software_hom.Order.Seckill.Placed.{seckill-Placed}
use distributed_software_hom.Order.Events.{
  handle_inventory_event, handle_payment_event, handle_stock_deducted, handle_stock_deduct_failed,
  handle_payment_success, handle_payment_failed, payment_payload, cancelled_payload,
  completed_payload,
}
use distributed_software_hom.Order.Events.Advance.{
  Advanced, Answered, IsOrderOf, handle_stock_deducted_atomic, handle_stock_deduct_failed_atomic,
  handle_payment_success_atomic, handle_payment_failed_atomic,
}
use distributed_software_hom.Outbox
use distributed_software_hom.Outbox.{unsent}
use distributed_software_hom.Saga.{payloads, payloads-append}
use distributed_software_hom.Saga.Spec.{View, IsIn, IsRow, set_status, Refusal, Change}

module _ {F S D : Type 0} (store : OrderStore F S) (redis : Redis D) where
  open store use {orders, outbox, transactions}

  -- The view `v` with the rows of this service.
  abbrev pub seen : View F → S → View F
  seen v s = record v { from_order = payloads (outbox.rows s); orders = orders.rows s }

  seen-eq :
      (v : View F) (s : S) (ps : List (Payload F)) (os : List (Order F))
      → payloads (outbox.rows s) ≡ ps
      → orders.rows s ≡ os
      → seen v s ≡ record v { from_order = ps; orders = os }
  seen-eq v s ps os a b = ap₂ (λ x y. record v { from_order = x; orders = y }) a b

  Advanced-seen :
      (v : View F) (n : String) (status : Status) (type : EventType) (p : Payload F) (s s' : S)
      → Advanced store n status type p s s'
      → seen v s' ≡ record v {
        from_order = payloads (outbox.rows s) ++ p ∷ [];
        orders = set_status n status (orders.rows s);
      }
  Advanced-seen v n status type p s s' (i, rows, events) =
      seen-eq v s' (payloads (outbox.rows s) ++ p ∷ []) (set_status n status (orders.rows s))
        (ap payloads events
          ∙ payloads-append (outbox.rows s)
              (record (unsent Outbox.order n type order_events p) { id = i }))
        rows

  find-IsRow :
      (n : String) (o : Order F) (s : S) (v : View F) → IsOrderOf store n o s → IsRow o n (seen v s)
  find-IsRow n o s v found = (
    find?-Any (by_order_no n) (orders.rows s) o found,
    (eq_iff o.order_no n).0 (find?-passes (by_order_no n) (orders.rows s) o found),
  )

  -- A purchase that is refused leaves the database as it was.
  seckill-refused :
      (floats : Floats F) (stamp : Stamp) (n : String) (uid : ℕ) (req : CreateOrderRequest) (s : S)
      (d : D) (e : Error)
      → (seckill store redis floats stamp n uid req s d).0 ≡ err e
      → (seckill store redis floats stamp n uid req s d).1 ≡ s
  unfolding seckill buy
  seckill-refused floats stamp n uid req s d e h =
      elim (Call-cases (claim store redis uid req.product_id s d)) [
        | inr (e1, d1, r) ↦ ground (arith, r)
        | inl (u, d1, r) ↦ elim (Result-cases (product_on_sale store req.product_id s)) [
          | inr (e2, w) ↦ ground (arith, r, w)
          | inl (p, w) ↦ elim (Call-cases (deduct_redis redis req.product_id req.quantity d1)) [
            | inr (e3, d2, x) ↦ ground (arith, r, w, x)
            | inl (u3, d2, x) ↦
                let o = new_order floats n uid req p in
                elim (Result-cases
                  (transactions.transaction (λ t. no_value (place store stamp o t)) s)) [
                    | inr (e4, y) ↦ ground (arith, r, w, x, y)
                    | inl (c, y) ↦ ground (arith, r, w, x, y)
                  ]
          ]
        ]
      ]

  -- A purchase changes nothing in the database, or places an order.
  pub purchase-Change :
      (v : View F) (floats : Floats F) (stamp : Stamp) (n : String) (uid : ℕ)
      (req : CreateOrderRequest) (s : S) (d : D)
      → pos 1 ≤ℤ req.quantity
      → Change (seen v s) (seen v (seckill store redis floats stamp n uid req s d).1)
  purchase-Change v floats stamp n uid req s d counted =
      let r = seckill store redis floats stamp n uid req s d in
      elim (Result-cases r.0) [
        | inr (e, refused) ↦
            Change.idle (ap (seen v) (seckill-refused floats stamp n uid req s d e refused))
        | inl (m, accepted) ↦
            let (p, found, on, same, (i, j, rows, free, events)) =
              seckill-Placed store redis floats stamp n uid req s r.1 d r.2 m
                (ground (arith, accepted)) in
            let o = new_order floats n uid req p in
            Change.place (created_payload stamp o) (record o { id = i }) (refl, refl, refl, refl)
              refl counted
              (seen-eq v r.1 (payloads (outbox.rows s) ++ created (created_payload stamp o) ∷ [])
                (orders.rows s ++ record o { id = i } ∷ [])
                (ap payloads events
                  ∙ payloads-append (outbox.rows s)
                      (record (unsent Outbox.order n order_created order_events
                        (created (created_payload stamp o))) { id = j }))
                rows)
      ]

  -- An event that cancels its order.
  cancelled-Change :
      (v : View F) (stamp : Stamp) (n : String) (pid : Order F → ℕ) (reason : String) (s : S)
      (d : D) (r : S × D)
      → Refusal n v
      → Answered store redis n "FAILED" Status.cancelled order_cancelled
          (λ o. cancelled_payload stamp n o (pid o) reason)
          s
          d
          r
      → Change (seen v s) (seen v r.0)
  cancelled-Change v stamp n pid reason s d r why (inl (same, failed)) =
      Change.idle (ap (λ x. seen v x.0) same)
  cancelled-Change v stamp n pid reason s d r why (inr (o, found, advanced, answered)) =
      Change.cancel n o _ why (find-IsRow n o s v found) (refl, refl, refl)
        (Advanced-seen v n Status.cancelled order_cancelled
          (cancelled_payload stamp n o (pid o) reason) s r.0 advanced)

  -- Each event of the inventory service that the order service consumes is a transition, or none.
  pub inventory_event-Change :
      (v : View F) (stamp : Stamp) (p : Payload F) (s : S) (d : D)
      → IsIn p v.from_inventory
      → Change (seen v s) (seen v (handle_inventory_event store redis stamp (event p) s d).0)
  unfolding handle_inventory_event
  inventory_event-Change v stamp (deducted evt) s d there =
      elim (handle_stock_deducted_atomic store stamp evt s) [
        | inl (same, failed) ↦ Change.idle (ap (seen v) same)
        | inr (o, found, advanced) ↦ Change.request evt _ there refl (
            Advanced-seen v evt.order_no Status.awaiting_payment payment_requested
              (payment_payload stamp evt.order_no o) s (handle_stock_deducted store stamp evt s)
              advanced)
      ]
  inventory_event-Change v stamp (deduct_failed evt) s d there =
      cancelled-Change v stamp evt.order_no (λ o. evt.product_id) "stock_deduction_failed" s d
        (handle_stock_deduct_failed store redis stamp evt s d) (inl (evt, refl, there))
        (handle_stock_deduct_failed_atomic store redis stamp evt s d)
  inventory_event-Change v stamp (created e) s d there = Change.idle refl
  inventory_event-Change v stamp (completed e) s d there = Change.idle refl
  inventory_event-Change v stamp (cancelled e) s d there = Change.idle refl
  inventory_event-Change v stamp (requested e) s d there = Change.idle refl
  inventory_event-Change v stamp (paid e) s d there = Change.idle refl
  inventory_event-Change v stamp (not_paid e) s d there = Change.idle refl

  -- Each event of the payment service that the order service consumes is a transition, or none.
  pub payment_event-Change :
      (v : View F) (stamp : Stamp) (p : Payload F) (s : S) (d : D)
      → IsIn p v.from_payment
      → Change (seen v s) (seen v (handle_payment_event store redis stamp (event p) s d).0)
  unfolding handle_payment_event
  payment_event-Change v stamp (paid evt) s d there =
      elim (handle_payment_success_atomic store redis stamp evt s d) [
        | inl (same, failed) ↦ Change.idle (ap (λ x. seen v x.0) same)
        | inr (o, found, advanced, answered) ↦
            Change.complete evt o _ there (find-IsRow evt.order_no o s v found) (refl, refl, refl)
              (Advanced-seen v evt.order_no Status.paid order_completed
                (completed_payload stamp evt.order_no o) s
                (handle_payment_success store redis stamp evt s d).0 advanced)
      ]
  payment_event-Change v stamp (not_paid evt) s d there =
      cancelled-Change v stamp evt.order_no (λ o. o.product_id) "payment_failed" s d
        (handle_payment_failed store redis stamp evt s d) (inr (evt, refl, there))
        (handle_payment_failed_atomic store redis stamp evt s d)
  payment_event-Change v stamp (created e) s d there = Change.idle refl
  payment_event-Change v stamp (completed e) s d there = Change.idle refl
  payment_event-Change v stamp (cancelled e) s d there = Change.idle refl
  payment_event-Change v stamp (requested e) s d there = Change.idle refl
  payment_event-Change v stamp (deducted e) s d there = Change.idle refl
  payment_event-Change v stamp (deduct_failed e) s d there = Change.idle refl
