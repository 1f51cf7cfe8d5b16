-- ===== src/Order/Events/Advance.antt =====
-- Each handler of internal/order/event_handler.go moves the status of one order and publishes the
-- next event of the saga in one transaction.
use distributed_software_hom.Prelude.{
  ℕ, zero, suc, String, ◌≡◌, ◌⊎◌, inl, inr, refl, some, [], ◌∷◌, ◌++◌, arith, ◌∙◌, ap, find?,
}
use distributed_software_hom.Result.{Error, Result, ok, err, ◌>>=◌, Result-cases}
use distributed_software_hom.Database.{no_value, no_value-eq-ok}
use distributed_software_hom.Database.Rows.{map_where}
use distributed_software_hom.Event.{
  EventType, Payload, StockDeductedEvent, StockDeductFailedEvent, PaymentResultEvent, Stamp,
  payment_requested, order_completed, order_cancelled, order_events,
}
use distributed_software_hom.Redis.{Redis, text, result_key}
use distributed_software_hom.Outbox
use distributed_software_hom.Outbox.{unsent, write_event, write_event-rows}
use distributed_software_hom.Order.{
  Order, Status, by_order_no, with_status, some_affected, get_order_by_order_no,
  update_status_by_order_no_tx,
}
use distributed_software_hom.Order.Store.{OrderStore}
use distributed_software_hom.Order.Events.{
  advance, run_advance, payment_payload, cancelled_payload, completed_payload, with_result,
  handle_stock_deducted, handle_stock_deduct_failed, handle_payment_success, handle_payment_failed,
}

module _ {F S : Type 0} (store : OrderStore F S) where
  open store use {orders, outbox, transactions}

  -- The orders with this number have the new status, and the outbox has one event more.
  abbrev pub Advanced : String → Status → EventType → Payload F → S → S → Type 0
  Advanced order_no status event_type payload s s' =
      (i : ℕ) × (orders.rows s'
        ≡ map_where (by_order_no order_no) (with_status status) (orders.rows s))
      × (outbox.rows s'
          ≡ outbox.rows s
            ++ record (unsent Outbox.order order_no event_type order_events payload) { id = i }
              ∷ [])

  some_affected-ok :
      (r : Result (ℕ × S)) (t : S)
      → (r >>= some_affected orders) ≡ ok t
      → (n : ℕ) × (r ≡ ok (suc n, t))
  some_affected-ok (err e) t h = ground arith
  some_affected-ok (ok (zero, s)) t h = ground arith
  some_affected-ok (ok (suc n, s)) t h = (n, ground arith)

  advance-Advanced :
      (order_no : String) (status : Status) (event_type : EventType) (payload : Payload F)
      (s s' : S)
      → advance store order_no status event_type payload s ≡ ok s'
      → Advanced order_no status event_type payload s s'
  unfolding advance update_status_by_order_no_tx
  advance-Advanced order_no status event_type payload s s' h =
      let p = by_order_no order_no in
      let f = with_status status in
      elim (Result-cases (orders.update p f s >>= some_affected orders)) [
        | inr (e, r) ↦ ground arith
        | inl (t, r) ↦
            let (n, u) = some_affected-ok (orders.update p f s) t r in
            let w : write_event outbox Outbox.order order_no event_type order_events payload t
                ≡ ok s' =
              ground arith in
            let (i, made, rows) =
              write_event-rows outbox Outbox.order order_no event_type order_events payload t s'
                w in
            let row = unsent Outbox.order order_no event_type order_events payload in
            (
              i,
              store.outbox_apart.create_apart row t i s' made
                  ∙ orders.update_rows p f s (suc n) t u,
              rows
                  ∙ ap (λ l. l ++ record row { id = i } ∷ [])
                      (store.orders_apart.update_apart p f s (suc n) t u),
            )
      ]

  pub run_advance-Advanced :
      (order_no : String) (status : Status) (event_type : EventType) (payload : Payload F)
      (s s' : S) (u : Unit {0})
      → run_advance store order_no status event_type payload s ≡ ok (u, s')
      → Advanced order_no status event_type payload s s'
  unfolding run_advance
  run_advance-Advanced order_no status event_type payload s s' u h =
      advance-Advanced order_no status event_type payload s s' (
        no_value-eq-ok (advance store order_no status event_type payload s) u s' (
          transactions.commits (λ t. no_value (advance store order_no status event_type payload t))
            s u s' h))

  -- The order that a handler has read.
  abbrev pub IsOrderOf : String → Order F → S → Type 0
  IsOrderOf order_no o s = find? (by_order_no order_no) (orders.rows s) ≡ some o

  -- A handler has done nothing: the order could not be read, or the transaction failed.
  abbrev pub Failed : String → Status → EventType → (Order F → Payload F) → S → Type 0
  Failed order_no status event_type payload s =
      (e : Error) × ((get_order_by_order_no orders order_no s ≡ err e)
        ⊎ ((o : Order F) × (get_order_by_order_no orders order_no s ≡ ok o)
            × (run_advance store order_no status event_type (payload o) s ≡ err e)))

  -- STOCK_DEDUCTED changes nothing, and then the order could not be read or the transaction failed,
  -- or moves the order to AWAITING_PAYMENT and asks for the payment
  -- of its price in the same transaction.
  pub handle_stock_deducted_atomic :
      (stamp : Stamp) (evt : StockDeductedEvent) (s : S)
      → let s' = handle_stock_deducted store stamp evt s in
        ((s' ≡ s)
          × Failed evt.order_no Status.awaiting_payment payment_requested
              (payment_payload stamp evt.order_no)
              s)
        ⊎ ((o : Order F) × IsOrderOf evt.order_no o s
            × Advanced evt.order_no Status.awaiting_payment payment_requested
                (payment_payload stamp evt.order_no o)
                s
                s')
  unfolding handle_stock_deducted get_order_by_order_no
  handle_stock_deducted_atomic stamp evt s =
      elim (Result-cases (get_order_by_order_no orders evt.order_no s)) [
        | inr (e, r) ↦ inl (rw (r, handle_stock_deducted) refl, (e, inl r))
        | inl (o, r) ↦
            let found = orders.first_ok (by_order_no evt.order_no) s o r in
            let payload = payment_payload stamp evt.order_no o in
            elim (Result-cases (
              run_advance store evt.order_no Status.awaiting_payment payment_requested payload s)) [
                | inr (e, w) ↦ inl (rw (r, handle_stock_deducted) (rw w refl), (e, inr (o, r, w)))
                | inl (p, w) ↦ inr (
                  o,
                  found,
                  rw (r, handle_stock_deducted)
                      (rw w (
                        run_advance-Advanced evt.order_no Status.awaiting_payment payment_requested
                          payload s p.1 p.0 w)),
                )
              ]
      ]

  module _ {D : Type 0} (redis : Redis D) where
    -- Nothing has changed, or the order has advanced and then the result was set.
    abbrev pub Answered :
        String → String → Status → EventType → (Order F → Payload F) → S → D → S × D → Type 0
    Answered order_no answer status event_type payload s d r =
        ((r ≡ (s, d)) × Failed order_no status event_type payload s)
        ⊎ ((o : Order F) × IsOrderOf order_no o s
            × Advanced order_no status event_type (payload o) s r.0
            × (r.1 ≡ (redis.set (result_key order_no) (text answer) d).1))

    -- What the three handlers that set a result have in common.
    abbrev answer_with :
        String → String → Status → EventType → (Order F → Payload F) → S → D → S × D
    answer_with order_no answer status event_type payload s d =
        elim (get_order_by_order_no orders order_no s) [
          | err e ↦ (s, d)
          | ok o ↦
              with_result store redis order_no answer s d
                (run_advance store order_no status event_type (payload o) s)
        ]

    answer_with-Answered :
        (order_no answer : String) (status : Status) (event_type : EventType)
        (payload : Order F → Payload F) (s : S) (d : D)
        → Answered order_no answer status event_type payload s d
            (answer_with order_no answer status event_type payload s d)
    unfolding get_order_by_order_no
    answer_with-Answered order_no answer status event_type payload s d =
        elim (Result-cases (get_order_by_order_no orders order_no s)) [
          | inr (e, r) ↦ inl (rw (r, answer_with) refl, (e, inl r))
          | inl (o, r) ↦
              elim (Result-cases (run_advance store order_no status event_type (payload o) s)) [
                | inr (e, w) ↦ inl (rw (r, answer_with) (rw w refl), (e, inr (o, r, w)))
                | inl (p, w) ↦
                    let adv =
                      run_advance-Advanced order_no status event_type (payload o) s p.1 p.0 w in
                    inr (
                      o,
                      orders.first_ok (by_order_no order_no) s o r,
                      rw (r, answer_with) (rw w adv),
                      rw (r, answer_with) (rw w refl),
                    )
              ]
        ]

    -- STOCK_DEDUCT_FAILED changes nothing, and then the order could not be read or the
    -- transaction failed, or cancels the order, publishes ORDER_CANCELLED with the
    -- order's own quantity, and sets the result FAILED.
    pub handle_stock_deduct_failed_atomic :
        (stamp : Stamp) (evt : StockDeductFailedEvent) (s : S) (d : D)
        → Answered evt.order_no "FAILED" Status.cancelled order_cancelled
            (λ o. cancelled_payload stamp evt.order_no o evt.product_id "stock_deduction_failed")
            s
            d
            (handle_stock_deduct_failed store redis stamp evt s d)
    unfolding handle_stock_deduct_failed
    handle_stock_deduct_failed_atomic stamp evt s d =
        answer_with-Answered evt.order_no "FAILED" Status.cancelled order_cancelled
          (λ o. cancelled_payload stamp evt.order_no o evt.product_id "stock_deduction_failed") s d

    -- PAYMENT_SUCCESS changes nothing, and then the order could not be read or the
    -- transaction failed, or marks the order paid, publishes ORDER_COMPLETED with the
    -- order's own product and quantity, and sets the result SUCCESS.
    pub handle_payment_success_atomic :
        (stamp : Stamp) (evt : PaymentResultEvent F) (s : S) (d : D)
        → Answered evt.order_no "SUCCESS" Status.paid order_completed
            (completed_payload stamp evt.order_no)
            s
            d
            (handle_payment_success store redis stamp evt s d)
    unfolding handle_payment_success
    handle_payment_success_atomic stamp evt s d =
        answer_with-Answered evt.order_no "SUCCESS" Status.paid order_completed
          (completed_payload stamp evt.order_no) s d

    -- PAYMENT_FAILED changes nothing, and then the order could not be read or the
    -- transaction failed, or cancels the order, publishes ORDER_CANCELLED with the
    -- order's own product and quantity, and sets the result FAILED.
    pub handle_payment_failed_atomic :
        (stamp : Stamp) (evt : PaymentResultEvent F) (s : S) (d : D)
        → Answered evt.order_no "FAILED" Status.cancelled order_cancelled
            (λ o. cancelled_payload stamp evt.order_no o o.product_id "payment_failed")
            s
            d
            (handle_payment_failed store redis stamp evt s d)
    unfolding handle_payment_failed
    handle_payment_failed_atomic stamp evt s d =
        answer_with-Answered evt.order_no "FAILED" Status.cancelled order_cancelled
          (λ o. cancelled_payload stamp evt.order_no o o.product_id "payment_failed") s d
