-- ===== src/Payment/Atomic.antt =====
-- A payment and the event that reports it are recorded together (internal/payment/service.go).
use distributed_software_hom.Prelude.{
  ℕ, String, Bool, ◌≡◌, ◌⊎◌, inl, inr, refl, [], ◌∷◌, ◌++◌, arith, ◌∙◌, ap,
}
use distributed_software_hom.Result.{Error, ok, err, Result-cases}
use distributed_software_hom.Database.{no_value, no_value-eq-ok}
use distributed_software_hom.Event.{PaymentRequestedEvent, requested, event, Stamp, payment_events}
use distributed_software_hom.Outbox
use distributed_software_hom.Outbox.{unsent, write_event, write_event-rows}
use distributed_software_hom.Payment.{
  Probabilities, PaymentStore, new_payment, result_event, result_type, result_payload,
  record_payment, handle_order_event,
}

module _ {F S : Type 0} (store : PaymentStore F S) where
  open store use {payments, outbox, transactions}

  -- One payment more, and one event more that tells the same outcome.
  abbrev pub Recorded : Stamp → String → PaymentRequestedEvent F → Bool → S → S → Type 0
  Recorded stamp payment_id evt success s s' =
      (i : ℕ) × (j : ℕ) × (payments.rows s'
        ≡ payments.rows s ++ record (new_payment payment_id evt success) { id = i } ∷ [])
      × (outbox.rows s'
          ≡ outbox.rows s
            ++ record (unsent Outbox.payment evt.order_no (result_type success) payment_events
                (result_payload success (result_event stamp payment_id evt))) { id = j }
              ∷ [])

  record_payment-Recorded :
      (stamp : Stamp) (payment_id : String) (evt : PaymentRequestedEvent F) (success : Bool)
      (s s' : S)
      → record_payment store stamp payment_id evt success s ≡ ok s'
      → Recorded stamp payment_id evt success s s'
  unfolding record_payment
  record_payment-Recorded stamp payment_id evt success s s' h =
      let p = new_payment payment_id evt success in
      let type = result_type success in
      let payload = result_payload success (result_event stamp payment_id evt) in
      elim (Result-cases (payments.create p s)) [
        | inr (e, r) ↦ ground arith
        | inl (c, r) ↦
            let w : write_event outbox Outbox.payment evt.order_no type payment_events payload c.1
                ≡ ok s' =
              ground arith in
            let row = unsent Outbox.payment evt.order_no type payment_events payload in
            let (j, made, rows) =
              write_event-rows outbox Outbox.payment evt.order_no type payment_events payload c.1 s'
                w in
            (
              c.0,
              j,
              store.outbox_apart.create_apart row c.1 j s' made
                  ∙ payments.create_rows p s c.0 c.1 r,
              rows
                  ∙ ap (λ l. l ++ record row { id = j } ∷ [])
                      (store.payments_apart.create_apart p s c.0 c.1 r),
            )
      ]

  pub transaction-Recorded :
      (stamp : Stamp) (payment_id : String) (evt : PaymentRequestedEvent F) (success : Bool)
      (s s' : S)
      → transactions.transaction
          (λ t. no_value (record_payment store stamp payment_id evt success t))
          s
        ≡ ok (tt, s')
      → Recorded stamp payment_id evt success s s'
  transaction-Recorded stamp payment_id evt success s s' r =
      let body = record_payment store stamp payment_id evt success in
      record_payment-Recorded stamp payment_id evt success s s'
        (no_value-eq-ok (body s) tt s' (transactions.commits (λ t. no_value (body t)) s tt s' r))

  -- PAYMENT_REQUESTED changes nothing, and then its transaction failed, or records one payment of the amount, as succeeded exactly if
  -- the draw was below the rate, together with the event PAYMENT_SUCCESS or PAYMENT_FAILED to match.
  pub handle_order_event_atomic :
      (prob : Probabilities F) (rate roll : F) (stamp : Stamp) (payment_id : String)
      (evt : PaymentRequestedEvent F) (s : S)
      → let s' =
          handle_order_event store prob rate roll stamp payment_id (event (requested evt)) s in
        ((s' ≡ s)
          × ((e : Error) × (transactions.transaction
                  (λ t.
                    no_value (record_payment store stamp payment_id evt (prob.less roll rate) t))
                  s
                ≡ err e)))
        ⊎ Recorded stamp payment_id evt (prob.less roll rate) s s'
  unfolding handle_order_event
  handle_order_event_atomic prob rate roll stamp payment_id evt s =
      let body = record_payment store stamp payment_id evt (prob.less roll rate) in
      elim (Result-cases (transactions.transaction (λ t. no_value (body t)) s)) [
        | inr (e, r) ↦ inl (rw r refl, (e, r))
        | inl (p, r) ↦
            inr (rw r (transaction-Recorded stamp payment_id evt (prob.less roll rate) s p.1 r))
      ]
