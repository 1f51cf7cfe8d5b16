-- ===== src/Payment/Rate.antt =====
-- The success rate of cmd/payment-service/main.go: from the configuration, and from each text that
-- Nacos sends for it later.
use distributed_software_hom.Prelude.{
  String, Bool, false, ◌≡◌, ◌⊎◌, refl, ap, ◌∙◌, List, [], ◌∷◌, ◌++◌, if◌then◌else◌, arith, subst,
  inl, inr,
}
use distributed_software_hom.Result.{Error, Result, ok, err, Result-cases}
use distributed_software_hom.Database.{no_value}
use distributed_software_hom.Event.{PaymentRequestedEvent, requested, event, Stamp}
use distributed_software_hom.Payment.{
  Probabilities, PaymentStore, success_rate_of, success_rate_of_bounds, record_payment,
  handle_order_event,
}
use distributed_software_hom.Payment.Atomic.{Recorded, handle_order_event_atomic}

-- `if successRate == 0 { successRate = 1.0 }`, and NewService; `equal` is the test `==` of `float64`.
unfoldable pub configured_rate : {F : Type 0} → Probabilities F → (F → F → Bool) → F → F
configured_rate prob equal rate =
    success_rate_of prob (if equal rate prob.zero then prob.one else rate)

-- `parse` is strconv.ParseFloat of the trimmed text.
module _ {F : Type 0} (prob : Probabilities F) (parse : String → Result F) where
  -- The function that ListenConfig calls: a text that is no number changes nothing.
  unfoldable pub rate_changed : String → F → F
  rate_changed content rate = elim (parse content) [ err _ ↦ rate | ok r ↦ success_rate_of prob r ]

  -- The stored rate after the texts that Nacos has sent.
  unfoldable pub rate_after : List String → F → F
  rate_after [] rate = rate
  rate_after (content ∷ contents) rate = rate_after contents (rate_changed content rate)

  rate_after-last :
      (contents : List String) (content : String) (rate : F)
      → rate_after (contents ++ content ∷ []) rate ≡ rate_changed content (rate_after contents rate)
  unfolding rate_after
  rate_after-last [] content rate = refl
  rate_after-last (c ∷ contents) content rate =
      rate_after-last contents content (rate_changed c rate)

  -- Neither below 0 nor above 1, as far as `<` tells.
  abbrev pub InRange : F → Type 0
  InRange rate = (prob.less rate prob.zero ≡ false) × (prob.less prob.one rate ≡ false)

  module _ (one_zero : prob.less prob.one prob.zero ≡ false)
      (one_one : prob.less prob.one prob.one ≡ false) where
    rate_changed-InRange :
        (content : String) (rate : F) → InRange rate → InRange (rate_changed content rate)
    unfolding rate_changed
    rate_changed-InRange content rate h = elim (Result-cases (parse content)) [
      | inr (e, p) ↦ rw (p, rate_changed) h
      | inl (r, p) ↦ rw (p, rate_changed) (success_rate_of_bounds prob r one_zero one_one)
    ]

    -- Whatever the configuration and Nacos say, the stored rate is never below 0 nor above 1.
    pub rate_after-InRange :
        (contents : List String) (rate : F) → InRange rate → InRange (rate_after contents rate)
    unfolding rate_after
    rate_after-InRange [] rate h = h
    rate_after-InRange (c ∷ contents) rate h =
        rate_after-InRange contents (rate_changed c rate) (rate_changed-InRange c rate h)

  module _ (nan : F) (below : (x : F) → prob.less x nan ≡ false)
      (above : (x : F) → prob.less nan x ≡ false) where
    success_rate_of-nan : success_rate_of prob nan ≡ nan
    unfolding success_rate_of
    success_rate_of-nan = ground (arith, below prob.one, above prob.zero)

    nan_stored :
        (contents : List String) (content : String) (rate : F)
        → parse content ≡ ok nan
        → rate_after (contents ++ content ∷ []) rate ≡ nan
    unfolding rate_changed
    nan_stored contents content rate h =
        rate_after-last contents content rate ∙ (rw (h, rate_changed) success_rate_of-nan)

    -- A text that parses to a number that is comparable with none (NaN) is stored as it is. From then
    -- on every PAYMENT_REQUESTED either changes nothing, because its transaction failed, or is
    -- declined: it records a failed payment and publishes PAYMENT_FAILED, whatever is drawn.
    pub nan_declines :
        {S : Type 0} (store : PaymentStore F S) (contents : List String) (content : String)
        (rate roll : F) (stamp : Stamp) (payment_id : String) (evt : PaymentRequestedEvent F)
        (s : S)
        → parse content ≡ ok nan
        → let now = rate_after (contents ++ content ∷ []) rate in
          let s' =
            handle_order_event store prob now roll stamp payment_id (event (requested evt)) s in
          ((s' ≡ s)
            × ((e : Error) × (store.transactions.transaction
                    (λ t. no_value (record_payment store stamp payment_id evt false t))
                    s
                  ≡ err e)))
          ⊎ Recorded store stamp payment_id evt false s s'
    nan_declines store contents content rate roll stamp payment_id evt s h =
        let now = rate_after (contents ++ content ∷ []) rate in
        let fails : prob.less roll now ≡ false =
          ap (prob.less roll) (nan_stored contents content rate h) ∙ below roll in
        subst
          (λ b.
            let s' =
              handle_order_event store prob now roll stamp payment_id (event (requested evt)) s in
            ((s' ≡ s)
              × ((e : Error) × (store.transactions.transaction
                      (λ t. no_value (record_payment store stamp payment_id evt b t)) s
                    ≡ err e)))
            ⊎ Recorded store stamp payment_id evt b s s')
          fails (handle_order_event_atomic store prob now roll stamp payment_id evt s)
