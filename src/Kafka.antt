-- ===== src/Kafka.antt =====
-- pkg/kafka/consumer.go: what a consumer does with the messages of a claim. The client library
-- (sarama) gives the claims, one after the other, and keeps the marks in a session `Q`; `S` is what the
-- handler changes, and `M` a message with what its handler draws (a clock, a random number).
use distributed_software_hom.Prelude.{◌≡◌, List, [], ◌∷◌, ◌++◌, refl}
use distributed_software_hom.Result.{Result}

-- A handler returns an error or nil.
abbrev pub MessageHandler : Type 0 → Type 0 → Type 0
MessageHandler M S = M → S → Result (Unit {0}) × S

-- The marks of a claim, in its order.
abbrev pub mark_all : {M Q : Type 0} → (M → Q → Q) → List M → Q → Q
mark_all mark [] q = q
mark_all mark (m ∷ ms) q = mark_all mark ms (mark m q)

module _ {M S Q : Type 0} (mark : M → Q → Q) where
  -- An error of the handler is logged only, and MarkMessage follows in either case.
  unfoldable pub consume_claim : MessageHandler M S → List M → S × Q → S × Q
  consume_claim handler [] w = w
  consume_claim handler (m ∷ ms) (s, q) =
      let (answer, s') = handler m s in consume_claim handler ms (s', mark m q)

  -- The loop of Start, over the claims that Consume gives until the context is done.
  unfoldable pub start : MessageHandler M S → List (List M) → S × Q → S × Q
  unfolding consume_claim
  start handler [] w = w
  start handler (claim ∷ claims) w = start handler claims (consume_claim handler claim w)

  -- Whatever the handler answers, each message is marked once, in the order of the claim.
  pub consume_claim-marks :
      (handler : MessageHandler M S) (ms : List M) (s : S) (q : Q)
      → (consume_claim handler ms (s, q)).1 ≡ mark_all mark ms q
  unfolding consume_claim
  consume_claim-marks handler [] s q = refl
  consume_claim-marks handler (m ∷ ms) s q =
      consume_claim-marks handler ms (handler m s).1 (mark m q)

  consume_claim-append :
      (handler : MessageHandler M S) (front back : List M) (w : S × Q)
      → consume_claim handler (front ++ back) w
        ≡ consume_claim handler back (consume_claim handler front w)
  unfolding consume_claim
  consume_claim-append handler [] back w = refl
  consume_claim-append handler (m ∷ front) back (s, q) =
      consume_claim-append handler front back ((handler m s).1, mark m q)

  -- The marks have no influence on what the handler does.
  consume_claim-state :
      (handler : MessageHandler M S) (ms : List M) (s : S) (q q' : Q)
      → (consume_claim handler ms (s, q)).0 ≡ (consume_claim handler ms (s, q')).0
  unfolding consume_claim
  consume_claim-state handler [] s q q' = refl
  consume_claim-state handler (m ∷ ms) s q q' =
      consume_claim-state handler ms (handler m s).1 (mark m q) (mark m q')

  -- A message whose handler changes nothing, whatever it answers, is lost: the claim ends as if it
  -- had not been sent, and yet it is marked like the others, so that Kafka does not deliver it again.
  pub consume_claim_lost :
      (handler : MessageHandler M S) (front back : List M) (m : M) (s s1 : S) (q q1 : Q)
      (r : Result (Unit {0}))
      → consume_claim handler front (s, q) ≡ (s1, q1)
      → handler m s1 ≡ (r, s1)
      → let w = consume_claim handler (front ++ m ∷ back) (s, q) in
        (w.0 ≡ (consume_claim handler (front ++ back) (s, q)).0)
        × (w.1 ≡ mark_all mark (front ++ m ∷ back) q)
  unfolding consume_claim
  consume_claim_lost handler front back m s s1 q q1 r reached failed = (
    rw
        (
          consume_claim-append handler front (m ∷ back) (s, q),
          consume_claim-append handler front back (s, q),
          reached,
        )
        (rw (failed, consume_claim) (consume_claim-state handler back s1 (mark m q1) q1)),
    consume_claim-marks handler (front ++ m ∷ back) s q,
  )
