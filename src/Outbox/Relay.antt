-- ===== src/Outbox/Relay.antt =====
-- pkg/outbox/relay.go: one round of the relay, which publishes the events that are not sent yet and
-- marks them. The query and the producer are interfaces; the ticker and the log lines are left out.
pub mod Marked
pub mod Drained
use distributed_software_hom.Prelude.{
  String, Bool, true, false, ◌≡◌, List, [], ◌∷◌, arith, ◌==◌, All, find?, some, inl, inr,
  Bool-cases, subst, sym,
}
use distributed_software_hom.Result.{Result, ok, err, Result-cases, Call-cases}
use distributed_software_hom.Database.{Table}
use distributed_software_hom.Database.Rows.{IsUnclashed, All-map_where, All-imp}
use distributed_software_hom.Event.{Topic, Payload}
use distributed_software_hom.Outbox.{OutboxEvent, outbox_schema}

-- SendMessageToTopic, over the state `P` of the broker. An error may leave the message delivered.
-- What was delivered stays so, and a call that succeeds has delivered its message.
pub record TopicProducer (F P : Type 0) : Type 0 where
  pub delivered : Topic → String → Payload F → P → Bool
  pub send : Topic → String → Payload F → P → Result (Unit {0}) × P
  pub send_ok :
      (t : Topic) (k : String) (v : Payload F) (p p' : P)
      → send t k v p ≡ (ok tt, p')
      → delivered t k v p' ≡ true
  pub send_keeps :
      (t : Topic) (k : String) (v : Payload F) (t' : Topic) (k' : String) (v' : Payload F) (p : P)
      → delivered t' k' v' p ≡ true
      → delivered t' k' v' (send t k v p).1 ≡ true

module _ {F S : Type 0} (outbox : Table S (OutboxEvent F) outbox_schema) where
  -- `Updates` of sent and sent_at, whose error is logged and dropped
  unfoldable pub mark_sent : OutboxEvent F → S → S
  mark_sent e s = elim (outbox.update (λ r. r.id == e.id) (λ r. record r { sent = true }) s) [
    | ok (_, s') ↦ s'
    | err _ ↦ s
  ]

module _ {F S P : Type 0} (outbox : Table S (OutboxEvent F) outbox_schema)
    (producer : TopicProducer F P) where
  pub publish : OutboxEvent F → S × P → S × P
  publish e (s, p) =
      let (r, p') = producer.send e.topic e.aggregate_id e.payload p in
      elim r [ ok _ ↦ (mark_sent outbox e s, p') | err _ ↦ (s, p') ]

  pub publish_all : List (OutboxEvent F) → S × P → S × P
  publish_all [] w = w
  publish_all (e ∷ es) w = publish_all es (publish e w)

  -- `found` is what the query for the first hundred unsent events gives.
  pub publish_batch : (S → Result (List (OutboxEvent F))) → S × P → S × P
  publish_batch found w = elim (found w.0) [ err _ ↦ w | ok es ↦ publish_all es w ]

  abbrev pub IsDelivered : P → OutboxEvent F → Type 0
  IsDelivered p e = producer.delivered e.topic e.aggregate_id e.payload p ≡ true

  -- Each event that is marked as sent was delivered.
  abbrev pub IsBacked : S × P → Type 0
  IsBacked w = All (λ r. r.sent ≡ true → IsDelivered w.1 r) (outbox.rows w.0)

  -- The rows with the key of `e` carry its message.
  abbrev pub Carries : OutboxEvent F → S → Type 0
  Carries e s =
      All (λ r. (r.id == e.id) ≡ true → (p : P) → IsDelivered p e → IsDelivered p r) (outbox.rows s)

  All-zip :
      (A B C : OutboxEvent F → Type 0) (rs : List (OutboxEvent F))
      → ((r : OutboxEvent F) → A r → B r → C r)
      → All A rs
      → All B rs
      → All C rs
  All-zip A B C [] f g h = tt
  All-zip A B C (r ∷ rs) f g h = (f r g.0 h.0, All-zip A B C rs f g.1 h.1)

  -- What holds of the rows, and of a row once it is marked, holds after marking.
  mark_sent-All :
      (A : OutboxEvent F → Type 0) (e : OutboxEvent F) (s : S)
      → ((r : OutboxEvent F) → A r → (r.id == e.id) ≡ true → A (record r { sent = true }))
      → All A (outbox.rows s)
      → All A (outbox.rows (mark_sent outbox e s))
  unfolding mark_sent
  mark_sent-All A e s keep h =
      let q : OutboxEvent F → Bool = λ r. r.id == e.id in
      let f : OutboxEvent F → OutboxEvent F = λ r. record r { sent = true } in
      elim (Result-cases (outbox.update q f s)) [
        | inr (x, failed) ↦ rw (failed, mark_sent) h
        | inl ((n, s'), done) ↦
            rw (done, mark_sent)
              (subst (All A) (sym (outbox.update_rows q f s n s' done))
                (All-map_where A q f keep (outbox.rows s) h))
      ]

  publish-Carries : (e d : OutboxEvent F) (w : S × P) → Carries d w.0 → Carries d (publish e w).0
  unfolding publish
  publish-Carries e d (s, p) h =
      elim (Call-cases (producer.send e.topic e.aggregate_id e.payload p)) [
        | inr (x, p', failed) ↦ rw (failed, publish) h
        | inl (u, p', sent) ↦
            rw (sent, publish)
              (mark_sent-All
                (λ r. (r.id == d.id) ≡ true → (p : P) → IsDelivered p d → IsDelivered p r) e s
                (λ r c _. c) h)
      ]

  marked-IsBacked :
      (e : OutboxEvent F) (s : S) (p : P)
      → IsDelivered p e
      → Carries e s
      → IsBacked (s, p)
      → IsBacked (mark_sent outbox e s, p)
  marked-IsBacked e s p new c h =
      let A : OutboxEvent F → Type 0 = λ r.
        ((r.id == e.id) ≡ true → (p : P) → IsDelivered p e → IsDelivered p r)
        × (r.sent ≡ true → IsDelivered p r) in
      let both : All A (outbox.rows s) =
        All-zip (λ r. (r.id == e.id) ≡ true → (p : P) → IsDelivered p e → IsDelivered p r)
          (λ r. r.sent ≡ true → IsDelivered p r) A (outbox.rows s) (λ r x y. (x, y)) c h in
      let after : All A (outbox.rows (mark_sent outbox e s)) =
        mark_sent-All A e s (λ r g mine. (g.0, λ _. g.0 mine p new)) both in
      All-zip A A (λ r. r.sent ≡ true → IsDelivered p r) (outbox.rows (mark_sent outbox e s))
        (λ r x _. x.1) after after

  publish-IsBacked :
      (e : OutboxEvent F) (w : S × P) → Carries e w.0 → IsBacked w → IsBacked (publish e w)
  unfolding publish
  publish-IsBacked e (s, p) c h =
      let keeps : IsBacked (s, (producer.send e.topic e.aggregate_id e.payload p).1) =
        All-zip (λ r. r.sent ≡ true → IsDelivered p r) (λ r. r.sent ≡ true → IsDelivered p r) _
          (outbox.rows s)
          (λ r g _ m.
            producer.send_keeps e.topic e.aggregate_id e.payload r.topic r.aggregate_id r.payload p
              (g m))
          h h in
      elim (Call-cases (producer.send e.topic e.aggregate_id e.payload p)) [
        | inr (x, p', failed) ↦ rw (failed, publish) keeps
        | inl (u, p', sent) ↦
            let q : P = (producer.send e.topic e.aggregate_id e.payload p).1 in
            let new : IsDelivered q e =
              producer.send_ok e.topic e.aggregate_id e.payload p q (ground (arith, sent)) in
            rw (sent, publish) (marked-IsBacked e s q new c keeps)
      ]

  publish_all-IsBacked :
      (es : List (OutboxEvent F)) (w : S × P)
      → All (λ e. Carries e w.0) es
      → IsBacked w
      → IsBacked (publish_all es w)
  unfolding publish_all
  publish_all-IsBacked [] w c h = h
  publish_all-IsBacked (e ∷ es) w c h =
      publish_all-IsBacked es (publish e w)
        (All-imp (λ d. Carries d w.0) (λ d. Carries d (publish e w).0)
          (λ d k. publish-Carries e d w k) es c.1)
        (publish-IsBacked e w c.0 h)

  row-Carries :
      (rs : List (OutboxEvent F)) (e : OutboxEvent F)
      → IsUnclashed outbox_schema.clash rs
      → find? (λ r. r.id == e.id) rs ≡ some e
      → All (λ r. (r.id == e.id) ≡ true → (p : P) → IsDelivered p e → IsDelivered p r) rs
  row-Carries [] e u h = tt
  row-Carries (r ∷ rs) e u h = elim (Bool-cases (r.id == e.id)) [
    | inl mine ↦
        let same : r ≡ e = ground arith in
        (
          λ _ p. subst (IsDelivered p) (sym same),
          All-imp (λ q. outbox_schema.clash r q ≡ false) _ (λ q free k. absurd (ground arith)) rs
              u.0,
        )
    | inr other ↦ (λ k. absurd (ground arith), row-Carries rs e u.1 (ground arith))
  ]

  -- A round of the relay keeps this: each event that is marked as sent was delivered. The table
  -- respects its unique key, and the query gives rows of the table.
  pub publish_batch-IsBacked :
      (found : S → Result (List (OutboxEvent F))) (s : S) (p : P)
      → ((es : List (OutboxEvent F))
          → found s ≡ ok es
          → All (λ e. find? (λ r. r.id == e.id) (outbox.rows s) ≡ some e) es)
      → IsUnclashed outbox_schema.clash (outbox.rows s)
      → IsBacked (s, p)
      → IsBacked (publish_batch found (s, p))
  unfolding publish_batch
  publish_batch-IsBacked found s p stored unique h = elim (Result-cases (found s)) [
    | inr (e, failed) ↦ rw (failed, publish_batch) h
    | inl (es, got) ↦
        rw (got, publish_batch)
          (publish_all-IsBacked es (s, p)
            (All-imp (λ e. find? (λ r. r.id == e.id) (outbox.rows s) ≡ some e) (λ e. Carries e s)
              (λ e at. row-Carries (outbox.rows s) e unique at) es (stored es got))
            h)
  ]
