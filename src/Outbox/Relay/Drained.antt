-- ===== src/Outbox/Relay/Drained.antt =====
-- The loop of pkg/outbox/relay.go: with the database and the broker reachable it delivers all.
use distributed_software_hom.Prelude.{
  ℕ, String, zero, suc, ◌+◌, ◌-◌, ◌*◌, ◌≤◌, ◌≡◌, refl, sym, ap, ◌∙◌, subst, true, List, [], ◌∷◌,
  map, arith, All, All-weaken, count, length, leb, if◌then◌else◌, find?, some, ◌==◌,
}
use distributed_software_hom.Result.{Error, Result, ok, err}
use distributed_software_hom.Database.{Table, IsUp}
use distributed_software_hom.Database.Rows.{map_where, IsUnclashed}
use distributed_software_hom.Event.{Topic, Payload}
use distributed_software_hom.Outbox.{OutboxEvent, outbox_schema}
use distributed_software_hom.Outbox.Relay.{
  TopicProducer, mark_sent, publish, publish_all, publish_batch, IsDelivered, IsBacked,
  publish_batch-IsBacked,
}
use distributed_software_hom.Outbox.Relay.Marked.{
  is_unsent, marked, has_id, IsWaiting, count-marked, IsWaiting-marked_all, IsUnclashed-marked,
  map-marked, all_sent,
}

-- Limit(100)
abbrev pub at_most_100 : ℕ → ℕ
at_most_100 n = if leb n 100 then n else 100

All-both :
    {A : Type 0} (P Q : A → Type 0) (xs : List A) → All (λ x. P x → Q x) xs → All P xs → All Q xs
All-both P Q [] f h = tt
All-both P Q (x ∷ xs) f h = (f.0 h.0, All-both P Q xs f.1 h.1)

module _ {F S : Type 0} (outbox : Table S (OutboxEvent F) outbox_schema) where
  -- Where("sent = ?", false).Limit(100).Find(&events) with the database reachable: waiting rows, each
  -- once, and a hundred of them if there are as many.
  abbrev pub Finds : (S → Result (List (OutboxEvent F))) → Type 0
  Finds found =
      (s : S)
      → IsUnclashed outbox_schema.clash (outbox.rows s)
      → (es : List (OutboxEvent F)) × (found s ≡ ok es)
        × All (IsWaiting (outbox.rows s)) es
        × IsUnclashed outbox_schema.clash es
        × (length es ≡ at_most_100 (count is_unsent (outbox.rows s)))

module _ {F P : Type 0} (producer : TopicProducer F P) where
  -- The broker, in the state `p`, refuses the event and stays as it is.
  abbrev pub IsRefused : P → OutboxEvent F → Type 0
  IsRefused p e = (x : Error) × (producer.send e.topic e.aggregate_id e.payload p ≡ (err x, p))

module _ {F S P : Type 0} (outbox : Table S (OutboxEvent F) outbox_schema)
    (producer : TopicProducer F P) where
  -- The broker takes every message.
  abbrev pub IsAccepting : Type 0
  IsAccepting =
      (t : Topic) (k : String) (v : Payload F) (p : P)
      → (p' : P) × (producer.send t k v p ≡ (ok tt, p'))

  -- Start, for `n` ticks of its ticker.
  unfoldable pub start : (S → Result (List (OutboxEvent F))) → ℕ → S × P → S × P
  start found zero w = w
  start found (suc n) w = start found n (publish_batch outbox producer found w)

  -- `k` rows fewer wait, and the marks are the only change.
  record Progress (k : ℕ) (s s' : S) : Type 0 where
    pub fewer : count is_unsent (outbox.rows s') + k ≡ count is_unsent (outbox.rows s)
    pub unique : IsUnclashed outbox_schema.clash (outbox.rows s')
    pub same : map marked (outbox.rows s') ≡ map marked (outbox.rows s)

  module _ (up : (s : S) → IsUp outbox s) (takes : IsAccepting) where
    mark_sent-up :
        (e : OutboxEvent F) (s : S)
        → outbox.rows (mark_sent outbox e s) ≡ map_where (has_id e.id) marked (outbox.rows s)
    unfolding mark_sent
    mark_sent-up e s =
        let (n, s', done) = (up s).update_done (has_id e.id) marked (λ a b. (refl, refl)) in
        rw (done, mark_sent) (outbox.update_rows (has_id e.id) marked s n s' done)

    publish-up :
        (e : OutboxEvent F) (s : S) (p : P)
        → (p' : P) × (publish outbox producer e (s, p) ≡ (mark_sent outbox e s, p'))
    unfolding publish
    publish-up e s p =
        let (p', sent) = takes e.topic e.aggregate_id e.payload p in
        (
          (producer.send e.topic e.aggregate_id e.payload p).1,
          rw (ap (λ c. c.0) sent, publish) refl,
        )

    -- The mark of one waiting row, then more.
    marked-Progress :
        (k : ℕ) (e : OutboxEvent F) (s s' : S)
        → IsUnclashed outbox_schema.clash (outbox.rows s)
        → IsWaiting (outbox.rows s) e
        → Progress k (mark_sent outbox e s) s'
        → Progress (suc k) s s'
    marked-Progress k e s s' u w more =
        let rows = mark_sent-up e s in
        let one = count-marked e (outbox.rows s) u w in
        let now = ap (count is_unsent) rows in
        record {
          fewer = omega (arith, more.fewer, one, now);
          unique = more.unique;
          same = more.same ∙ (ap (map marked) rows ∙ map-marked (has_id e.id) (outbox.rows s));
        }

    publish_all-Progress :
        (es : List (OutboxEvent F)) (s : S) (p : P)
        → IsUnclashed outbox_schema.clash (outbox.rows s)
        → All (IsWaiting (outbox.rows s)) es
        → IsUnclashed outbox_schema.clash es
        → Progress (length es) s (publish_all outbox producer es (s, p)).0
    unfolding publish_all
    publish_all-Progress [] s p u w d = record { fewer = omega arith; unique = u; same = refl }
    publish_all-Progress (e ∷ es) s p u w d =
        let (p', one) = publish-up e s p in
        let rows = mark_sent-up e s in
        let t = mark_sent outbox e s in
        marked-Progress (length es) e s (publish_all outbox producer (e ∷ es) (s, p)).0 u w.0 (
          subst (λ x. Progress (length es) t (publish_all outbox producer es x).0) (sym one)
            (publish_all-Progress es t p'
              (subst (IsUnclashed outbox_schema.clash) (sym rows)
                (IsUnclashed-marked (has_id e.id) (outbox.rows s) u))
              (subst (λ rs. All (IsWaiting rs) es) (sym rows)
                (IsWaiting-marked_all e es (outbox.rows s) d.0 w.1))
              d.1))

    publish_batch-Progress :
        (found : S → Result (List (OutboxEvent F))) (s : S) (p : P)
        → Finds outbox found
        → IsUnclashed outbox_schema.clash (outbox.rows s)
        → Progress
            (at_most_100 (count is_unsent (outbox.rows s)))
            s
            (publish_batch outbox producer found (s, p)).0
    unfolding publish_batch
    publish_batch-Progress found s p finds u =
        let (es, got, waiting, distinct, many) = finds s u in
        rw (got, publish_batch)
          (subst (λ k. Progress k s (publish_all outbox producer es (s, p)).0) many
            (publish_all-Progress es s p u waiting distinct))

    start-Progress :
        (found : S → Result (List (OutboxEvent F))) (n : ℕ) (s : S) (p : P)
        → Finds outbox found
        → IsUnclashed outbox_schema.clash (outbox.rows s)
        → let s' = (start found n (s, p)).0 in
          (count is_unsent (outbox.rows s') ≡ count is_unsent (outbox.rows s) - n * 100)
          × (map marked (outbox.rows s') ≡ map marked (outbox.rows s))
    unfolding start
    start-Progress found zero s p finds u = (omega arith, refl)
    start-Progress found (suc n) s p finds u =
        let (s1, p1) = publish_batch outbox producer found (s, p) in
        let one = publish_batch-Progress found s p finds u in
        let (fewer, same) = start-Progress found n s1 p1 finds one.unique in
        (ground (arith, fewer, one.fewer), same ∙ one.same)

  found-stored :
      (found : S → Result (List (OutboxEvent F))) (s : S)
      → Finds outbox found
      → IsUnclashed outbox_schema.clash (outbox.rows s)
      → (es : List (OutboxEvent F)) → found s ≡ ok es
      → All (λ e. find? (λ r. r.id == e.id) (outbox.rows s) ≡ some e) es
  found-stored found s finds u es h =
      let (es', got, waiting, distinct, many) = finds s u in
      let same : es' ≡ es = ground (arith, got, h) in
      subst (λ l. All (λ e. find? (λ r. r.id == e.id) (outbox.rows s) ≡ some e) l) same
        (All-weaken (IsWaiting (outbox.rows s))
          (λ e. find? (λ r. r.id == e.id) (outbox.rows s) ≡ some e) (λ e w. w.0) es' waiting)

  start-IsBacked :
      (up : (s : S) → IsUp outbox s) (takes : IsAccepting)
      (found : S → Result (List (OutboxEvent F))) (n : ℕ) (s : S) (p : P)
      → Finds outbox found
      → IsUnclashed outbox_schema.clash (outbox.rows s)
      → IsBacked outbox producer (s, p)
      → IsBacked outbox producer (start found n (s, p))
  unfolding start
  start-IsBacked up takes found zero s p finds u h = h
  start-IsBacked up takes found (suc n) s p finds u h =
      let (s1, p1) = publish_batch outbox producer found (s, p) in
      start-IsBacked up takes found n s1 p1 finds
        (publish_batch-Progress up takes found s p finds u).unique
        (publish_batch-IsBacked outbox producer found s p (found-stored found s finds u) u h)

  -- With the database reachable, a query as documented, a broker that takes every message and no
  -- other writer, on a table that respects its unique keys and in which each event that is marked as
  -- sent was delivered, the relay is done after enough ticks, a hundred events for each: the rows are
  -- those of before, all marked as sent, and each event that was not marked before has been
  -- delivered now too, so that all of them are.
  pub start_delivers :
      ((s : S) → IsUp outbox s)
      → IsAccepting
      → (found : S → Result (List (OutboxEvent F))) (n : ℕ) (s : S) (p : P) → Finds outbox found
      → IsUnclashed outbox_schema.clash (outbox.rows s)
      → IsBacked outbox producer (s, p)
      → count is_unsent (outbox.rows s) ≤ n * 100
      → let (s', p') = start found n (s, p) in
        (outbox.rows s' ≡ map marked (outbox.rows s))
        × All (IsDelivered outbox producer p') (outbox.rows s')
  start_delivers up takes found n s p finds u h enough =
      let (s', p') = start found n (s, p) in
      let (fewer, same) = start-Progress up takes found n s p finds u in
      let (every, done) = all_sent (outbox.rows s') (omega (arith, fewer)) in
      (
        sym done ∙ same,
        All-both (λ r. r.sent ≡ true) (IsDelivered outbox producer p') (outbox.rows s')
            (start-IsBacked up takes found n s p finds u h) every,
      )

  publish-refused :
      (e : OutboxEvent F) (s : S) (p : P)
      → IsRefused producer p e
      → publish outbox producer e (s, p) ≡ (s, p)
  unfolding publish
  publish-refused e s p (x, refused) =
      rw (ap (λ c. c.0) refused, publish) (ap (λ c. (s, c.1)) refused)

  publish_all-refused :
      (es : List (OutboxEvent F)) (s : S) (p : P)
      → All (IsRefused producer p) es
      → publish_all outbox producer es (s, p) ≡ (s, p)
  unfolding publish_all
  publish_all-refused [] s p h = refl
  publish_all-refused (e ∷ es) s p h =
      ap (publish_all outbox producer es) (publish-refused e s p h.0)
      ∙ publish_all-refused es s p h.1

  -- As long as the broker refuses each of the events that the query gives, which are a hundred at
  -- most, no tick changes anything: the events behind them are not published either.
  pub start_starves :
      (found : S → Result (List (OutboxEvent F))) (n : ℕ) (s : S) (p : P)
      (es : List (OutboxEvent F))
      → found s ≡ ok es
      → All (IsRefused producer p) es
      → start found n (s, p) ≡ (s, p)
  unfolding start publish_batch
  start_starves found zero s p es got h = refl
  start_starves found (suc n) s p es got h =
      rw (got, publish_batch)
        (subst (λ w. start found n w ≡ (s, p)) (sym (publish_all-refused es s p h))
          (start_starves found n s p es got h))
