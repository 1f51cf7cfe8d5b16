-- ===== src/Outbox/Relay/Marked.antt =====
-- What the marks of pkg/outbox/relay.go do to the rows of the outbox: each takes one event off those
-- that wait.
use distributed_software_hom.Prelude.{
  ℕ, ◌+◌, ◌≡◌, refl, sym, ap, ap₂, inl, inr, Bool, true, false, not, some, List, [], ◌∷◌, map,
  arith, ◌==◌, All, find?, count, Bool-cases,
}
use distributed_software_hom.Database.Rows.{
  map_where, map_where-none, IsUnclashed, All-imp, All-map_where, find?-map_where,
}
use distributed_software_hom.Outbox.{OutboxEvent, outbox_schema}

module _ {F : Type 0} where
  abbrev pub is_unsent : OutboxEvent F → Bool
  is_unsent r = not r.sent

  abbrev pub marked : OutboxEvent F → OutboxEvent F
  marked r = record r { sent = true }

  -- "id = ?"
  abbrev pub has_id : ℕ → OutboxEvent F → Bool
  has_id i r = r.id == i

  -- The event is a row that is not sent yet.
  abbrev pub IsWaiting : List (OutboxEvent F) → OutboxEvent F → Type 0
  IsWaiting rs e = (find? (has_id e.id) rs ≡ some e) × (e.sent ≡ false)

  no_other_id :
      (r : OutboxEvent F) (i : ℕ) (rs : List (OutboxEvent F))
      → r.id ≡ i
      → All (λ q. outbox_schema.clash r q ≡ false) rs
      → All (λ q. has_id i q ≡ false) rs
  no_other_id r i rs mine u =
      All-imp (λ q. outbox_schema.clash r q ≡ false) (λ q. has_id i q ≡ false)
        (λ q free. ground arith) rs u

  pub count-marked :
      (e : OutboxEvent F) (rs : List (OutboxEvent F))
      → IsUnclashed outbox_schema.clash rs
      → IsWaiting rs e
      → count is_unsent (map_where (has_id e.id) marked rs) + 1 ≡ count is_unsent rs
  count-marked e [] u w = ground arith
  count-marked e (r ∷ rs) u (at, new) = elim (Bool-cases (has_id e.id r)) [
    | inl mine ↦
        let same : r ≡ e = ground arith in
        let rest =
          map_where-none (has_id e.id) marked rs
            (no_other_id r e.id rs (ap (λ x. x.id) same) u.0) in
        ground (arith, rest)
    | inr other ↦ ground (arith, count-marked e rs u.1 (rw other at at, new))
  ]

  -- Another event goes on waiting.
  IsWaiting-marked :
      (e d : OutboxEvent F) (rs : List (OutboxEvent F))
      → outbox_schema.clash e d ≡ false
      → IsWaiting rs d
      → IsWaiting (map_where (has_id e.id) marked rs) d
  IsWaiting-marked e d rs apart (at, new) =
      (ground (arith, find?-map_where (has_id d.id) (has_id e.id) marked (λ r. refl) rs), new)

  pub IsWaiting-marked_all :
      (e : OutboxEvent F) (ds rs : List (OutboxEvent F))
      → All (λ d. outbox_schema.clash e d ≡ false) ds
      → All (IsWaiting rs) ds
      → All (IsWaiting (map_where (has_id e.id) marked rs)) ds
  IsWaiting-marked_all e [] rs apart w = tt
  IsWaiting-marked_all e (d ∷ ds) rs apart w =
      (IsWaiting-marked e d rs apart.0 w.0, IsWaiting-marked_all e ds rs apart.1 w.1)

  clash-marked :
      (q : OutboxEvent F → Bool) (r : OutboxEvent F) (rs : List (OutboxEvent F))
      → All (λ x. outbox_schema.clash r x ≡ false) rs
      → All (λ x. outbox_schema.clash r x ≡ false) (map_where q marked rs)
  clash-marked q r rs h =
      All-map_where (λ x. outbox_schema.clash r x ≡ false) q marked (λ x free _. free) rs h

  pub IsUnclashed-marked :
      (q : OutboxEvent F → Bool) (rs : List (OutboxEvent F))
      → IsUnclashed outbox_schema.clash rs
      → IsUnclashed outbox_schema.clash (map_where q marked rs)
  IsUnclashed-marked q [] u = tt
  IsUnclashed-marked q (r ∷ rs) u = elim (Bool-cases (q r)) [
    | inl mine ↦ rw mine (clash-marked q r rs u.0, IsUnclashed-marked q rs u.1)
    | inr other ↦ rw other (clash-marked q r rs u.0, IsUnclashed-marked q rs u.1)
  ]

  -- Marks come to the same in the end.
  pub map-marked :
      (q : OutboxEvent F → Bool) (rs : List (OutboxEvent F))
      → map marked (map_where q marked rs) ≡ map marked rs
  map-marked q [] = refl
  map-marked q (r ∷ rs) = elim (Bool-cases (q r)) [
    | inl mine ↦ rw mine (ap (λ l. marked r ∷ l) (map-marked q rs))
    | inr other ↦ rw other (ap (λ l. marked r ∷ l) (map-marked q rs))
  ]

  pub all_sent :
      (rs : List (OutboxEvent F))
      → count is_unsent rs ≡ 0
      → All (λ r. r.sent ≡ true) rs × (map marked rs ≡ rs)
  all_sent [] h = (tt, refl)
  all_sent (r ∷ rs) h = elim (Bool-cases r.sent) [
    | inl sent ↦
        let (every, same) = all_sent rs (ground arith) in
        ((sent, every), ap₂ (λ x l. x ∷ l) (ap (λ b. record r { sent = b }) (sym sent)) same)
    | inr open_row ↦ absurd (ground arith)
  ]
