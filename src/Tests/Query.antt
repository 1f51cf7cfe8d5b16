-- ===== src/Tests/Query.antt =====
-- A query for waiting events over the tables in memory, with what the relay relies on.
use distributed_software_hom.Prelude.{
  ℕ, zero, suc, ◌≡◌, refl, inl, inr, subst, Bool, true, false, some, List, [], ◌∷◌, arith, All,
  find?, count, length, take, filter, Bool-cases, leb, if◌then◌else◌, ==_refl,
}
use distributed_software_hom.Result.{Result, ok}
use distributed_software_hom.Database.Rows.{IsUnclashed}
use distributed_software_hom.Outbox.{OutboxEvent, outbox_schema}
use distributed_software_hom.Outbox.Relay.Marked.{is_unsent, has_id, IsWaiting}
use distributed_software_hom.Outbox.Relay.Drained.{at_most_100, Finds}
use distributed_software_hom.Tests.World.{World, outbox}

module _ {R : Type 0} where
  All-filter : (P : R → Type 0) (q : R → Bool) (rs : List R) → All P rs → All P (filter q rs)
  All-filter P q [] h = tt
  All-filter P q (r ∷ rs) h = elim (Bool-cases (q r)) [
    | inl passes ↦ rw passes (h.0, All-filter P q rs h.1)
    | inr fails ↦ rw fails (All-filter P q rs h.1)
  ]

  filter-first :
      (P : R → Type 0) (q : R → Bool) (r : R) (rs : List R)
      → (q r ≡ true → P r)
      → All P (filter q rs)
      → All P (filter q (r ∷ rs))
  filter-first P q r rs new h = elim (Bool-cases (q r)) [
    | inl passes ↦ rw passes (new passes, h)
    | inr fails ↦ rw fails h
  ]

  All-take : (P : R → Type 0) (n : ℕ) (rs : List R) → All P rs → All P (take n rs)
  All-take P zero rs h = tt
  All-take P (suc n) [] h = tt
  All-take P (suc n) (r ∷ rs) h = (h.0, All-take P n rs h.1)

  IsUnclashed-filter :
      (clash : R → R → Bool) (q : R → Bool) (rs : List R)
      → IsUnclashed clash rs
      → IsUnclashed clash (filter q rs)
  IsUnclashed-filter clash q [] u = tt
  IsUnclashed-filter clash q (r ∷ rs) u = elim (Bool-cases (q r)) [
    | inl passes ↦
        rw passes (All-filter (λ x. clash r x ≡ false) q rs u.0, IsUnclashed-filter clash q rs u.1)
    | inr fails ↦ rw fails (IsUnclashed-filter clash q rs u.1)
  ]

  IsUnclashed-take :
      (clash : R → R → Bool) (n : ℕ) (rs : List R)
      → IsUnclashed clash rs
      → IsUnclashed clash (take n rs)
  IsUnclashed-take clash zero rs u = tt
  IsUnclashed-take clash (suc n) [] u = tt
  IsUnclashed-take clash (suc n) (r ∷ rs) u =
      (All-take (λ x. clash r x ≡ false) n rs u.0, IsUnclashed-take clash n rs u.1)

  length-take :
      (n : ℕ) (rs : List R) → length (take n rs) ≡ (if leb (length rs) n then length rs else n)
  length-take zero [] = refl
  length-take zero (r ∷ rs) = ground arith
  length-take (suc n) [] = ground arith
  length-take (suc n) (r ∷ rs) = ground (arith, length-take n rs)

  length-filter : (q : R → Bool) (rs : List R) → length (filter q rs) ≡ count q rs
  length-filter q [] = refl
  length-filter q (r ∷ rs) = ground (arith, length-filter q rs)

module _ {F : Type 0} where
  abbrev Owns : List (OutboxEvent F) → OutboxEvent F → Type 0
  Owns rs e = find? (has_id e.id) rs ≡ some e

  Owns-later :
      (r : OutboxEvent F) (es rs : List (OutboxEvent F))
      → All (λ e. outbox_schema.clash r e ≡ false) es
      → All (Owns rs) es
      → All (Owns (r ∷ rs)) es
  Owns-later r [] rs apart h = tt
  Owns-later r (e ∷ es) rs apart h = (ground arith, Owns-later r es rs apart.1 h.1)

  -- Where rows have keys of their own, each is found by its key.
  Owns-all : (rs : List (OutboxEvent F)) → IsUnclashed outbox_schema.clash rs → All (Owns rs) rs
  Owns-all [] u = tt
  Owns-all (r ∷ rs) u = (ground (arith, ==_refl r.id), Owns-later r rs rs u.0 (Owns-all rs u.1))

  filter-IsWaiting :
      (es rs : List (OutboxEvent F)) → All (Owns rs) es → All (IsWaiting rs) (filter is_unsent es)
  filter-IsWaiting [] rs h = tt
  filter-IsWaiting (e ∷ es) rs h =
      filter-first (IsWaiting rs) is_unsent e es (λ new. (h.0, ground arith))
        (filter-IsWaiting es rs h.1)

abbrev pub found_waiting : World → Result (List (OutboxEvent ℕ))
found_waiting w = ok (take 100 (filter is_unsent (outbox.rows w)))

pub found_waiting-Finds : Finds outbox found_waiting
found_waiting-Finds w u =
    let rs = outbox.rows w in
    let es = filter is_unsent rs in
    (
      take 100 es,
      refl,
      All-take (IsWaiting rs) 100 es (filter-IsWaiting rs rs (Owns-all rs u)),
      IsUnclashed-take outbox_schema.clash 100 es
          (IsUnclashed-filter outbox_schema.clash is_unsent rs u),
      subst (λ k. length (take 100 es) ≡ at_most_100 k) (length-filter is_unsent rs)
          (length-take 100 es),
    )
