-- ===== src/Database/Rows.antt =====
-- Rows of a table as lists: the effect of UPDATE … WHERE, unique indexes, and lemmas on both.
use distributed_software_hom.Prelude.{
  Bool, true, false, ◌≡◌, ◌≢◌, refl, inl, inr, none, some, List, [], ◌∷◌, ◌++◌, arith, sym, subst,
  Bool-cases, find?, count, All, Any, All-append, if◌then◌else◌,
}

module _ {R : Type 0} where
  abbrev pub map_where : (R → Bool) → (R → R) → List R → List R
  map_where p f [] = []
  map_where p f (r ∷ rs) = (if p r then f r else r) ∷ map_where p f rs

  -- No row of the list breaks a unique index together with `r`.
  abbrev pub NotClashing : (R → R → Bool) → R → List R → Type 0
  NotClashing clash r rs = All (λ q. clash q r ≡ false) rs

  abbrev pub IsUnclashed : (R → R → Bool) → List R → Type 0
  IsUnclashed clash [] = Unit
  IsUnclashed clash (r ∷ rs) = All (λ q. clash r q ≡ false) rs × IsUnclashed clash rs

  pub All-map_where :
      (P : R → Type 0) (p : R → Bool) (f : R → R)
      → ((r : R) → P r → p r ≡ true → P (f r))
      → (rs : List R) → All P rs
      → All P (map_where p f rs)
  All-map_where P p f keep [] h = tt
  All-map_where P p f keep (r ∷ rs) h =
      (ground (arith, keep r h.0), All-map_where P p f keep rs h.1)

  -- An update that no row passes.
  pub map_where-none :
      (p : R → Bool) (f : R → R) (rs : List R) → All (λ r. p r ≡ false) rs → map_where p f rs ≡ rs
  map_where-none p f [] h = refl
  map_where-none p f (r ∷ rs) h = ground (arith, h.0, map_where-none p f rs h.1)

  -- An update that does not change what a query asks commutes with the query.
  pub find?-map_where :
      (q p : R → Bool) (f : R → R)
      → ((r : R) → q (f r) ≡ q r)
      → (rs : List R)
      → find? q (map_where p f rs)
        ≡ elim (find? q rs) [ none ↦ none | some r ↦ some (if p r then f r else r) ]
  find?-map_where q p f keep [] = refl
  find?-map_where q p f keep (r ∷ rs) = ground (arith, keep r, find?-map_where q p f keep rs)

  pub find?-append-none :
      (q : R → Bool) (rs : List R) (r : R)
      → find? q rs ≡ none
      → find? q (rs ++ r ∷ []) ≡ (if q r then some r else none)
  find?-append-none q [] r h = refl
  find?-append-none q (x ∷ rs) r h = ground (arith, find?-append-none q rs r)

  pub find?-append-some :
      (q : R → Bool) (rs : List R) (r y : R) → find? q rs ≡ some y → find? q (rs ++ r ∷ []) ≡ some y
  find?-append-some q [] r y h = ground arith
  find?-append-some q (x ∷ rs) r y h = ground (arith, find?-append-some q rs r y)

  -- What a query finds passes its test, and has the properties of all rows.
  pub find?-passes : (q : R → Bool) (rs : List R) (r : R) → find? q rs ≡ some r → q r ≡ true
  find?-passes q [] r h = ground arith
  find?-passes q (x ∷ rs) r h = ground (arith, find?-passes q rs r)

  pub find?-Any : (q : R → Bool) (rs : List R) (r : R) → find? q rs ≡ some r → Any (λ x. x ≡ r) rs
  find?-Any q [] r h = absurd (ground arith)
  find?-Any q (x ∷ rs) r h = elim (Bool-cases (q x)) [
    | inl found ↦ inl (ground arith)
    | inr other ↦ inr (find?-Any q rs r (rw other at h))
  ]

  find?-head :
      (q : R → Bool) (x : R) (rs : List R) (r : R) → q x ≡ true → find? q (x ∷ rs) ≡ some r → x ≡ r
  find?-head q x rs r h e = ground arith

  pub find?-All :
      (P : R → Type 0) (q : R → Bool) (rs : List R) (r : R) → All P rs → find? q rs ≡ some r → P r
  find?-All P q [] r h e = ground arith
  find?-All P q (x ∷ rs) r h e = elim (Bool-cases (q x)) [
    | inl found ↦ subst P (find?-head q x rs r found e) h.0
    | inr other ↦ find?-All P q rs r h.1 (rw other at e)
  ]

  -- No row is counted exactly if none is found.
  pub count-zero : (q : R → Bool) (rs : List R) → count q rs ≡ 0 → find? q rs ≡ none
  count-zero q [] h = refl
  count-zero q (r ∷ rs) h = ground (arith, count-zero q rs)

  pub find?-none-All : (q : R → Bool) (rs : List R) → find? q rs ≡ none → All (λ r. q r ≡ false) rs
  find?-none-All q [] h = tt
  find?-none-All q (r ∷ rs) h = elim (Bool-cases (q r)) [
    | inl found ↦ ground arith
    | inr other ↦ (other, find?-none-All q rs (rw other at h))
  ]

  pub All-count_zero : (q : R → Bool) (rs : List R) → All (λ r. q r ≡ false) rs → count q rs ≡ 0
  All-count_zero q [] h = refl
  All-count_zero q (r ∷ rs) h = ground (arith, All-count_zero q rs h.1)

  count_skip :
      (q : R → Bool) (r : R) (rs : List R) → q r ≡ false → count q rs ≡ 0 → count q (r ∷ rs) ≡ 0
  count_skip q r rs h z = ground arith

  pub All-imp : (P Q : R → Type 0) → ((r : R) → P r → Q r) → (rs : List R) → All P rs → All Q rs
  All-imp P Q f [] h = tt
  All-imp P Q f (r ∷ rs) h = (f r h.0, All-imp P Q f rs h.1)

  pub IsUnclashed-append :
      (clash : R → R → Bool) (rs : List R) (r : R)
      → IsUnclashed clash rs
      → NotClashing clash r rs
      → IsUnclashed clash (rs ++ r ∷ [])
  IsUnclashed-append clash [] r u n = (tt, tt)
  IsUnclashed-append clash (x ∷ rs) r u n = (
    All-append (λ q. clash x q ≡ false) rs (r ∷ []) u.0 (n.0, tt),
    IsUnclashed-append clash rs r u.1 n.1,
  )

-- A unique key: the rows that pass `key` clash with each other, so at most one row passes.
module _ {R : Type 0} (clash : R → R → Bool) (key : R → Bool)
    (keyed : (a b : R) → key a ≡ true → key b ≡ true → clash a b ≡ true) where
  no_other :
      (x : R) (rs : List R)
      → key x ≡ true
      → All (λ q. clash x q ≡ false) rs
      → All (λ q. key q ≡ false) rs
  no_other x rs kx h =
      All-imp (λ q. clash x q ≡ false) (λ q. key q ≡ false) (λ q c. ground (arith, keyed x q kx)) rs
        h

  -- An UPDATE by a key and a guard that affected a row found the guard true on the row of the key.
  pub guard-of_count :
      (q : R → Bool) (rs : List R) (r : R)
      → ((x : R) → q x ≡ true → key x ≡ true)
      → IsUnclashed clash rs
      → find? key rs ≡ some r
      → count q rs ≢ 0
      → q r ≡ true
  guard-of_count q [] r sub u e n = ground arith
  guard-of_count q (x ∷ rs) r sub u e n = elim (Bool-cases (key x)) [
    | inl mine ↦ elim (Bool-cases (q x)) [
      | inl passes ↦ subst (λ y. q y ≡ true) (find?-head key x rs r mine e) passes
      | inr fails ↦ absurd (
          n (
            count_skip q x rs fails (
              All-count_zero q rs (
                All-imp (λ y. key y ≡ false) (λ y. q y ≡ false) (λ y k. ground (arith, sub y)) rs
                  (no_other x rs mine u.0)))))
    ]
    | inr other ↦ guard-of_count q rs r sub u.1 (rw other at e) (λ z. n (ground (arith, sub x)))
  ]

  pub count-of_guard :
      (q : R → Bool) (rs : List R) (r : R) → find? key rs ≡ some r → q r ≡ true → count q rs ≢ 0
  count-of_guard q [] r e g z = ground arith
  count-of_guard q (x ∷ rs) r e g z = elim (Bool-cases (key x)) [
    | inl mine ↦
        let g' : q x ≡ true = subst (λ y. q y ≡ true) (sym (find?-head key x rs r mine e)) g in
        ground arith
    | inr other ↦ count-of_guard q rs r (rw other at e) g (ground arith)
  ]

  -- Overwriting, by another unique key `p`, the row that `key` finds.
  pub find?-replace :
      (p : R → Bool) (new : R)
      → ((a b : R) → p a ≡ true → p b ≡ true → clash a b ≡ true)
      → key new ≡ true
      → (rs : List R) (r : R) → IsUnclashed clash rs
      → find? key rs ≡ some r
      → p r ≡ true
      → find? key (map_where p (λ _. new) rs) ≡ some new
  find?-replace p new by kn [] r u e h = ground arith
  find?-replace p new by kn (x ∷ rs) r u e h = elim (Bool-cases (key x)) [
    | inl mine ↦
        let h' : p x ≡ true = subst (λ y. p y ≡ true) (sym (find?-head key x rs r mine e)) h in
        ground arith
    | inr other ↦
        let e' : find? key rs ≡ some r = rw other at e in
        let apart : clash x r ≡ false = find?-All (λ q. clash x q ≡ false) key rs r u.0 e' in
        let spared : p x ≡ false = ground (arith, by x r) in
        ground (arith, find?-replace p new by kn rs r u.1 e' h)
  ]
