-- ===== src/Database/Memory.antt =====
-- A table kept as a list in a store of lists: a value of the interface `Table`, for the tests.
use distributed_software_hom.Prelude.{
  ℕ, suc, Bool, refl, ◌≡◌, inl, inr, subst, Option-cases, none, some, List, [], ◌∷◌, ◌++◌, arith,
  length, find?, count, filter, not, ◌==◌, ◌≢◌, if◌then◌else◌,
}
use distributed_software_hom.Result.{Result, ok, err, record_not_found, external, ◌>>=◌}
use distributed_software_hom.Database.{Schema, Table, Transactions, IsApart, IsUp}
use distributed_software_hom.Database.Rows.{map_where, NotClashing, find?-none-All}

-- The rows are a part `get s` of the state, which `put` replaces.
module _ {S R : Type 0} (schema : Schema R) (get : S → List R) (put : List R → S → S) where
  unfoldable pub first : (R → Bool) → S → Result R
  first p s = elim (find? p (get s)) [ none ↦ err record_not_found | some r ↦ ok r ]

  unfoldable pub create : R → S → Result (ℕ × S)
  create r s =
      let i = suc (length (get s)) in
      let r' = schema.with_id i r in
      elim (find? (λ q. schema.clash q r') (get s)) [
        | none ↦ ok (i, put (get s ++ r' ∷ []) s)
        | some _ ↦ err (external 23505)
      ]

  unfoldable pub update : (R → Bool) → (R → R) → S → Result (ℕ × S)
  update p f s = ok (count p (get s), put (map_where p f (get s)) s)

  unfoldable pub save : R → S → Result (R × S)
  unfolding create
  save r s =
      if schema.id_of r == 0
      then (create r s >>= λ (i, s'). ok (schema.with_id i r, s'))
      else if count (λ q. schema.id_of q == schema.id_of r) (get s) == 0
      then ok (r, put (get s ++ r ∷ []) s)
      else ok (r, put (map_where (λ q. schema.id_of q == schema.id_of r) (λ _. r) (get s)) s)

  unfoldable pub delete : (R → Bool) → S → Result S
  delete p s = ok (put (filter (λ r. not (p r)) (get s)) s)

  module _ (get-put : (l : List R) (s : S) → get (put l s) ≡ l) where
    first_ok : (p : R → Bool) (s : S) (r : R) → first p s ≡ ok r → find? p (get s) ≡ some r
    unfolding first
    first_ok p s r h = ground arith

    first_missing :
        (p : R → Bool) (s : S) → first p s ≡ err record_not_found → find? p (get s) ≡ none
    unfolding first
    first_missing p s h = ground arith

    create_rows :
        (r : R) (s : S) (i : ℕ) (s' : S)
        → create r s ≡ ok (i, s')
        → get s' ≡ get s ++ schema.with_id i r ∷ []
    unfolding create
    create_rows r s i s' h =
        ground (arith, get-put (get s ++ schema.with_id (suc (length (get s))) r ∷ []) s)

    create_unique :
        (r : R) (s : S) (i : ℕ) (s' : S)
        → create r s ≡ ok (i, s')
        → NotClashing schema.clash (schema.with_id i r) (get s)
    unfolding create
    create_unique r s i s' h =
        let r' = schema.with_id (suc (length (get s))) r in
        elim (Option-cases (find? (λ q. schema.clash q r') (get s))) [
          | inl free ↦
              subst (λ j. NotClashing schema.clash (schema.with_id j r) (get s)) (ground arith)
                (find?-none-All (λ q. schema.clash q r') (get s) free)
          | inr taken ↦ ground arith
        ]

    update_rows :
        (p : R → Bool) (f : R → R) (s : S) (n : ℕ) (s' : S)
        → update p f s ≡ ok (n, s')
        → get s' ≡ map_where p f (get s)
    unfolding update
    update_rows p f s n s' h = ground (arith, get-put (map_where p f (get s)) s)

    update_count :
        (p : R → Bool) (f : R → R) (s : S) (n : ℕ) (s' : S)
        → update p f s ≡ ok (n, s')
        → n ≡ count p (get s)
    unfolding update
    update_count p f s n s' h = ground arith

    count_ok : (p : R → Bool) (s : S) (n : ℕ) → ok (count p (get s)) ≡ ok n → n ≡ count p (get s)
    count_ok p s n h = ground arith

    delete_rows :
        (p : R → Bool) (s s' : S) → delete p s ≡ ok s' → get s' ≡ filter (λ r. not (p r)) (get s)
    unfolding delete
    delete_rows p s s' h = ground (arith, get-put (filter (λ r. not (p r)) (get s)) s)

    save_new :
        (r : R) (s : S) (r' : R) (s' : S)
        → schema.id_of r ≡ 0
        → save r s ≡ ok (r', s')
        → (i : ℕ) × (r' ≡ schema.with_id i r) × (get s' ≡ get s ++ r' ∷ [])
    unfolding save create
    save_new r s r' s' new h = (
      suc (length (get s)),
      ground arith,
      ground (arith, get-put (get s ++ schema.with_id (suc (length (get s))) r ∷ []) s),
    )

    save_old :
        (r : R) (s : S) (r' : R) (s' : S)
        → schema.id_of r ≢ 0
        → count (λ q. schema.id_of q == schema.id_of r) (get s) ≢ 0
        → save r s ≡ ok (r', s')
        → (r' ≡ r) × (get s' ≡ map_where (λ q. schema.id_of q == schema.id_of r) (λ _. r) (get s))
    unfolding save
    save_old r s r' s' old some_row h =
        ground
          (arith, get-put (map_where (λ q. schema.id_of q == schema.id_of r) (λ _. r) (get s)) s)

    save_absent :
        (r : R) (s : S) (r' : R) (s' : S)
        → schema.id_of r ≢ 0
        → count (λ q. schema.id_of q == schema.id_of r) (get s) ≡ 0
        → save r s ≡ ok (r', s')
        → (r' ≡ r) × (get s' ≡ get s ++ r ∷ [])
    unfolding save
    save_absent r s r' s' old no_row h = ground (arith, get-put (get s ++ r ∷ []) s)

    unfoldable pub table : Table S R schema
    unfolding first create update first_ok first_missing create_rows create_unique update_rows
        update_count count_ok save delete delete_rows save_new save_old save_absent
    table = record {
      rows = get;
      first = first;
      count_rows = λ p s. ok (count p (get s));
      create = create;
      update = update;
      first_ok = first_ok;
      first_missing = first_missing;
      count_ok = count_ok;
      delete = delete;
      delete_rows = delete_rows;
      save = save;
      save_new = save_new;
      save_old = save_old;
      save_absent = save_absent;
      create_rows = create_rows;
      create_unique = create_unique;
      update_rows = update_rows;
      update_count = update_count;
    }

-- Transactions of a store that nobody else uses: the body runs, and its result is kept.
abbrev pub alone : {S A : Type 0} → Transactions S A
alone = record {
  transaction = λ body. body;
  commits = λ body s a s' h. h;
  aborts = λ body s e h. h;
}

-- Two lists of the same state, of which the one is not in the way of the other.
pub apart :
    {S A B : Type 0} (a : Schema A) (b : Schema B) (get : S → List A) (put : List A → S → S)
    (get-put : (l : List A) (s : S) → get (put l s) ≡ l) (u : Table S B b)
    → ((l : List A) (s : S) → u.rows (put l s) ≡ u.rows s)
    → IsApart (table a get put get-put) u
unfolding table create update save
apart a b get put get-put u other = record {
  create_apart =
      λ r s i s' h. ground (arith, other (get s ++ a.with_id (suc (length (get s))) r ∷ []) s);
  update_apart = λ p f s n s' h. ground (arith, other (map_where p f (get s)) s);
  save_apart = λ r s r' s' h. ground (
    arith,
    other (get s ++ a.with_id (suc (length (get s))) r ∷ []) s,
    other (get s ++ r ∷ []) s,
    other (map_where (λ q. a.id_of q == a.id_of r) (λ _. r) (get s)) s,
  );
}

pub table-IsUp :
    {S A : Type 0} (a : Schema A) (get : S → List A) (put : List A → S → S)
    (get-put : (l : List A) (s : S) → get (put l s) ≡ l) (s : S)
    → IsUp (table a get put get-put) s
unfolding table first update
table-IsUp a get put get-put s = record {
  first_found = λ p r h. ground (arith, h);
  first_none = λ p h. ground (arith, h);
  update_done = λ p f keeps. (count p (get s), put (map_where p f (get s)) s, refl);
}
