-- ===== src/Database.antt =====
-- gorm and the SQL database behind it, which the program only calls: an interface that the models
-- of the repositories take as a parameter. `S` is the state of a database, `R` the rows of a table.
pub mod Rows
pub mod Memory
use distributed_software_hom.Prelude.{
  arith, ℕ, Bool, ◌≡◌, ◌≢◌, none, some, List, [], ◌∷◌, ◌++◌, find?, count, filter, not, ◌==◌,
}
use distributed_software_hom.Result.{Error, Result, ok, err, record_not_found}
use Rows.{map_where, NotClashing}

-- What the gorm tags of a row type say: the primary key, and which two rows a unique index forbids.
pub record Schema (R : Type 0) : Type 0 where
  pub id_of : R → ℕ
  pub with_id : ℕ → R → R
  pub clash : R → R → Bool

-- The calls on one table. An error leaves the state as it is, and may be any error.
-- The laws are the documented behaviour of the calls that succeed.
pub record Table (S R : Type 0) (schema : Schema R) : Type 0 where
  pub rows : S → List R
  -- Where(p).First(&r)
  pub first : (R → Bool) → S → Result R
  -- Where(p).Count(&n)
  pub count_rows : (R → Bool) → S → Result ℕ
  -- Create(&r), with the primary key that the database generates
  pub create : R → S → Result (ℕ × S)
  -- Where(p).Updates(f), with RowsAffected
  pub update : (R → Bool) → (R → R) → S → Result (ℕ × S)
  -- Save(&r): an insert if the primary key is 0 or no row has it, else all columns of the row with
  -- that key.
  -- The row comes back with its key.
  pub save : R → S → Result (R × S)
  -- Delete(&R{}, p)
  pub delete : (R → Bool) → S → Result S
  pub delete_rows :
      (p : R → Bool) (s s' : S) → delete p s ≡ ok s' → rows s' ≡ filter (λ r. not (p r)) (rows s)
  pub first_ok : (p : R → Bool) (s : S) (r : R) → first p s ≡ ok r → find? p (rows s) ≡ some r
  pub first_missing :
      (p : R → Bool) (s : S) → first p s ≡ err record_not_found → find? p (rows s) ≡ none
  pub count_ok : (p : R → Bool) (s : S) (n : ℕ) → count_rows p s ≡ ok n → n ≡ count p (rows s)
  pub create_rows :
      (r : R) (s : S) (i : ℕ) (s' : S)
      → create r s ≡ ok (i, s')
      → rows s' ≡ rows s ++ schema.with_id i r ∷ []
  pub create_unique :
      (r : R) (s : S) (i : ℕ) (s' : S)
      → create r s ≡ ok (i, s')
      → NotClashing schema.clash (schema.with_id i r) (rows s)
  pub update_rows :
      (p : R → Bool) (f : R → R) (s : S) (n : ℕ) (s' : S)
      → update p f s ≡ ok (n, s')
      → rows s' ≡ map_where p f (rows s)
  pub update_count :
      (p : R → Bool) (f : R → R) (s : S) (n : ℕ) (s' : S)
      → update p f s ≡ ok (n, s')
      → n ≡ count p (rows s)
  pub save_new :
      (r : R) (s : S) (r' : R) (s' : S)
      → schema.id_of r ≡ 0
      → save r s ≡ ok (r', s')
      → (i : ℕ) × (r' ≡ schema.with_id i r) × (rows s' ≡ rows s ++ r' ∷ [])
  pub save_old :
      (r : R) (s : S) (r' : R) (s' : S)
      → schema.id_of r ≢ 0
      → count (λ q. schema.id_of q == schema.id_of r) (rows s) ≢ 0
      → save r s ≡ ok (r', s')
      → (r' ≡ r) × (rows s' ≡ map_where (λ q. schema.id_of q == schema.id_of r) (λ _. r) (rows s))
  pub save_absent :
      (r : R) (s : S) (r' : R) (s' : S)
      → schema.id_of r ≢ 0
      → count (λ q. schema.id_of q == schema.id_of r) (rows s) ≡ 0
      → save r s ≡ ok (r', s')
      → (r' ≡ r) × (rows s' ≡ rows s ++ r ∷ [])

-- An UPDATE that assigns no column of a unique index.
abbrev pub KeepsKeys : {R : Type 0} → Schema R → (R → R) → Type 0
KeepsKeys {R} schema f =
    (a b : R)
    → (schema.clash (f a) b ≡ schema.clash a b) × (schema.clash a (f b) ≡ schema.clash a b)

-- A reachable database: reads succeed at this state, and so do updates that leave the keys alone.
-- The numbers stay in the range of their columns.
pub record IsUp {S R : Type 0} {schema : Schema R} (t : Table S R schema) (s : S) : Type 0 where
  pub first_found : (p : R → Bool) (r : R) → find? p (t.rows s) ≡ some r → t.first p s ≡ ok r
  pub first_none : (p : R → Bool) → find? p (t.rows s) ≡ none → t.first p s ≡ err record_not_found
  pub update_done :
      (p : R → Bool) (f : R → R)
      → KeepsKeys schema f
      → (n : ℕ) × (s' : S) × (t.update p f s ≡ ok (n, s'))

-- Calls on the first table leave the rows of the second one alone.
pub record IsApart {S A B : Type 0} {a : Schema A} {b : Schema B} (t : Table S A a)
    (u : Table S B b) : Type 0 where
  pub create_apart :
      (r : A) (s : S) (i : ℕ) (s' : S) → t.create r s ≡ ok (i, s') → u.rows s' ≡ u.rows s
  pub update_apart :
      (p : A → Bool) (f : A → A) (s : S) (n : ℕ) (s' : S)
      → t.update p f s ≡ ok (n, s')
      → u.rows s' ≡ u.rows s
  pub save_apart :
      (r : A) (s : S) (r' : A) (s' : S) → t.save r s ≡ ok (r', s') → u.rows s' ≡ u.rows s

-- db.Transaction(fn): `fn` returning nil commits its whole effect, an error rolls it back and is
-- returned. The commit itself may fail.
pub record Transactions (S A : Type 0) : Type 0 where
  pub transaction : (S → Result (A × S)) → S → Result (A × S)
  pub commits :
      (body : S → Result (A × S)) (s : S) (a : A) (s' : S)
      → transaction body s ≡ ok (a, s')
      → body s ≡ ok (a, s')
  pub aborts :
      (body : S → Result (A × S)) (s : S) (e : Error) → body s ≡ err e → transaction body s ≡ err e

-- The state after a transaction whose error is logged and dropped: an error rolled it back.
abbrev pub committed : {S A : Type 0} → S → Result (A × S) → S
committed s (ok (a, s')) = s'
committed s (err e) = s

-- A transaction body without a value.
abbrev pub no_value : {S : Type 0} → Result S → Result (Unit {0} × S)
no_value (ok s) = ok (tt, s)
no_value (err e) = err e

pub no_value-eq-ok :
    {S : Type 0} (r : Result S) (u : Unit {0}) (s' : S) → no_value r ≡ ok (u, s') → r ≡ ok s'
no_value-eq-ok (ok s) u s' h = ground arith
no_value-eq-ok (err e) u s' h = ground arith
