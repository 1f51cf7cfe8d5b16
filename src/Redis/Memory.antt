-- ===== src/Redis/Memory.antt =====
-- A server that is always reachable, kept as a function: a value of `Redis`, for the tests.
use distributed_software_hom.Prelude.{
  Bool, true, false, ◌≡◌, ◌≢◌, ap, refl, inl, inr, Option, none, some, arith, Option-cases,
  if◌then◌else◌,
}
use distributed_software_hom.Prelude.Int.{ℤ, ◌+ℤ◌, ◌-ℤ◌}
use distributed_software_hom.Result.{Result, ok, err, redis_nil, external}
use distributed_software_hom.Redis.{Key, Value, number, same_key, number_at, Redis, IsRedisUp}

abbrev pub Store : Type 0
Store = Key → Option Value

abbrev pub assign : Key → Option Value → Store → Store
assign k v d j = if same_key k j then v else d j

unfoldable pub set_nx : Key → Value → Store → Result Bool × Store
set_nx k v d = elim (d k) [ none ↦ (ok true, assign k (some v) d) | some _ ↦ (ok false, d) ]

unfoldable pub change : (ℤ → ℤ) → Key → Store → Result ℤ × Store
change f k d = elim (number_at (d k)) [
  | none ↦ (err (external 0), d)
  | some b ↦ (ok (f b), assign k (some (number (f b))) d)
]

unfoldable pub get : Key → Store → Result Value
get k d = elim (d k) [ none ↦ err redis_nil | some v ↦ ok v ]

-- Equal stores hold the same at each key.
at : {d e : Store} → d ≡ e → (j : Key) → d j ≡ e j
at p j = ap (λ (s : Store). s j) p

pub set_nx_new :
    (k : Key) (v : Value) (d d' : Store)
    → set_nx k v d ≡ (ok true, d')
    → (d k ≡ none) × ((j : Key) → d' j ≡ (if same_key k j then some v else d j))
unfolding set_nx
set_nx_new k v d d' h = elim (Option-cases (d k)) [
  | inl free ↦ (free, at (ground arith))
  | inr (w, taken) ↦ ground arith
]

pub set_nx_old :
    (k : Key) (v : Value) (d d' : Store)
    → set_nx k v d ≡ (ok false, d')
    → (d k ≢ none) × ((j : Key) → d' j ≡ d j)
unfolding set_nx
set_nx_old k v d d' h = elim (Option-cases (d k)) [
  | inl free ↦ ground arith
  | inr (w, taken) ↦ (λ e. ground arith, at (ground arith))
]

pub change_ok :
    (f : ℤ → ℤ) (k : Key) (m : ℤ) (d d' : Store)
    → change f k d ≡ (ok m, d')
    → (b : ℤ) × (number_at (d k) ≡ some b)
      × (m ≡ f b)
      × ((j : Key) → d' j ≡ (if same_key k j then some (number m) else d j))
unfolding change
change_ok f k m d d' h = elim (Option-cases (number_at (d k))) [
  | inl none_there ↦ ground arith
  | inr (b, there) ↦ (b, there, ground arith, at (ground arith))
]

pub del_ok :
    (k : Key) (d d' : Store)
    → ◌≡◌ {A = Result (Unit {0}) × Store} (ok tt, assign k none d) (ok tt, d')
    → (j : Key) → d' j ≡ assign k none d j
del_ok k d d' h = at (ground arith)

pub set_ok :
    (k : Key) (v : Value) (d d' : Store)
    → ◌≡◌ {A = Result (Unit {0}) × Store} (ok tt, assign k (some v) d) (ok tt, d')
    → (j : Key) → d' j ≡ assign k (some v) d j
set_ok k v d d' h = at (ground arith)

pub get_ok : (k : Key) (d : Store) (v : Value) → get k d ≡ ok v → d k ≡ some v
unfolding get
get_ok k d v h = ground arith

pub get_nil : (k : Key) (d : Store) → get k d ≡ err redis_nil → d k ≡ none
unfolding get
get_nil k d h = ground arith

set_nx_up :
    (k : Key) (v : Value) (d : Store) → (b : Bool) × (d' : Store) × (set_nx k v d ≡ (ok b, d'))
unfolding set_nx
set_nx_up k v d = elim (Option-cases (d k)) [
  | inl free ↦ (true, assign k (some v) d, rw (free, set_nx))
  | inr (w, taken) ↦ (false, d, rw (taken, set_nx))
]

-- A single copy of the values, always reachable.
unfoldable pub memory : Redis Store
unfolding set_nx change get
memory = record {
  view = λ k d. d k;
  set_nx = set_nx;
  del = λ k d. (ok tt, assign k none d);
  incr_by = λ k n. change (λ b. b +ℤ n) k;
  decr_by = λ k n. change (λ b. b -ℤ n) k;
  set = λ k v d. (ok tt, assign k (some v) d);
  get = get;
  set_nx_new = set_nx_new;
  set_nx_old = set_nx_old;
  del_ok = del_ok;
  incr_by_ok = λ k n. change_ok (λ b. b +ℤ n) k;
  decr_by_ok = λ k n. change_ok (λ b. b -ℤ n) k;
  set_ok = set_ok;
  get_ok = get_ok;
  get_nil = get_nil;
}

pub memory-IsRedisUp : IsRedisUp memory
unfolding memory
memory-IsRedisUp = record {
  set_nx_up = set_nx_up;
  del_up = λ k d. (assign k none d, refl);
  incr_by_up = λ k n b d e. (b +ℤ n, assign k (some (number (b +ℤ n))) d, rw (e, change));
  decr_by_up = λ k n b d e. (b -ℤ n, assign k (some (number (b -ℤ n))) d, rw (e, change));
  set_up = λ k v d. (assign k (some v) d, refl);
}
