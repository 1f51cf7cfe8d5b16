-- ===== src/Redis.antt =====
-- Redis behind go-redis, which the program only calls: an interface over the state `D` of a server.
-- The keys are those that the program formats: `seckill:lock:%d:%d` (internal/order),
-- `inventory:stock:%d` (internal/inventory), `seckill:result:%s` (internal/order) and
-- `product:detail:%d` (internal/product). Expiry lies between the calls, and is not modelled.
pub mod Memory
use distributed_software_hom.Prelude.{
  ℕ, String, Bool, true, false, ◌&&◌, ◌≡◌, ◌≢◌, Option, none, some, ◌==◌, str_eq, if◌then◌else◌,
  ◌⊎◌, inl, inr, Bool-cases,
}
use distributed_software_hom.Prelude.Int.{ℤ, pos, ◌+ℤ◌, ◌-ℤ◌}
use distributed_software_hom.Result.{Result, ok, err, redis_nil}

pub data Key : Type 0 where
  lock_key : ℕ → ℕ → Key
  stock_key : ℕ → Key
  result_key : String → Key
  detail_key : ℕ → Key

pub data Value : Type 0 where
  number : ℤ → Value
  text : String → Value

abbrev pub same_key : Key → Key → Bool
same_key (lock_key u p) (lock_key v q) = u == v && p == q
same_key (stock_key p) (stock_key q) = p == q
same_key (result_key o) (result_key n) = str_eq o n
same_key (detail_key p) (detail_key q) = p == q
same_key _ _ = false

-- Two states agree on every key but `k`, by what each of them holds.
abbrev pub SameBut : {D : Type 0} → (Key → D → Option Value) → Key → D → D → Type 0
SameBut view k d d' = (j : Key) → (same_key k j ≡ true) ⊎ (view j d' ≡ view j d)

pub SameBut-of_others :
    {D : Type 0} (view : Key → D → Option Value) (k : Key) (d d' : D)
    → ((j : Key) → same_key k j ≡ false → view j d' ≡ view j d)
    → SameBut view k d d'
SameBut-of_others view k d d' others j = elim (Bool-cases (same_key k j)) [
  | inl same ↦ inl same
  | inr other ↦ inr (others j other)
]

-- The number that DECRBY and INCRBY start from: a missing key counts as 0.
abbrev pub number_at : Option Value → Option ℤ
number_at none = some (pos 0)
number_at (some (number n)) = some n
number_at (some (text t)) = none

-- The calls return the new state also with an error, and then nothing is known of it: a call that
-- timed out may have been carried out. The laws are the documented effect of those that succeed.
pub record Redis (D : Type 0) : Type 0 where
  pub view : Key → D → Option Value
  pub set_nx : Key → Value → D → Result Bool × D
  pub del : Key → D → Result (Unit {0}) × D
  pub incr_by : Key → ℤ → D → Result ℤ × D
  pub decr_by : Key → ℤ → D → Result ℤ × D
  pub set : Key → Value → D → Result (Unit {0}) × D
  pub get : Key → D → Result Value
  pub set_nx_new :
      (k : Key) (v : Value) (d d' : D)
      → set_nx k v d ≡ (ok true, d')
      → (view k d ≡ none) × ((j : Key) → view j d' ≡ (if same_key k j then some v else view j d))
  pub set_nx_old :
      (k : Key) (v : Value) (d d' : D)
      → set_nx k v d ≡ (ok false, d')
      → (view k d ≢ none) × ((j : Key) → view j d' ≡ view j d)
  pub del_ok :
      (k : Key) (d d' : D)
      → del k d ≡ (ok tt, d')
      → (j : Key) → view j d' ≡ (if same_key k j then none else view j d)
  pub incr_by_ok :
      (k : Key) (n m : ℤ) (d d' : D)
      → incr_by k n d ≡ (ok m, d')
      → (b : ℤ) × (number_at (view k d) ≡ some b)
        × (m ≡ b +ℤ n)
        × ((j : Key) → view j d' ≡ (if same_key k j then some (number m) else view j d))
  pub decr_by_ok :
      (k : Key) (n m : ℤ) (d d' : D)
      → decr_by k n d ≡ (ok m, d')
      → (b : ℤ) × (number_at (view k d) ≡ some b)
        × (m ≡ b -ℤ n)
        × ((j : Key) → view j d' ≡ (if same_key k j then some (number m) else view j d))
  pub set_ok :
      (k : Key) (v : Value) (d d' : D)
      → set k v d ≡ (ok tt, d')
      → (j : Key) → view j d' ≡ (if same_key k j then some v else view j d)
  pub get_ok : (k : Key) (d : D) (v : Value) → get k d ≡ ok v → view k d ≡ some v
  pub get_nil : (k : Key) (d : D) → get k d ≡ err redis_nil → view k d ≡ none

-- A reachable server: every call succeeds, the counters on keys that hold no text.
pub record IsRedisUp {D : Type 0} (redis : Redis D) : Type 0 where
  pub set_nx_up :
      (k : Key) (v : Value) (d : D) → (b : Bool) × (d' : D) × (redis.set_nx k v d ≡ (ok b, d'))
  pub del_up : (k : Key) (d : D) → (d' : D) × (redis.del k d ≡ (ok tt, d'))
  pub incr_by_up :
      (k : Key) (n b : ℤ) (d : D)
      → number_at (redis.view k d) ≡ some b
      → (m : ℤ) × (d' : D) × (redis.incr_by k n d ≡ (ok m, d'))
  pub decr_by_up :
      (k : Key) (n b : ℤ) (d : D)
      → number_at (redis.view k d) ≡ some b
      → (m : ℤ) × (d' : D) × (redis.decr_by k n d ≡ (ok m, d'))
  pub set_up : (k : Key) (v : Value) (d : D) → (d' : D) × (redis.set k v d ≡ (ok tt, d'))
