-- ===== src/Product/Cached.antt =====
-- internal/product/cached_service.go: the catalogue behind a cache in Redis. The JSON of a product
-- is a parameter; lifetimes of the keys are left out. `group.Do` runs its function for one of the
-- callers with the same key and gives all of them its result: the model is that caller.
use distributed_software_hom.Prelude.{
  ℕ, String, Bool, false, ◌≡◌, refl, Option, none, some, str_eq, if◌then◌else◌, arith, eq_refl, ap,
  ◌∙◌, ==_refl, Option-cases, inl, inr,
}
use distributed_software_hom.Result.{Result, ok, err, product_not_found, Result-cases}
use distributed_software_hom.Database.{Table}
use distributed_software_hom.Redis.{Redis, IsRedisUp, Value, number, text, detail_key}
use distributed_software_hom.Product.{
  Product, UpdateProductRequest, product_schema, get_product_by_id, update_product, delete_product,
}

-- json.Marshal and json.Unmarshal of a product.
pub record Json (F : Type 0) : Type 0 where
  pub marshal : Product F → String
  pub unmarshal : String → Option (Product F)

-- What is written is read back, and is not empty.
abbrev pub IsReadBack : {F : Type 0} → Json F → Product F → Type 0
IsReadBack json p =
    (json.unmarshal (json.marshal p) ≡ some p) × (str_eq (json.marshal p) "" ≡ false)

module _ {F S D : Type 0} (products : Table S (Product F) product_schema) (redis : Redis D)
    (json : Json F) where
  -- The answer that a cached value stands for, unless it is no JSON of a product. The empty text
  -- is the marker of a product that does not exist; a number is never JSON of a product.
  abbrev pub cached_answer : Value → Option (Result (Product F))
  cached_answer (number n) = none
  cached_answer (text t) =
      if str_eq t ""
      then some (err product_not_found)
      else elim (json.unmarshal t) [ none ↦ none | some p ↦ some (ok p) ]

  -- A hit, or a miss: an error of Redis is one too.
  unfoldable pub lookup : ℕ → D → Option (Result (Product F))
  lookup id d = elim (redis.get (detail_key id) d) [ ok v ↦ cached_answer v | err _ ↦ none ]

  -- What the function under `group.Do` writes to the cache.
  abbrev pub backfill : ℕ → Result (Product F) → D → D
  backfill id (ok p) d = (redis.set (detail_key id) (text (json.marshal p)) d).1
  backfill id (err product_not_found) d = (redis.set (detail_key id) (text "") d).1
  backfill id (err e) d = d

  unfoldable pub get_cached_product : ℕ → S → D → Result (Product F) × D
  get_cached_product id s d = elim (lookup id d) [
    | some answer ↦ (answer, d)
    | none ↦ (get_product_by_id products id s, backfill id (get_product_by_id products id s) d)
  ]

  -- Update: the key is deleted after the row was written, and an error of Redis is ignored.
  unfoldable pub update_cached_product :
      (F → Bool) → ℕ → UpdateProductRequest F → S → D → Result (Product F × S) × D
  update_cached_product is_positive id req s d =
      let r = update_product products is_positive id req s in
      elim r [ err e ↦ (err e, d) | ok (p, s') ↦ (ok (p, s'), (redis.del (detail_key id) d).1) ]

  -- Delete: as for an update.
  unfoldable pub delete_cached_product : ℕ → S → D → Result S × D
  delete_cached_product id s d =
      let r = delete_product products id s in
      elim r [ err e ↦ (err e, d) | ok s' ↦ (ok s', (redis.del (detail_key id) d).1) ]

  -- What is cached of a product agrees with the database.
  unfoldable pub IsFresh : ℕ → S → D → Type 0
  IsFresh id s d =
      (v : Value) (answer : Result (Product F))
      → redis.view (detail_key id) d ≡ some v
      → cached_answer v ≡ some answer
      → get_product_by_id products id s ≡ answer

  -- While what is cached agrees with the database, a read gives the answer of the database,
  -- whether Redis answers, misses or fails.
  pub get_cached_product_fresh :
      (id : ℕ) (s : S) (d : D)
      → IsFresh id s d
      → (get_cached_product id s d).0 ≡ get_product_by_id products id s
  unfolding get_cached_product lookup IsFresh
  get_cached_product_fresh id s d fresh = elim (Result-cases (redis.get (detail_key id) d)) [
    | inr (e, failed) ↦ ground (arith, failed)
    | inl (v, got) ↦ elim (Option-cases (cached_answer v)) [
      | inl miss ↦ ground (arith, got, miss)
      | inr (answer, hit) ↦
          let same = fresh v answer (redis.get_ok (detail_key id) d v got) hit in
          ground (arith, got, hit, same)
    ]
  ]

  -- A key that was just written holds what its value stands for.
  written-IsFresh :
      (id : ℕ) (t : String) (s : S) (d : D)
      → redis.view (detail_key id) d ≡ some (text t)
      → cached_answer (text t) ≡ some (get_product_by_id products id s)
      → IsFresh id s d
  unfolding IsFresh
  written-IsFresh id t s d written right v answer seen hit =
      ground (arith, written, right, seen, hit)

  set_view :
      IsRedisUp redis
      → (id : ℕ) (t : String) (d : D)
      → redis.view (detail_key id) (redis.set (detail_key id) (text t) d).1 ≡ some (text t)
  set_view up id t d =
      let (d', set) = up.set_up (detail_key id) (text t) d in
      ap (λ c. redis.view (detail_key id) c.1) set
      ∙ redis.set_ok (detail_key id) (text t) d d' set (detail_key id)
      ∙ ap (λ b. if b then some (text t) else redis.view (detail_key id) d) (==_refl id)

  backfill-IsFresh :
      IsRedisUp redis
      → (id : ℕ) (s : S) (d : D) → IsFresh id s d
      → (r : Result (Product F)) → get_product_by_id products id s ≡ r
      → ((p : Product F) → get_product_by_id products id s ≡ ok p → IsReadBack json p)
      → IsFresh id s (backfill id r d)
  backfill-IsFresh up id s d fresh (ok p) is back =
      written-IsFresh id (json.marshal p) s _ (set_view up id (json.marshal p) d)
        (ground (arith, is, (back p is).0, (back p is).1))
  backfill-IsFresh up id s d fresh (err product_not_found) is back =
      written-IsFresh id "" s _ (set_view up id "" d) (ground (arith, is, eq_refl ""))
  backfill-IsFresh up id s d fresh (err e) is back = fresh

  -- With Redis reachable, and a JSON form that reads back the product in the database, a read
  -- keeps what is cached in agreement with the database.
  pub get_cached_product-IsFresh :
      IsRedisUp redis
      → (id : ℕ) (s : S) (d : D)
      → ((p : Product F) → get_product_by_id products id s ≡ ok p → IsReadBack json p)
      → IsFresh id s d
      → IsFresh id s (get_cached_product id s d).1
  unfolding get_cached_product
  get_cached_product-IsFresh up id s d back fresh = elim (Option-cases (lookup id d)) [
    | inl miss ↦
        rw (get_cached_product, miss)
          (backfill-IsFresh up id s d fresh (get_product_by_id products id s) refl back)
    | inr (answer, hit) ↦ rw (get_cached_product, hit) fresh
  ]

  -- With Redis reachable, after an update that succeeds nothing is cached of the product, and the
  -- next read gives what the database then holds.
  pub update_cached_product_read :
      IsRedisUp redis
      → (is_positive : F → Bool) (id : ℕ) (req : UpdateProductRequest F) (s : S) (d : D)
        (p : Product F) (s' : S) (d' : D)
      → update_cached_product is_positive id req s d ≡ (ok (p, s'), d')
      → (redis.view (detail_key id) d' ≡ none)
        × ((get_cached_product id s' d').0 ≡ get_product_by_id products id s')
  unfolding update_cached_product IsFresh
  update_cached_product_read up is_positive id req s d p s' d' h =
      let (d'', deleted) = up.del_up (detail_key id) d in
      let absent : redis.view (detail_key id) d'' ≡ none =
        redis.del_ok (detail_key id) d d'' deleted (detail_key id)
        ∙ ap (λ b. if b then none else redis.view (detail_key id) d) (==_refl id) in
      let same : d' ≡ d'' = elim (Result-cases (update_product products is_positive id req s)) [
        | inl (r, done) ↦ ground (arith, done, deleted)
        | inr (e, failed) ↦ ground (arith, failed)
      ] in
      let gone : redis.view (detail_key id) d' ≡ none =
        ap (redis.view (detail_key id)) same ∙ absent in
      (gone, get_cached_product_fresh id s' d' λ v answer seen hit. ground (arith, gone, seen))
