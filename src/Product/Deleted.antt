-- ===== src/Product/Deleted.antt =====
-- internal/product/cached_service.go: a product that was deleted, and is read again.
use distributed_software_hom.Prelude.{
  ℕ, Bool, not, ◌≡◌, ◌∙◌, refl, ap, inl, inr, none, List, [], ◌∷◌, find?, filter, ◌==◌, ==_refl,
  Bool-cases, if◌then◌else◌, arith,
}
use distributed_software_hom.Result.{ok, err, product_not_found, >>=-eq-ok, Result-cases}
use distributed_software_hom.Database.{Table, IsUp}
use distributed_software_hom.Redis.{Redis, IsRedisUp, detail_key}
use distributed_software_hom.Product.{
  Product, product_schema, not_found_as_product, find_product_by_id, get_product_by_id,
  delete_product,
}
use distributed_software_hom.Product.Cached.{
  Json, IsFresh, get_cached_product, delete_cached_product, get_cached_product_fresh,
}

-- What a filter leaves out is not found.
find?-filter-not :
    {A : Type 0} (q : A → Bool) (xs : List A) → find? q (filter (λ x. not (q x)) xs) ≡ none
find?-filter-not q [] = refl
find?-filter-not q (x ∷ xs) = elim (Bool-cases (q x)) [
  | inl hit ↦ rw hit (find?-filter-not q xs)
  | inr miss ↦ rw miss (rw miss (find?-filter-not q xs))
]

module _ {F S D : Type 0} (products : Table S (Product F) product_schema) (redis : Redis D)
    (json : Json F) where
  deleted-missing :
      (id : ℕ) (s s' : S)
      → delete_product products id s ≡ ok s'
      → find? (λ p. p.id == id) (products.rows s') ≡ none
  unfolding delete_product find_product_by_id
  deleted-missing id s s' h =
      let (p, found, deleted) =
        >>=-eq-ok (not_found_as_product (products.first (λ p. p.id == id) s)) _ h in
      ap (find? (λ p. p.id == id)) (products.delete_rows (λ p. p.id == id) s s' deleted)
      ∙ find?-filter-not (λ p. p.id == id) (products.rows s)

  -- With the database and Redis reachable, a product that was deleted is not found by the next read,
  -- although it was cached before.
  pub delete_cached_product_gone :
      IsRedisUp redis
      → (id : ℕ) (s s' : S) (d d' : D)
      → delete_cached_product products redis json id s d ≡ (ok s', d')
      → IsUp products s'
      → (get_cached_product products redis json id s' d').0 ≡ err product_not_found
  unfolding delete_cached_product IsFresh get_product_by_id find_product_by_id
  delete_cached_product_gone up id s s' d d' h db =
      let (d'', deleted) = up.del_up (detail_key id) d in
      let absent : redis.view (detail_key id) d'' ≡ none =
        redis.del_ok (detail_key id) d d'' deleted (detail_key id)
        ∙ ap (λ b. if b then none else redis.view (detail_key id) d) (==_refl id) in
      elim (Result-cases (delete_product products id s)) [
        | inr (e, failed) ↦ ground (arith, failed)
        | inl (t, done) ↦
            let same : d' ≡ d'' = ground (arith, done, deleted) in
            let gone : redis.view (detail_key id) d' ≡ none =
              ap (redis.view (detail_key id)) same ∙ absent in
            let last : t ≡ s' = ground (arith, done) in
            let missing =
              db.first_none (λ p. p.id == id) (deleted-missing id s s' (done ∙ ap ok last)) in
            get_cached_product_fresh products redis json id s' d'
              (λ v answer seen hit. ground (arith, gone, seen))
            ∙ ap not_found_as_product missing
      ]
