-- ===== src/Order/Seckill/Refused.antt =====
-- A purchase that `Seckill` (internal/order/seckill_service.go) refused, with Redis reachable.
use distributed_software_hom.Prelude.{
  ℕ, String, false, ◌≡◌, ◌≢◌, ◌⊎◌, inl, inr, refl, none, some, arith, ◌∙◌, sym, subst, Bool-cases,
}
use distributed_software_hom.Prelude.Int.{ℤ, ltb_ℤ}
use distributed_software_hom.Result.{Error, err, duplicate_order, Result-cases}
use distributed_software_hom.Database.{no_value}
use distributed_software_hom.Redis.{
  Redis, IsRedisUp, Key, lock_key, stock_key, result_key, detail_key, number_at, same_key, SameBut,
  SameBut-of_others,
}
use distributed_software_hom.Event.{Stamp}
use distributed_software_hom.Inventory.RedisStock.{
  rollback_redis, deduct_redis_refuses, deduct_redis_accepts, rollback-deduct_redis,
}
use distributed_software_hom.Order.{Order, CreateOrderRequest}
use distributed_software_hom.Order.Store.{Floats, OrderStore}
use distributed_software_hom.Order.Seckill.{
  release, place, product_on_sale, new_order, buy, seckill,
}
use distributed_software_hom.Order.Seckill.Claim.{Taken, claim-up, release-up}

-- A key that is the lock, or not.
lock-cases :
    (uid pid : ℕ) (j : Key) → (lock_key uid pid ≡ j) ⊎ (same_key (lock_key uid pid) j ≡ false)
lock-cases uid pid (lock_key u p) = elim (Bool-cases (same_key (lock_key uid pid) (lock_key u p))) [
  | inl same ↦ inl (ground arith)
  | inr other ↦ inr other
]
lock-cases uid pid (stock_key p) = inr refl
lock-cases uid pid (result_key o) = inr refl
lock-cases uid pid (detail_key p) = inr refl

module _ {F S D : Type 0} (store : OrderStore F S) (redis : Redis D) (up : IsRedisUp redis) where
  open store use {transactions}

  -- The stock counter stands at `b`, and every other key has its value of before.
  abbrev pub Restored : ℕ → ℤ → D → D → Type 0
  Restored pid b d d' =
      (number_at (redis.view (stock_key pid) d') ≡ some b)
      × ((j : Key) → same_key (stock_key pid) j ≡ false → redis.view j d' ≡ redis.view j d)

  -- Releasing the lock restores the state before it was taken.
  release-Restored :
      (uid pid : ℕ) (b : ℤ) (s : S) (d d1 d2 : D)
      → Taken store redis up uid pid s d d1
      → Restored pid b d1 d2
      → Restored pid b d (release redis uid pid d2)
  release-Restored uid pid b s d d1 d2 (c, free, taken, views) (stock, others) =
      let (freed, kept) = release-up store redis up uid pid d2 in
      (
        subst (λ v. number_at v ≡ some b) (sym (kept (stock_key pid) refl)) stock,
        λ j ne. elim (lock-cases uid pid j) [
          | inl is_lock ↦
              subst (λ k. redis.view k (release redis uid pid d2) ≡ redis.view k d) is_lock
                (freed ∙ sym free)
          | inr other ↦ kept j other ∙ (others j ne ∙ views j other)
        ],
      )

  -- A purchase that fails at the counter or in the transaction has put the counter back.
  buy-err :
      (stamp : Stamp) (o : Order F) (b : ℤ) (s s' : S) (d d' : D) (e : Error)
      → number_at (redis.view (stock_key o.product_id) d) ≡ some b
      → buy store redis stamp o s d ≡ (err e, s', d')
      → (d2 : D) × (s' ≡ s)
        × (d' ≡ release redis o.user_id o.product_id d2)
        × Restored o.product_id b d d2
  unfolding buy
  buy-err stamp o b s s' d d' e there h =
      let pid = o.product_id in
      let q = o.quantity in
      elim (Bool-cases (ltb_ℤ b q)) [
        | inl short ↦
            let (d2, r, stock, others) = deduct_redis_refuses redis up pid q b d there short in
            (d2, ground arith, ground arith, (rw stock refl, others))
        | inr covers ↦
            let (d1, r) = deduct_redis_accepts redis up pid q b d there covers in
            elim (Result-cases
              (transactions.transaction (λ t. no_value (place store stamp o t)) s)) [
                | inl (p, w) ↦ ground arith
                | inr (e', w) ↦
                    let (b', there', stock, others) = rollback-deduct_redis redis up pid q d d1 r in
                    let same : b' ≡ b =
                      let eq : some b' ≡ some b = sym there' ∙ there in ground arith in
                    (
                      rollback_redis redis pid q d1,
                      ground arith,
                      ground arith,
                      (rw stock (rw same refl), others),
                    )
              ]
      ]

  -- With Redis reachable a user who holds the lock of a product already is refused, and nothing has
  -- changed.
  pub seckill_duplicate :
      (floats : Floats F) (stamp : Stamp) (order_no : String) (uid : ℕ) (req : CreateOrderRequest)
      (s : S) (d : D)
      → redis.view (lock_key uid req.product_id) d ≢ none
      → (d' : D) × (seckill store redis floats stamp order_no uid req s d
          ≡ (err duplicate_order, s, d'))
        × ((j : Key) → redis.view j d' ≡ redis.view j d)
  unfolding seckill
  seckill_duplicate floats stamp order_no uid req s d held =
      let (d1, t) = claim-up store redis up uid req.product_id s d in
      elim t [
        | inl (c, free, taken, others) ↦ absurd (held free)
        | inr (c, still, views) ↦ (d1, ground arith, views)
      ]

  refused :
      (floats : Floats F) (stamp : Stamp) (order_no : String) (uid : ℕ) (req : CreateOrderRequest)
      (b : ℤ) (s s' : S) (d d' : D) (e : Error)
      → number_at (redis.view (stock_key req.product_id) d) ≡ some b
      → seckill store redis floats stamp order_no uid req s d ≡ (err e, s', d')
      → (s' ≡ s) × Restored req.product_id b d d'
  unfolding seckill
  refused floats stamp order_no uid req b s s' d d' e there h =
      let pid = req.product_id in
      let (d1, t) = claim-up store redis up uid pid s d in
      elim t [
        | inr (c, held, views) ↦
            let last : d1 ≡ d' = ground arith in
            (ground arith, subst (Restored pid b d) last (rw views there, λ j ne. views j))
        | inl taken ↦
            let there1 : number_at (redis.view (stock_key pid) d1) ≡ some b =
              subst (λ v. number_at v ≡ some b) (sym (taken.3 (stock_key pid) refl)) there in
            elim (Result-cases (product_on_sale store pid s)) [
              | inr (e', p) ↦
                  let last : release redis uid pid d1 ≡ d' = ground (arith, taken.0) in
                  (
                    ground (arith, taken.0),
                    subst (Restored pid b d) last
                        (release-Restored uid pid b s d d1 d1 taken (there1, λ j ne. refl)),
                  )
              | inl (p, sale) ↦
                  let o = new_order floats order_no uid req p in
                  let bought : buy store redis stamp o s d1 ≡ (err e, s', d') =
                    ground (arith, taken.0) in
                  let (d2, same, last, back) = buy-err stamp o b s s' d1 d' e there1 bought in
                  (
                    same,
                    subst (Restored pid b d) (sym last)
                        (release-Restored uid pid b s d d1 d2 taken back),
                  )
            ]
      ]

  -- With Redis reachable and a number in the counter of the product, or no counter, which counts as 0,
  -- whatever the reason for which a purchase is refused, the database is as before, the counter of
  -- the product has its old value, and every other key too, the lock of the user included.
  pub seckill_refused :
      (floats : Floats F) (stamp : Stamp) (order_no : String) (uid : ℕ) (req : CreateOrderRequest)
      (b : ℤ) (s s' : S) (d d' : D) (e : Error)
      → number_at (redis.view (stock_key req.product_id) d) ≡ some b
      → seckill store redis floats stamp order_no uid req s d ≡ (err e, s', d')
      → (s' ≡ s)
        × (number_at (redis.view (stock_key req.product_id) d') ≡ some b)
        × (redis.view (lock_key uid req.product_id) d' ≡ redis.view (lock_key uid req.product_id) d)
        × SameBut redis.view (stock_key req.product_id) d d'
  seckill_refused floats stamp order_no uid req b s s' d d' e there h =
      let (same, back) = refused floats stamp order_no uid req b s s' d d' e there h in
      (
        same,
        back.0,
        back.1 (lock_key uid req.product_id) refl,
        SameBut-of_others redis.view (stock_key req.product_id) d d' back.1,
      )
