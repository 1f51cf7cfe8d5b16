-- ===== src/Inventory/RedisStock.antt =====
-- The stock counters in Redis: `PreloadStock`, `DeductRedis` and `RollbackRedis` of
-- internal/inventory/service.go.
pub mod Race
use distributed_software_hom.Prelude.{
  ℕ, true, false, ◌≡◌, refl, inl, inr, some, arith, Bool-cases, ==_refl, sym, ap, subst, ◌∙◌,
  if◌then◌else◌,
}
use distributed_software_hom.Prelude.Int.{
  ℤ, pos, ◌+ℤ◌, ◌-ℤ◌, ◌≤ℤ◌, ltb_ℤ, int_laws, sub-negative, sub-covered, sub_add_cancel,
}
use distributed_software_hom.Result.{Result, ok, err, stock_insufficient}
use distributed_software_hom.Database.{Table}
use distributed_software_hom.Redis.{
  Redis, IsRedisUp, Key, stock_key, number, number_at, same_key, SameBut, SameBut-of_others,
}
use distributed_software_hom.Inventory.{Inventory, inventory_schema, get_by_product_id}

module _ {D : Type 0} (redis : Redis D) where
  unfoldable pub preload_stock :
      {S : Type 0} → Table S Inventory inventory_schema → ℕ → S → D → Result (Unit {0}) × D
  preload_stock inventories pid s d = elim (get_by_product_id inventories pid s) [
    | err e ↦ (err e, d)
    | ok inv ↦ redis.set (stock_key pid) (number inv.available) d
  ]

  unfoldable pub rollback_redis : ℕ → ℤ → D → D
  rollback_redis pid q d = (redis.incr_by (stock_key pid) q d).1

  -- The caller of DECRBY with the reply.
  abbrev pub after_decr : ℕ → ℤ → Result ℤ × D → Result (Unit {0}) × D
  after_decr pid q (err e, d) = (err e, d)
  after_decr pid q (ok result, d) =
      if ltb_ℤ result (pos 0)
      then (err stock_insufficient, (redis.incr_by (stock_key pid) q d).1)
      else (ok tt, d)

  unfoldable pub deduct_redis : ℕ → ℤ → D → Result (Unit {0}) × D
  deduct_redis pid q d = after_decr pid q (redis.decr_by (stock_key pid) q d)

  after_decr-ok :
      (pid : ℕ) (q : ℤ) (p : Result ℤ × D) (d' : D)
      → after_decr pid q p ≡ (ok tt, d')
      → (m : ℤ) × (p ≡ (ok m, d')) × (ltb_ℤ m (pos 0) ≡ false)
  after_decr-ok pid q (err e, d) d' h = ground arith
  after_decr-ok pid q (ok m, d) d' h = elim (Bool-cases (ltb_ℤ m (pos 0))) [
    | inl below ↦ ground arith
    | inr fits ↦ (m, ground arith, fits)
  ]

  -- A deduction that succeeds took the quantity from a counter that covered it, and changed
  -- no other key.
  pub deduct_redis_ok :
      (pid : ℕ) (q : ℤ) (d d' : D)
      → deduct_redis pid q d ≡ (ok tt, d')
      → (b : ℤ) × (number_at (redis.view (stock_key pid) d) ≡ some b)
        × (q ≤ℤ b)
        × (redis.view (stock_key pid) d' ≡ some (number (b -ℤ q)))
        × ((j : Key) → same_key (stock_key pid) j ≡ false → redis.view j d' ≡ redis.view j d)
  unfolding deduct_redis
  deduct_redis_ok pid q d d' h =
      let (m, decr, fits) = after_decr-ok pid q (redis.decr_by (stock_key pid) q d) d' h in
      let (b, there, eq, views) = redis.decr_by_ok (stock_key pid) q m d d' decr in
      let covers : pos 0 ≤ℤ m = ground arith in
      (
        b,
        there,
        omega (int_laws, subst (λ x. pos 0 ≤ℤ x) eq covers),
        views (stock_key pid) ∙ (rw (==_refl pid) (ap (λ x. some (number x)) eq)),
        λ j ne. views j ∙ (rw ne refl),
      )

  module _ (up : IsRedisUp redis) where
    -- With the server reachable, a deduction is refused exactly if the counter does not cover the
    -- quantity, and then the increment that follows has put the counter back.
    pub deduct_redis_refuses :
        (pid : ℕ) (q b : ℤ) (d : D)
        → number_at (redis.view (stock_key pid) d) ≡ some b
        → ltb_ℤ b q ≡ true
        → (d' : D) × (deduct_redis pid q d ≡ (err stock_insufficient, d'))
          × (redis.view (stock_key pid) d' ≡ some (number b))
          × ((j : Key) → same_key (stock_key pid) j ≡ false → redis.view j d' ≡ redis.view j d)
    unfolding deduct_redis
    deduct_redis_refuses pid q b d there short =
        let k = stock_key pid in
        let (m, d1, decr) = up.decr_by_up k q b d there in
        let (b0, at0, eq, views) = redis.decr_by_ok k q m d d1 decr in
        let same : b0 ≡ b = ground (arith, at0, there) in
        let now : redis.view k d1 ≡ some (number m) = views k ∙ (rw (==_refl pid) refl) in
        let (m', d2, incr) = up.incr_by_up k q m d1 (rw now refl) in
        let (b1, at1, eq', views') = redis.incr_by_ok k q m' d1 d2 incr in
        let same' : b1 ≡ m = let e : some b1 ≡ some m = sym at1 ∙ (rw now refl) in ground arith in
        let diff : m ≡ b -ℤ q = eq ∙ ap (λ x. x -ℤ q) same in
        let below : ltb_ℤ m (pos 0) ≡ true = rw diff (sub-negative b q short) in
        let whole : m' ≡ b = eq' ∙ (ap (λ x. x +ℤ q) (same' ∙ diff) ∙ sub_add_cancel b q) in
        (
          d2,
          rw decr (rw below (rw incr refl)),
          views' k ∙ (rw (==_refl pid) (ap (λ x. some (number x)) whole)),
          λ j ne. views' j ∙ (rw ne (views j ∙ (rw ne refl))),
        )

    -- With the server reachable `RollbackRedis` undoes a deduction that succeeded.
    pub rollback-deduct_redis :
        (pid : ℕ) (q : ℤ) (d d' : D)
        → deduct_redis pid q d ≡ (ok tt, d')
        → (b : ℤ) × (number_at (redis.view (stock_key pid) d) ≡ some b)
          × (redis.view (stock_key pid) (rollback_redis pid q d') ≡ some (number b))
          × ((j : Key)
              → same_key (stock_key pid) j ≡ false
              → redis.view j (rollback_redis pid q d') ≡ redis.view j d)
    unfolding rollback_redis
    rollback-deduct_redis pid q d d' h =
        let k = stock_key pid in
        let (b, there, covers, now, others) = deduct_redis_ok pid q d d' h in
        let (m, d2, incr) = up.incr_by_up k q (b -ℤ q) d' (rw now refl) in
        let (b1, at1, eq, views) = redis.incr_by_ok k q m d' d2 incr in
        let same : b1 ≡ b -ℤ q =
          let e : some b1 ≡ some (b -ℤ q) = sym at1 ∙ (rw now refl) in ground arith in
        let whole : m ≡ b = eq ∙ (ap (λ x. x +ℤ q) same ∙ sub_add_cancel b q) in
        (
          b,
          there,
          rw (incr, rollback_redis)
              (views k ∙ (rw (==_refl pid) (ap (λ x. some (number x)) whole))),
          λ j ne. rw (incr, rollback_redis) (views j ∙ (rw ne (others j ne))),
        )

    -- A counter that covers the quantity is decremented.
    pub deduct_redis_accepts :
        (pid : ℕ) (q b : ℤ) (d : D)
        → number_at (redis.view (stock_key pid) d) ≡ some b
        → ltb_ℤ b q ≡ false
        → (d' : D) × (deduct_redis pid q d ≡ (ok tt, d'))
    unfolding deduct_redis
    deduct_redis_accepts pid q b d there covers =
        let (m, d1, decr) = up.decr_by_up (stock_key pid) q b d there in
        let (b0, at0, eq, views) = redis.decr_by_ok (stock_key pid) q m d d1 decr in
        let same : b0 ≡ b = ground (arith, at0, there) in
        let diff : m ≡ b -ℤ q = eq ∙ ap (λ x. x -ℤ q) same in
        let fits : ltb_ℤ m (pos 0) ≡ false = rw diff (sub-covered b q covers) in
        (d1, rw (decr, deduct_redis) (rw fits refl))

    -- With the server reachable and a number in the counter, or no counter, which counts as 0, a
    -- deduction succeeds exactly if the counter covers the quantity; it
    -- then lowers the counter by the quantity, and otherwise puts it back; no other key changes.
    pub deduct_redis_exact :
        (pid : ℕ) (q b : ℤ) (d : D)
        → number_at (redis.view (stock_key pid) d) ≡ some b
        → (d' : D) × (deduct_redis pid q d
            ≡ ((if ltb_ℤ b q then err stock_insufficient else ok tt), d'))
          × (redis.view (stock_key pid) d' ≡ some (number (if ltb_ℤ b q then b else (b -ℤ q))))
          × SameBut redis.view (stock_key pid) d d'
    deduct_redis_exact pid q b d there = elim (Bool-cases (ltb_ℤ b q)) [
      | inl short ↦
          let (d', r, now, others) = deduct_redis_refuses pid q b d there short in
          (d', rw short r, rw short now, SameBut-of_others redis.view (stock_key pid) d d' others)
      | inr covers ↦
          let (d', r) = deduct_redis_accepts pid q b d there covers in
          let (b', there', le, now, others) = deduct_redis_ok pid q d d' r in
          let same : b' ≡ b = let e : some b' ≡ some b = sym there' ∙ there in ground arith in
          (
            d',
            rw covers r,
            rw covers (now ∙ ap (λ x. some (number (x -ℤ q))) same),
            SameBut-of_others redis.view (stock_key pid) d d' others,
          )
    ]
