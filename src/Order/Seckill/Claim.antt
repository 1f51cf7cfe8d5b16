-- ===== src/Order/Seckill/Claim.antt =====
-- The idempotency lock of `Seckill` (internal/order/seckill_service.go) with Redis reachable.
use distributed_software_hom.Prelude.{
  ℕ, Bool, true, false, ◌≡◌, ◌≢◌, ◌⊎◌, inl, inr, refl, none, some, arith, ◌∙◌, ==_refl,
}
use distributed_software_hom.Result.{ok, err, duplicate_order}
use distributed_software_hom.Redis.{Redis, IsRedisUp, Key, text, lock_key, same_key}
use distributed_software_hom.Order.Store.{OrderStore}
use distributed_software_hom.Order.Seckill.{claim, release}

pub same_lock : (uid pid : ℕ) → same_key (lock_key uid pid) (lock_key uid pid) ≡ true
same_lock uid pid = ground (arith, ==_refl uid, ==_refl pid)

module _ {F S D : Type 0} (store : OrderStore F S) (redis : Redis D) (up : IsRedisUp redis) where
  -- The lock was free and has been taken, and no other key has changed.
  abbrev pub Taken : ℕ → ℕ → S → D → D → Type 0
  Taken uid pid s d d1 =
      (claim store redis uid pid s d ≡ (ok tt, d1))
      × (redis.view (lock_key uid pid) d ≡ none)
      × (redis.view (lock_key uid pid) d1 ≡ some (text "1"))
      × ((j : Key) → same_key (lock_key uid pid) j ≡ false → redis.view j d1 ≡ redis.view j d)

  -- The lock was held, and no key has changed.
  abbrev pub AlreadyHeld : ℕ → ℕ → S → D → D → Type 0
  AlreadyHeld uid pid s d d1 =
      (claim store redis uid pid s d ≡ (err duplicate_order, d1))
      × (redis.view (lock_key uid pid) d ≢ none)
      × ((j : Key) → redis.view j d1 ≡ redis.view j d)

  pub claim-up :
      (uid pid : ℕ) (s : S) (d : D) → (d1 : D) × (Taken uid pid s d d1 ⊎ AlreadyHeld uid pid s d d1)
  unfolding claim
  claim-up uid pid s d =
      let (b, d1, r) = up.set_nx_up (lock_key uid pid) (text "1") d in (d1, answer b d1 r)
    where
      answer :
          (b : Bool) (d1 : D)
          → redis.set_nx (lock_key uid pid) (text "1") d ≡ (ok b, d1)
          → Taken uid pid s d d1 ⊎ AlreadyHeld uid pid s d d1
      answer true d1 r =
          let (free, views) = redis.set_nx_new (lock_key uid pid) (text "1") d d1 r in
          inl (
            rw (r, claim) refl,
            free,
            views (lock_key uid pid) ∙ (rw (same_lock uid pid) refl),
            λ j ne. views j ∙ (rw ne refl),
          )
      answer false d1 r =
          let (held, views) = redis.set_nx_old (lock_key uid pid) (text "1") d d1 r in
          inr (rw (r, claim) refl, held, views)

  -- With Redis reachable the lock is free after its release, and no other key changed.
  pub release-up :
      (uid pid : ℕ) (d : D)
      → (redis.view (lock_key uid pid) (release redis uid pid d) ≡ none)
        × ((j : Key)
            → same_key (lock_key uid pid) j ≡ false
            → redis.view j (release redis uid pid d) ≡ redis.view j d)
  unfolding release
  release-up uid pid d =
      let (d1, r) = up.del_up (lock_key uid pid) d in
      let views = redis.del_ok (lock_key uid pid) d d1 r in
      (
        rw (r, release) (views (lock_key uid pid) ∙ (rw (same_lock uid pid) refl)),
        λ j ne. rw (r, release) (views j ∙ (rw ne refl)),
      )
