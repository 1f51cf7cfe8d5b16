-- ===== src/Result.antt =====
-- Go's `error` values and the pair (value, error). The sentinel errors are those of
-- internal/order/service.go, internal/inventory/{service,repository}.go and
-- internal/{product,user}/service.go; `errors.Is` is equality of sentinels.
use distributed_software_hom.Prelude.{ℕ, Bool, true, false, ◌≡◌, refl, ◌⊎◌, inl, inr, arith}

pub data Error : Type 0 where
  -- gorm.ErrRecordNotFound
  record_not_found : Error
  -- internal/inventory
  optimistic_lock inventory_not_found stock_insufficient : Error
  nothing_to_return nothing_to_confirm : Error
  -- internal/order and internal/product
  order_not_found order_not_pending not_order_owner : Error
  product_not_found order_product_not_found product_off_sale order_stock_insufficient
        duplicate_order :
      Error
  -- internal/user
  user_exists email_exists invalid_credentials user_not_found : Error
  -- redis.Nil
  redis_nil : Error
  -- an error of a driver, by a code
  external : ℕ → Error

pub data Result (A : Type 0) : Type 0 where
  ok : A → Result A
  err : Error → Result A

-- errors.Is(err, gorm.ErrRecordNotFound)
abbrev pub is_record_not_found : Error → Bool
is_record_not_found record_not_found = true
is_record_not_found _ = false

-- errors.Is(err, ErrOptimisticLock)
abbrev pub is_optimistic_lock : Error → Bool
is_optimistic_lock optimistic_lock = true
is_optimistic_lock _ = false

infixl 5 ◌>>=◌
abbrev pub ◌>>=◌ : {A B : Type 0} → Result A → (A → Result B) → Result B
ok a >>= f = f a
err e >>= f = err e

pub Result-cases :
    {A : Type 0} (call : Result A)
    → ((v : A) × (call ≡ ok v)) ⊎ ((problem : Error) × (call ≡ err problem))
Result-cases (ok v) = inl (v, refl)
Result-cases (err problem) = inr (problem, refl)

-- A chain that succeeds succeeds in its first step.
pub >>=-eq-ok :
    {A B : Type 0} (first : Result A) (next : A → Result B) {answer : B}
    → (first >>= next) ≡ ok answer
    → (v : A) × (first ≡ ok v) × (next v ≡ ok answer)
>>=-eq-ok (ok v) next done = (v, refl, done)
>>=-eq-ok (err problem) next done = ground arith

-- The same for a call that also returns a state.
pub Call-cases :
    {A D : Type 0} (c : Result A × D)
    → ((a : A) × (d : D) × (c ≡ (ok a, d))) ⊎ ((e : Error) × (d : D) × (c ≡ (err e, d)))
Call-cases (ok a, d) = inl (a, d, refl)
Call-cases (err e, d) = inr (e, d, refl)
