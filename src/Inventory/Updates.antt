-- ===== src/Inventory/Updates.antt =====
-- The three guarded updates of internal/inventory/repository.go, as effects on the rows.
use distributed_software_hom.Prelude.{
  ℕ, zero, suc, Bool, true, ◌&&◌, ◌≡◌, ◌≢◌, arith, some, find?, count,
}
use distributed_software_hom.Prelude.Int.{ℤ}
use distributed_software_hom.Result.{
  Error, Result, ok, err, ◌>>=◌, optimistic_lock, nothing_to_return,
}
use distributed_software_hom.Database.{Table}
use distributed_software_hom.Database.Rows.{map_where, IsUnclashed, find?-map_where, guard-of_count}
use distributed_software_hom.Inventory.{
  Inventory, inventory_schema, for_product, lock_units, unlock_units, can_deduct, has_locked,
  affected_or, deduct_with_lock, return_stock,
}

pub affected_or-eq-ok :
    {S : Type 0} (m : Result (ℕ × S)) (e : Error) (s' : S)
    → (m >>= affected_or e) ≡ ok s'
    → (n : ℕ) × (m ≡ ok (suc n, s'))
affected_or-eq-ok (err e') e s' h = ground arith
affected_or-eq-ok (ok (zero, s)) e s' h = ground arith
affected_or-eq-ok (ok (suc n, s)) e s' h = (n, ground arith)

module _ {S : Type 0} (inventories : Table S Inventory inventory_schema) where
  -- What an UPDATE did that affected a row.
  abbrev pub Updated : (Inventory → Bool) → (Inventory → Inventory) → S → S → Type 0
  Updated p f s s' =
      (inventories.rows s' ≡ map_where p f (inventories.rows s))
      × (count p (inventories.rows s) ≢ 0)

  pub update-Updated :
      (p : Inventory → Bool) (f : Inventory → Inventory) (e : Error) (s s' : S)
      → (inventories.update p f s >>= affected_or e) ≡ ok s'
      → Updated p f s s'
  update-Updated p f e s s' h =
      let (n, u) = affected_or-eq-ok (inventories.update p f s) e s' h in
      (
        inventories.update_rows p f s (suc n) s' u,
        λ z. ground (arith, inventories.update_count p f s (suc n) s' u),
      )

  pub deduct_with_lock-Updated :
      (pid : ℕ) (q : ℤ) (v : ℕ) (s s' : S)
      → deduct_with_lock inventories pid q v s ≡ ok s'
      → Updated (can_deduct pid q v) (lock_units q) s s'
  unfolding deduct_with_lock
  deduct_with_lock-Updated pid q v s s' h =
      update-Updated (can_deduct pid q v) (lock_units q) optimistic_lock s s' h

  -- The one row of a product after an update by a guard on that product.
  pub row-Updated :
      (pid : ℕ) (g : Inventory → Bool) (f : Inventory → Inventory) (s s' : S) (r : Inventory)
      → ((x : Inventory) → for_product pid (f x) ≡ for_product pid x)
      → IsUnclashed inventory_schema.clash (inventories.rows s)
      → Updated (λ x. for_product pid x && g x) f s s'
      → find? (for_product pid) (inventories.rows s) ≡ some r
      → (g r ≡ true) × (find? (for_product pid) (inventories.rows s') ≡ some (f r))
  row-Updated pid g f s s' r same u (rows, n) e =
      let p = λ (x : Inventory). for_product pid x && g x in
      let passed : p r ≡ true =
        guard-of_count inventory_schema.clash (for_product pid) (λ a b ha hb. ground arith) p
          (inventories.rows s) r (λ x h. ground arith) u e n in
      (
        ground arith,
        ground (arith, rows, find?-map_where (for_product pid) p f same (inventories.rows s)),
      )

  pub return_stock-Updated :
      (pid : ℕ) (q : ℤ) (s s' : S)
      → return_stock inventories pid q s ≡ ok s'
      → (n : ℕ) × (inventories.update (has_locked pid q) (unlock_units q) s ≡ ok (suc n, s'))
        × Updated (has_locked pid q) (unlock_units q) s s'
  unfolding return_stock
  return_stock-Updated pid q s s' h =
      let (n, u) =
        affected_or-eq-ok (inventories.update (has_locked pid q) (unlock_units q) s)
          nothing_to_return s' h in
      (n, u, update-Updated (has_locked pid q) (unlock_units q) nothing_to_return s s' h)
