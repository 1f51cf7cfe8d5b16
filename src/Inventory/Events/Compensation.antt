-- ===== src/Inventory/Events/Compensation.antt =====
-- The compensation of an order in the inventory service (internal/inventory/event_handler.go):
-- ORDER_CANCELLED returns units by quantity alone, also those of an order that never got any.
use distributed_software_hom.Prelude.{ℕ, true, ◌≡◌, refl, some, arith, find?, sym, ◌∙◌}
use distributed_software_hom.Prelude.Int.{ℤ, leb_ℤ}
use distributed_software_hom.Result.{Error, ok, ◌>>=◌, nothing_to_return}
use distributed_software_hom.Database.{IsUp, KeepsKeys}
use distributed_software_hom.Database.Rows.{IsUnclashed, count-of_guard, find?-passes}
use distributed_software_hom.Redis.{Redis}
use distributed_software_hom.Inventory.{
  Inventory, inventory_schema, for_product, unlock_units, has_locked, affected_or, return_stock,
}
use distributed_software_hom.Inventory.Updates.{row-Updated, return_stock-Updated}
use distributed_software_hom.Inventory.Deduct.{affected_or-done}
use distributed_software_hom.Inventory.Events.{InventoryStore, returned}

module _ {F S : Type 0} (store : InventoryStore F S) where
  open store use {inventories}

  -- The row of a product.
  abbrev pub IsRowOf : ℕ → Inventory → S → Type 0
  IsRowOf pid inv s = find? (for_product pid) (inventories.rows s) ≡ some inv

  -- An update of the row of a product succeeds if that many units are locked.
  pub locked_done :
      (pid : ℕ) (q : ℤ) (f : Inventory → Inventory) (e : Error) (inv : Inventory) (s : S)
      → KeepsKeys inventory_schema f
      → IsUp inventories s
      → IsRowOf pid inv s
      → leb_ℤ q inv.locked ≡ true
      → (s' : S) × ((inventories.update (has_locked pid q) f s >>= affected_or e) ≡ ok s')
  locked_done pid q f e inv s keeps up row enough =
      let g = has_locked pid q in
      let (n, s', u) = up.update_done g f keeps in
      let passes : g inv ≡ true =
        ground (arith, find?-passes (for_product pid) (inventories.rows s) inv row) in
      let some_row =
        count-of_guard inventory_schema.clash (for_product pid) (λ a b ha hb. ground arith) g
          (inventories.rows s) inv row passes in
      (
        s',
        rw u (
            affected_or-done inventories n e s'
              (λ z. some_row (sym (inventories.update_count g f s n s' u) ∙ z))),
      )

  -- A cancelled quantity goes back to available as soon as that many units are locked by anyone.
  pub returned_row :
      (pid : ℕ) (q : ℤ) (inv : Inventory) (s : S)
      → IsUp inventories s
      → IsUnclashed inventory_schema.clash (inventories.rows s)
      → IsRowOf pid inv s
      → leb_ℤ q inv.locked ≡ true
      → IsRowOf pid (unlock_units q inv) (returned store pid q s)
  unfolding returned return_stock
  returned_row pid q inv s up unique row enough =
      let (s', r) =
        locked_done pid q (unlock_units q) nothing_to_return inv s (λ a b. (refl, refl)) up row
          enough in
      let (n, u, updated) = return_stock-Updated inventories pid q s s' r in
      rw (r, returned)
        (row-Updated inventories pid (λ x. leb_ℤ q x.locked) (λ x. unlock_units q x) s s' inv
          (λ x. refl) unique updated row).1
