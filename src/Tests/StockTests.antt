-- ===== src/Tests/StockTests.antt =====
-- internal/inventory: runs of the stock operations.
use distributed_software_hom.Prelude.{ℕ, ◌<◌, zero, suc, refl, arith}
use distributed_software_hom.Prelude.Int.{pos, ◌-ℤ◌}
use distributed_software_hom.Database.Memory
use distributed_software_hom.Database.Rows.{map_where}
use distributed_software_hom.Inventory.{
  for_product, lock_units, no_others, deduct, deduct_from, get_by_product_id, deduct_with_lock,
}
use distributed_software_hom.Inventory.Deduct.{HasWon, before_round, deduct_once}
use distributed_software_hom.Inventory.Stocked.{IsStocked, deduct-IsStocked}
use distributed_software_hom.Tests.World.{World, world, inventories}

-- Another customer takes a lamp before the first write; then nobody comes.
abbrev one_other : ℕ → World → World
one_other zero w = record w {
  inventories = map_where (for_product 5) (lock_units (pos 1)) w.inventories;
}
one_other (suc i) w = w

abbrev deducted : World
deducted = (deduct inventories one_other 5 (pos 2) world).1

deduct_once_example :
    (k : ℕ) × (k < 3)
    × HasWon inventories one_other 5
        (pos 2)
        (before_round inventories one_other k 0 world)
        (before_round inventories one_other (suc k) 0 world)
        deducted
unfolding deduct deduct_from get_by_product_id deduct_with_lock Memory.table Memory.first
    Memory.update ◌-ℤ◌
deduct_once_example = deduct_once inventories one_other 5 (pos 2) world deducted refl

lamps_IsStocked : IsStocked inventories world
unfolding Memory.table
lamps_IsStocked = ((omega arith, omega arith), tt)

deduct-IsStocked_example : IsStocked inventories (deduct inventories no_others 5 (pos 2) world).1
deduct-IsStocked_example =
    deduct-IsStocked inventories no_others (λ i s h. h) 5 (pos 2) world (omega arith)
      lamps_IsStocked
