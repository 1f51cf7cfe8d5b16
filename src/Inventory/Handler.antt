-- ===== src/Inventory/Handler.antt =====
-- internal/inventory/handler.go, and GetByProductID of the service.
use distributed_software_hom.Prelude.{ℕ, String, Option, none, some}
use distributed_software_hom.Prelude.Int.{ℤ}
use distributed_software_hom.Result.{
  Error, Result, ok, err, inventory_not_found, stock_insufficient,
}
use distributed_software_hom.Database.{Table}
use distributed_software_hom.Http.{Reply, success_nil, error, bad_request, respond}
use distributed_software_hom.Http.Number.{parse_uint}
use distributed_software_hom.Inventory.{
  Inventory, inventory_schema, not_found_as_inventory, get_by_product_id, deduct,
}
use distributed_software_hom.Inventory.SetTotal.{set_inventory}

abbrev pub deduct_code : Error → ℕ
deduct_code inventory_not_found = 404
deduct_code stock_insufficient = 409
deduct_code e = 500

abbrev pub inventory_code : Error → ℕ
inventory_code inventory_not_found = 404
inventory_code e = 500

abbrev pub any_code : Error → ℕ
any_code e = 500

module _ {S : Type 0} (inventories : Table S Inventory inventory_schema) where
  unfoldable pub get_inventory : ℕ → S → Result Inventory
  get_inventory pid s = elim (get_by_product_id inventories pid s) [
    | ok inv ↦ ok inv
    | err e ↦ err (not_found_as_inventory e)
  ]

  -- The path parameter `product_id`.
  unfoldable pub handle_get_inventory : String → S → Reply Inventory
  handle_get_inventory pid s = elim (parse_uint pid) [
    | none ↦ bad_request
    | some n ↦ respond inventory_code (get_inventory n s)
  ]

  -- `meanwhile` is what other transactions commit inside SetInventory.
  abbrev pub set_by : (S → S) → ℕ → Option ℤ → S → Reply Inventory × S
  set_by meanwhile pid none s = (bad_request, s)
  set_by meanwhile pid (some total) s = elim (set_inventory inventories meanwhile pid total s) [
    | err e ↦ (error 500, s)
    | ok (inv, s') ↦ (respond any_code (ok inv), s')
  ]

  -- The body holds the total.
  unfoldable pub handle_set_inventory : (S → S) → String → Option ℤ → S → Reply Inventory × S
  handle_set_inventory meanwhile pid body s = elim (parse_uint pid) [
    | none ↦ (bad_request, s)
    | some n ↦ set_by meanwhile n body s
  ]

  abbrev pub deducted_reply : Result (Unit {0}) → Reply (Unit {0})
  deducted_reply (ok _) = success_nil
  deducted_reply (err e) = error (deduct_code e)

  abbrev pub deducted_by : (ℕ → S → S) → ℕ → Option ℤ → S → Reply (Unit {0}) × S
  deducted_by others pid none s = (bad_request, s)
  deducted_by others pid (some q) s =
      let (r, s') = deduct inventories others pid q s in (deducted_reply r, s')

  -- The body holds the quantity; `others` is what other transactions commit inside Deduct.
  unfoldable pub handle_deduct : (ℕ → S → S) → String → Option ℤ → S → Reply (Unit {0}) × S
  handle_deduct others pid body s = elim (parse_uint pid) [
    | none ↦ (bad_request, s)
    | some n ↦ deducted_by others n body s
  ]
