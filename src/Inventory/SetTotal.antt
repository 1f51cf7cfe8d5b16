-- ===== src/Inventory/SetTotal.antt =====
-- `SetInventory` of internal/inventory/service.go: an administrator sets the total of a product.
use distributed_software_hom.Prelude.{
  ℕ, ◌==◌, true, false, ◌≡◌, ◌≢◌, refl, some, arith, find?, if◌then◌else◌,
}
use distributed_software_hom.Prelude.Int.{ℤ, pos, ◌+ℤ◌, ◌-ℤ◌, ltb_ℤ}
use distributed_software_hom.Prelude.Word.{wrap64, Fits64, wrap64-of_fits}
use distributed_software_hom.Result.{Result, ok, err, is_record_not_found}
use distributed_software_hom.Database.{Table}
use distributed_software_hom.Database.Rows.{
  IsUnclashed, count-of_guard, find?-passes, find?-replace,
}
use distributed_software_hom.Inventory.{Inventory, inventory_schema, for_product, get_by_product_id}

abbrev pub new_inventory : ℕ → ℤ → Inventory
new_inventory pid total = record {
  id = 0;
  product_id = pid;
  total = total;
  available = total;
  locked = pos 0;
  version = 0;
}

-- `if inv.Available < 0 { inv.Available = 0 }`
abbrev pub at_least_zero : ℤ → ℤ
at_least_zero n = if ltb_ℤ n (pos 0) then pos 0 else n

unfoldable pub settled : ℤ → Inventory → Inventory
settled total inv =
    let diff = wrap64 (total -ℤ inv.total) in
    record inv { total = total; available = at_least_zero (wrap64 (inv.available +ℤ diff)) }

-- Where the difference of the totals and the new stock fit an `int`, the stock moves with the
-- total, and stops at zero.
settled_available :
    (total : ℤ) (inv : Inventory)
    → Fits64 (total -ℤ inv.total)
    → Fits64 (inv.available +ℤ (total -ℤ inv.total))
    → (settled total inv).available ≡ at_least_zero (inv.available +ℤ (total -ℤ inv.total))
unfolding settled
settled_available total inv h k =
    rw (wrap64-of_fits (total -ℤ inv.total) h)
      (rw (wrap64-of_fits (inv.available +ℤ (total -ℤ inv.total)) k) refl)

module _ {S : Type 0} (inventories : Table S Inventory inventory_schema) where
  -- `meanwhile` is what other transactions commit between the read and the write.
  unfoldable pub set_inventory : (S → S) → ℕ → ℤ → S → Result (Inventory × S)
  unfolding settled
  set_inventory meanwhile pid total s = elim (get_by_product_id inventories pid s) [
    | err e ↦ elim (is_record_not_found e) [
      | true ↦ inventories.save (new_inventory pid total) (meanwhile s)
      | false ↦ err e
    ]
    | ok inv ↦ inventories.save (settled total inv) (meanwhile s)
  ]

  module _ (meanwhile : S → S) (pid : ℕ) (total : ℤ) (s s' : S) (inv saved current : Inventory)
      (read : get_by_product_id inventories pid s ≡ ok inv) (has_id : inv.id ≢ 0)
      (same_row : current.id ≡ inv.id)
      (unique : IsUnclashed inventory_schema.clash (inventories.rows (meanwhile s)))
      (now : find? (for_product pid) (inventories.rows (meanwhile s)) ≡ some current)
      (done : set_inventory meanwhile pid total s ≡ ok (saved, s')) where
    saved_old : inventories.save (settled total inv) (meanwhile s) ≡ ok (saved, s')
    unfolding set_inventory
    saved_old = rw (read, set_inventory) at done

    -- Setting the total of a product that has a row replaces the row by one computed from what was
    -- read: whatever was committed between the read and the write, as long as the row kept its key
    -- and the table its unique keys, is overwritten.
    pub set_inventory_row :
        (saved ≡ settled total inv)
        × (find? (for_product pid) (inventories.rows s') ≡ some (settled total inv))
    unfolding settled get_by_product_id
    set_inventory_row =
        let (same, rows) =
          inventories.save_old (settled total inv) (meanwhile s) saved s' has_id
            (count-of_guard inventory_schema.clash (for_product pid) (λ a b ha hb. ground arith)
              (λ q. q.id == inv.id) (inventories.rows (meanwhile s)) current now (ground arith))
            saved_old in
        let mine : for_product pid inv ≡ true =
          find?-passes (for_product pid) (inventories.rows s) inv
            (inventories.first_ok (for_product pid) s inv read) in
        (
          same,
          rw rows (
              find?-replace inventory_schema.clash (for_product pid) (λ a b ha hb. ground arith)
                (λ q. q.id == inv.id) (settled total inv) (λ a b ha hb. ground arith) mine
                (inventories.rows (meanwhile s)) current unique now (ground arith)),
        )
