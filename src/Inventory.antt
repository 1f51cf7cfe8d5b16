-- ===== src/Inventory.antt =====
-- internal/inventory/{model,repository,service}.go: the stock of each product in SQL, with an
-- optimistic lock. Go's `int` is an integer; timestamps are left out.
pub mod Updates
pub mod Stocked
pub mod Deduct
pub mod SetTotal
pub mod RedisStock
pub mod Events
pub mod Handler
use distributed_software_hom.Prelude.{ℕ, zero, suc, ◌+◌, Bool, true, false, ◌&&◌, ◌||◌, ◌==◌}
use distributed_software_hom.Prelude.Int.{ℤ, ◌+ℤ◌, ◌-ℤ◌, leb_ℤ, ltb_ℤ}
use distributed_software_hom.Result.{
  Error, Result, ok, err, ◌>>=◌, record_not_found, optimistic_lock, is_optimistic_lock,
  inventory_not_found, stock_insufficient, nothing_to_return, nothing_to_confirm,
}
use distributed_software_hom.Database.{Schema, Table}

pub record Inventory : Type 0 where
  pub id : ℕ
  pub product_id : ℕ
  pub total : ℤ
  pub available : ℤ
  pub locked : ℤ
  pub version : ℕ  -- optimistic lock

-- `primaryKey`, and `uniqueIndex` on ProductID
abbrev pub inventory_schema : Schema Inventory
inventory_schema = record {
  id_of = λ r. r.id;
  with_id = λ i r. record r { id = i };
  clash = λ a b. a.id == b.id || a.product_id == b.product_id;
}

abbrev pub max_deduct_retries : ℕ
max_deduct_retries = 3

-- "product_id = ?"
abbrev pub for_product : ℕ → Inventory → Bool
for_product pid r = r.product_id == pid

-- The columns that DeductWithLock, ReturnStock and ConfirmDeduction assign.
abbrev pub lock_units : ℤ → Inventory → Inventory
lock_units q r = record r {
  available = r.available -ℤ q;
  locked = r.locked +ℤ q;
  version = r.version + 1;
}

abbrev pub unlock_units : ℤ → Inventory → Inventory
unlock_units q r = record r {
  available = r.available +ℤ q;
  locked = r.locked -ℤ q;
  version = r.version + 1;
}

abbrev pub sell_units : ℤ → Inventory → Inventory
sell_units q r = record r { locked = r.locked -ℤ q; version = r.version + 1 }

-- "product_id = ? AND available >= ? AND version = ?"
abbrev pub can_deduct : ℕ → ℤ → ℕ → Inventory → Bool
can_deduct pid q v r = for_product pid r && (leb_ℤ q r.available && r.version == v)

-- "product_id = ? AND locked >= ?"
abbrev pub has_locked : ℕ → ℤ → Inventory → Bool
has_locked pid q r = for_product pid r && leb_ℤ q r.locked

-- An UPDATE that affects no row is the error `e`.
abbrev pub affected_or : {S : Type 0} → Error → ℕ × S → Result S
affected_or e (zero, s) = err e
affected_or e (suc n, s) = ok s

-- `if errors.Is(err, gorm.ErrRecordNotFound) { return ErrInventoryNotFound }; return err`
unfoldable pub not_found_as_inventory : Error → Error
not_found_as_inventory record_not_found = inventory_not_found
not_found_as_inventory e = e

-- Nobody else writes between a read and a write.
abbrev pub no_others : {S : Type 0} → ℕ → S → S
no_others i s = s

module _ {S : Type 0} (inventories : Table S Inventory inventory_schema) where
  unfoldable pub get_by_product_id : ℕ → S → Result Inventory
  get_by_product_id pid s = inventories.first (for_product pid) s

  unfoldable pub deduct_with_lock : ℕ → ℤ → ℕ → S → Result S
  deduct_with_lock pid q v s =
      inventories.update (can_deduct pid q v) (lock_units q) s >>= affected_or optimistic_lock

  unfoldable pub return_stock : ℕ → ℤ → S → Result S
  return_stock pid q s =
      inventories.update (has_locked pid q) (unlock_units q) s >>= affected_or nothing_to_return

  unfoldable pub confirm_deduction : ℕ → ℤ → S → Result S
  confirm_deduction pid q s =
      inventories.update (has_locked pid q) (sell_units q) s >>= affected_or nothing_to_confirm

  -- The loop of Deduct with the rounds left. `others i` is what other transactions commit between
  -- the read and the write of round `i`.
  module _ (others : ℕ → S → S) where
    unfoldable pub deduct_from : ℕ → ℕ → ℕ → ℤ → S → Result (Unit {0}) × S
    deduct_from zero i pid q s = (err stock_insufficient, s)
    deduct_from (suc rounds) i pid q s = elim (get_by_product_id pid s) [
      | err e ↦ (err (not_found_as_inventory e), s)
      | ok inv ↦ elim (ltb_ℤ inv.available q) [
        | true ↦ (err stock_insufficient, s)
        | false ↦ elim (deduct_with_lock pid q inv.version (others i s)) [
          | ok s' ↦ (ok tt, s')
          | err e ↦ elim (is_optimistic_lock e) [
            | true ↦ deduct_from rounds (i + 1) pid q (others i s)
            | false ↦ (err e, others i s)
          ]
        ]
      ]
    ]

    unfoldable pub deduct : ℕ → ℤ → S → Result (Unit {0}) × S
    deduct pid q s = deduct_from max_deduct_retries 0 pid q s
