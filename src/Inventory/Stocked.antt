-- ===== src/Inventory/Stocked.antt =====
-- No oversell: every guarded update of internal/inventory/repository.go and the whole of `Deduct`
-- keep the stock columns from going below zero.
use distributed_software_hom.Prelude.{ℕ, zero, suc, true, Bool, ◌≡◌, inl, inr, All, Bool-cases, ◌+◌}
use distributed_software_hom.Prelude.Int.{ℤ, pos, ◌≤ℤ◌, ltb_ℤ, int_laws}
use distributed_software_hom.Result.{
  ok, is_optimistic_lock, nothing_to_return, nothing_to_confirm, Result-cases,
}
use distributed_software_hom.Database.{Table}
use distributed_software_hom.Database.Rows.{All-map_where}
use distributed_software_hom.Inventory.{
  Inventory, inventory_schema, lock_units, unlock_units, sell_units, can_deduct, has_locked,
  get_by_product_id, deduct_with_lock, return_stock, confirm_deduction, deduct_from, deduct,
  max_deduct_retries,
}
use distributed_software_hom.Inventory.Updates.{Updated, update-Updated, deduct_with_lock-Updated}

-- Neither column of a row is negative.
abbrev pub InStock : Inventory → Type 0
InStock r = (pos 0 ≤ℤ r.available) × (pos 0 ≤ℤ r.locked)

lock_units-InStock :
    (pid : ℕ) (q : ℤ) (v : ℕ) (r : Inventory)
    → pos 0 ≤ℤ q
    → InStock r
    → can_deduct pid q v r ≡ true
    → InStock (lock_units q r)
lock_units-InStock pid q v r h i g = grind int_laws

module _ {S : Type 0} (inventories : Table S Inventory inventory_schema) where
  abbrev pub IsStocked : S → Type 0
  IsStocked s = All InStock (inventories.rows s)

  update-IsStocked :
      (p : Inventory → Bool) (f : Inventory → Inventory) (s s' : S)
      → ((r : Inventory) → InStock r → p r ≡ true → InStock (f r))
      → Updated inventories p f s s'
      → IsStocked s
      → IsStocked s'
  update-IsStocked p f s s' keep u h =
      rw u.0 (All-map_where InStock p f keep (inventories.rows s) h)

  pub deduct_with_lock-IsStocked :
      (pid : ℕ) (q : ℤ) (v : ℕ) (s s' : S)
      → pos 0 ≤ℤ q
      → IsStocked s
      → deduct_with_lock inventories pid q v s ≡ ok s'
      → IsStocked s'
  deduct_with_lock-IsStocked pid q v s s' n h e =
      update-IsStocked (can_deduct pid q v) (lock_units q) s s'
        (λ r. lock_units-InStock pid q v r n) (deduct_with_lock-Updated inventories pid q v s s' e)
        h

  -- A return of a quantity of zero or more that succeeds keeps the stock columns at zero or more.
  pub return_stock-IsStocked :
      (pid : ℕ) (q : ℤ) (s s' : S)
      → pos 0 ≤ℤ q
      → IsStocked s
      → return_stock inventories pid q s ≡ ok s'
      → IsStocked s'
  unfolding return_stock
  return_stock-IsStocked pid q s s' n h e =
      update-IsStocked (has_locked pid q) (unlock_units q) s s' (λ r i g. grind int_laws)
        (update-Updated inventories (has_locked pid q) (unlock_units q) nothing_to_return s s' e) h

  pub confirm_deduction-IsStocked :
      (pid : ℕ) (q : ℤ) (s s' : S)
      → pos 0 ≤ℤ q
      → IsStocked s
      → confirm_deduction inventories pid q s ≡ ok s'
      → IsStocked s'
  unfolding confirm_deduction
  confirm_deduction-IsStocked pid q s s' n h e =
      update-IsStocked (has_locked pid q) (sell_units q) s s' (λ r i g. grind int_laws)
        (update-Updated inventories (has_locked pid q) (sell_units q) nothing_to_confirm s s' e) h

  module _ (others : ℕ → S → S)
      (keep : (i : ℕ) (s : S) → IsStocked s → IsStocked (others i s)) where
    deduct_from-IsStocked :
        (rounds i pid : ℕ) (q : ℤ) (s : S)
        → pos 0 ≤ℤ q
        → IsStocked s
        → IsStocked (deduct_from inventories others rounds i pid q s).1
    unfolding deduct_from
    deduct_from-IsStocked zero i pid q s n h = h
    deduct_from-IsStocked (suc rounds) i pid q s n h =
        elim (Result-cases (get_by_product_id inventories pid s)) [
          | inr (e, p) ↦ rw (p, deduct_from) h
          | inl (inv, p) ↦ elim (Bool-cases (ltb_ℤ inv.available q)) [
            | inl short ↦ rw (p, deduct_from) (rw short h)
            | inr enough ↦
                elim (Result-cases (deduct_with_lock inventories pid q inv.version (others i s))) [
                  | inl (s', w) ↦
                      rw (p, deduct_from)
                        (rw enough (
                          rw w (
                            deduct_with_lock-IsStocked pid q inv.version (others i s) s' n
                              (keep i s h) w)))
                  | inr (e, w) ↦
                      rw (p, deduct_from)
                        (rw enough (
                          rw w (elim (Bool-cases (is_optimistic_lock e)) [
                            | inl conflict ↦ rw conflict (
                                deduct_from-IsStocked rounds (i + 1) pid q (others i s) n
                                  (keep i s h))
                            | inr other ↦ rw other (keep i s h)
                          ])))
                ]
          ]
        ]

    -- Whatever the outcome of `Deduct` of a quantity of zero or more, and whatever the other transactions commit between its reads
    -- and writes as long as they keep the stock columns at zero or more, they stay at zero or more.
    pub deduct-IsStocked :
        (pid : ℕ) (q : ℤ) (s : S)
        → pos 0 ≤ℤ q
        → IsStocked s
        → IsStocked (deduct inventories others pid q s).1
    unfolding deduct
    deduct-IsStocked pid q s n h = deduct_from-IsStocked max_deduct_retries 0 pid q s n h
