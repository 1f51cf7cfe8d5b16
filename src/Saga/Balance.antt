-- ===== src/Saga/Balance.antt =====
-- What STOCK_DEDUCTED events promise and what leaves the stock of cmd/inventory-service, in a run of
-- the saga in which no order is cancelled.
pub mod Runs
pub mod Sold
use distributed_software_hom.Prelude.{
  ℕ, suc, Bool, true, false, ◌&&◌, ◌≡◌, ◌≢◌, refl, sym, ap, ap₂, ◌∙◌, subst, inl, inr, Option-cases,
  Bool-cases, none, some, List, [], ◌∷◌, ◌++◌, ◌==◌, if◌then◌else◌, arith, All, find?, count,
  ==_iff,
}
use distributed_software_hom.Prelude.Int.{ℤ, pos, ◌+ℤ◌, ◌-ℤ◌, leb_ℤ, int_laws, sub_add_cancel}
use distributed_software_hom.Database.Rows.{
  map_where, map_where-none, IsUnclashed, find?-map_where, find?-passes, find?-none-All,
  All-count_zero, All-imp, All-map_where,
}
use distributed_software_hom.Event.{
  Payload, created, completed, cancelled, requested, deducted, deduct_failed, paid, not_paid,
}
use distributed_software_hom.Inventory.{
  Inventory, inventory_schema, for_product, can_deduct, lock_units, sell_units,
}

+ℤ-zero : (z : ℤ) → z +ℤ pos 0 ≡ z
+ℤ-zero z = omega int_laws

-- The available units of a product.
abbrev pub available_of : ℕ → List Inventory → ℤ
available_of pid rs = elim (find? (for_product pid) rs) [ none ↦ pos 0 | some r ↦ r.available ]

module _ {F : Type 0} where
  abbrev pub deducted_by : ℕ → Payload F → ℤ
  deducted_by pid (deducted d) = if d.product_id == pid then d.quantity else pos 0
  deducted_by pid _ = pos 0

  -- The units of a product that the events promise.
  abbrev pub deducted_of : ℕ → List (Payload F) → ℤ
  deducted_of pid [] = pos 0
  deducted_of pid (p ∷ ps) = deducted_by pid p +ℤ deducted_of pid ps

  pub deducted_of-append :
      (pid : ℕ) (ps : List (Payload F)) (p : Payload F)
      → deducted_of pid (ps ++ p ∷ []) ≡ deducted_of pid ps +ℤ deducted_by pid p
  deducted_of-append pid [] p = omega int_laws
  deducted_of-append pid (q ∷ ps) p =
      ap (λ z. deducted_by pid q +ℤ z) (deducted_of-append pid ps p) ∙ omega int_laws

apart-map_where :
    (p : Inventory → Bool) (f : Inventory → Inventory) (r : Inventory)
    → ((x : Inventory) → (f x).id ≡ x.id)
    → ((x : Inventory) → (f x).product_id ≡ x.product_id)
    → (rs : List Inventory) → All (λ x. inventory_schema.clash r x ≡ false) rs
    → All (λ x. inventory_schema.clash r x ≡ false) (map_where p f rs)
apart-map_where p f r ids pids rs h =
    All-map_where (λ x. inventory_schema.clash r x ≡ false) p f
      (λ x free _. rw (ids x, pids x) free) rs h

-- An update that keeps the products keeps the unique keys.
pub IsUnclashed-map_where :
    (p : Inventory → Bool) (f : Inventory → Inventory)
    → ((r : Inventory) → (f r).id ≡ r.id)
    → ((r : Inventory) → (f r).product_id ≡ r.product_id)
    → (rs : List Inventory) → IsUnclashed inventory_schema.clash rs
    → IsUnclashed inventory_schema.clash (map_where p f rs)
IsUnclashed-map_where p f ids pids [] u = tt
IsUnclashed-map_where p f ids pids (r ∷ rs) u = elim (Bool-cases (p r)) [
  | inl mine ↦ rw mine (
    apart-map_where p f (f r) ids pids rs (
        All-imp (λ x. inventory_schema.clash r x ≡ false)
          (λ x. inventory_schema.clash (f r) x ≡ false) (λ x free. rw (ids r, pids r) free) rs u.0),
    IsUnclashed-map_where p f ids pids rs u.1,
  )
  | inr other ↦
      rw other (apart-map_where p f r ids pids rs u.0, IsUnclashed-map_where p f ids pids rs u.1)
]

-- An update that keeps the available units of the rows.
pub available_of-kept :
    (k : ℕ) (p : Inventory → Bool) (f : Inventory → Inventory)
    → ((r : Inventory) → (f r).product_id ≡ r.product_id)
    → ((r : Inventory) → (f r).available ≡ r.available)
    → (rs : List Inventory) → available_of k (map_where p f rs) ≡ available_of k rs
available_of-kept k p f pids same [] = refl
available_of-kept k p f pids same (r ∷ rs) =
    ground (arith, pids r, same r, available_of-kept k p f pids same rs)

-- The other rows are of other products.
other_products :
    (pid : ℕ) (q : ℤ) (v : ℕ) (r : Inventory) (rs : List Inventory)
    → r.product_id ≡ pid
    → All (λ x. inventory_schema.clash r x ≡ false) rs
    → All (λ x. can_deduct pid q v x ≡ false) rs
other_products pid q v r rs mine h =
    All-imp (λ x. inventory_schema.clash r x ≡ false) (λ x. can_deduct pid q v x ≡ false)
      (λ x free. ground arith) rs h

-- A deduction takes its quantity from the one row of its product.
pub available_of-deducted :
    (k pid : ℕ) (q : ℤ) (v : ℕ) (rs : List Inventory)
    → IsUnclashed inventory_schema.clash rs
    → count (can_deduct pid q v) rs ≢ 0
    → available_of k (map_where (can_deduct pid q v) (lock_units q) rs)
        +ℤ (if pid == k then q else pos 0)
      ≡ available_of k rs
available_of-deducted k pid q v [] u n = absurd (n refl)
available_of-deducted k pid q v (r ∷ rs) u n = elim (Bool-cases (for_product pid r)) [
  | inl mine ↦
      let g = can_deduct pid q v in
      let others = other_products pid q v r rs (ground arith) u.0 in
      let rest = map_where-none g (lock_units q) rs others in
      let none_else = All-count_zero g rs others in
      let passes : g r ≡ true = elim (Bool-cases (g r)) [
        | inl yes_it ↦ yes_it
        | inr fails ↦ absurd (n (ground arith))
      ] in
      rw (passes, rest)
        (ground (
          arith,
          sub_add_cancel r.available q,
          +ℤ-zero (available_of k (r ∷ rs)),
          +ℤ-zero (available_of k rs),
        ))
  | inr other ↦
      let less : count (can_deduct pid q v) rs ≢ 0 = λ z. n (ground arith) in
      ground (arith, available_of-deducted k pid q v rs u.1 less, +ℤ-zero r.available)
]
