-- ===== src/Inventory/Deduct.antt =====
-- What a call of `Deduct` (internal/inventory/service.go) has done, by how it ended.
use distributed_software_hom.Prelude.{
  ℕ, zero, suc, ◌<◌, ap, count, ◌+◌, true, false, ◌&&◌, ◌≡◌, ◌≢◌, ◌⊎◌, refl, inl, inr, some, arith,
  find?, Bool-cases, subst, sym, ◌∙◌, ◌==◌,
}
use distributed_software_hom.Prelude.Int.{ℤ, ◌-ℤ◌, ◌+ℤ◌, leb_ℤ, ltb_ℤ}
use distributed_software_hom.Result.{
  Error, Result, ok, err, optimistic_lock, stock_insufficient, is_optimistic_lock, Result-cases,
}
use distributed_software_hom.Database.{Table, IsUp}
use distributed_software_hom.Database.Rows.{map_where, IsUnclashed, find?-passes, count-of_guard}
use distributed_software_hom.Inventory.{
  Inventory, inventory_schema, for_product, lock_units, can_deduct, affected_or, get_by_product_id,
  no_others, deduct_with_lock, deduct_from, deduct, max_deduct_retries, not_found_as_inventory,
}
use distributed_software_hom.Inventory.Updates.{
  Updated, deduct_with_lock-Updated, row-Updated, affected_or-eq-ok,
}

module _ {S : Type 0} (inventories : Table S Inventory inventory_schema) where
  -- One guarded update, on the state `t` that some round wrote to.
  abbrev pub HasDeducted : ℕ → ℤ → S → S → Type 0
  HasDeducted pid q t s' = (v : ℕ) × Updated inventories (can_deduct pid q v) (lock_units q) t s'

  module _ (others : ℕ → S → S) where
    -- The state before round `i + k`, when the rounds from `i` on have all lost their race.
    pub before_round : ℕ → ℕ → S → S
    before_round zero i s = s
    before_round (suc k) i s = before_round k (i + 1) (others i s)

    -- One round that won: it read a row of the product that covers the quantity, and then made one
    -- UPDATE, which adds one to the version, of rows that belong to the product, still had
    -- the version that was read, and still covered the quantity.
    abbrev pub HasWon : ℕ → ℤ → S → S → S → Type 0
    HasWon pid q before t s' =
        (inv : Inventory) × (find? (λ r. r.product_id == pid) (inventories.rows before) ≡ some inv)
        × (ltb_ℤ inv.available q ≡ false)
        × (inventories.rows s'
            ≡ map_where
                (λ r. r.product_id == pid && (leb_ℤ q r.available && r.version == inv.version))
                (λ r. record r {
                  available = r.available -ℤ q;
                  locked = r.locked +ℤ q;
                  version = r.version + 1;
                })
                (inventories.rows t))
        × (count (λ r. r.product_id == pid && (leb_ℤ q r.available && r.version == inv.version))
              (inventories.rows t)
            ≢ 0)

    deduct_from_once :
        (rounds i pid : ℕ) (q : ℤ) (s s' : S)
        → deduct_from inventories others rounds i pid q s ≡ (ok tt, s')
        → (k : ℕ) × (k < rounds) × HasWon pid q (before_round k i s) (before_round (suc k) i s) s'
    unfolding deduct_from before_round get_by_product_id
    deduct_from_once zero i pid q s s' h = ground arith
    deduct_from_once (suc rounds) i pid q s s' h =
        elim (Result-cases (get_by_product_id inventories pid s)) [
          | inr (e, p) ↦ ground arith
          | inl (inv, p) ↦ elim (Bool-cases (ltb_ℤ inv.available q)) [
            | inl short ↦ ground arith
            | inr enough ↦
                elim (Result-cases (deduct_with_lock inventories pid q inv.version (others i s))) [
                  | inl (t, w) ↦
                      let same : t ≡ s' = ground arith in
                      let (rows, some_row) =
                        deduct_with_lock-Updated inventories pid q inv.version (others i s) t w in
                      (
                        0,
                        omega arith,
                        (
                          inv,
                          inventories.first_ok (for_product pid) s inv p,
                          enough,
                          ap inventories.rows (sym same) ∙ rows,
                          some_row,
                        ),
                      )
                  | inr (e, w) ↦ elim (Bool-cases (is_optimistic_lock e)) [
                    | inl conflict ↦
                        let (k, fewer, won) =
                          deduct_from_once rounds (i + 1) pid q (others i s) s' (ground arith) in
                        (suc k, omega (arith, fewer), won)
                    | inr other ↦ ground arith
                  ]
                ]
          ]
        ]

    -- If `Deduct` succeeds then, whatever the other transactions did, one of its three rounds won: in
    -- the state that the others and the lost rounds had left it read a row of the product whose
    -- stock covered the quantity, and in the state that the others made of that one it
    -- updated, once, just the rows of the product that had the version it had read and
    -- whose stock covered the quantity, of which there was one at least: it moved the quantity from
    -- available to locked, with a new version.
    pub deduct_once :
        (pid : ℕ) (q : ℤ) (s s' : S)
        → deduct inventories others pid q s ≡ (ok tt, s')
        → (k : ℕ) × (k < 3) × HasWon pid q (before_round k 0 s) (before_round (suc k) 0 s) s'
    unfolding deduct
    deduct_once pid q s s' h = deduct_from_once max_deduct_retries 0 pid q s s' h

  pub affected_or-done : (n : ℕ) (e : Error) (s' : S) → n ≢ 0 → affected_or e (n, s') ≡ ok s'
  affected_or-done zero e s' h = absurd (h refl)
  affected_or-done (suc n) e s' h = refl

  module _ (pid : ℕ) (q : ℤ) (s : S) (inv : Inventory)
      (found : find? (for_product pid) (inventories.rows s) ≡ some inv)
      (up : IsUp inventories s) where
    deduct_with_lock_done :
        leb_ℤ q inv.available ≡ true
        → (s' : S) × (deduct_with_lock inventories pid q inv.version s ≡ ok s')
    unfolding deduct_with_lock
    deduct_with_lock_done enough =
        let g = can_deduct pid q inv.version in
        let (n, s', u) = up.update_done g (lock_units q) (λ a b. (refl, refl)) in
        let passes : g inv ≡ true =
          ground (arith, find?-passes (for_product pid) (inventories.rows s) inv found) in
        let some_row =
          count-of_guard inventory_schema.clash (for_product pid) (λ a b ha hb. ground arith) g
            (inventories.rows s) inv found passes in
        (
          s',
          rw u (
              affected_or-done n optimistic_lock s'
                (λ z. some_row (sym (inventories.update_count g (lock_units q) s n s' u) ∙ z))),
        )

    pub deduct_covered :
        IsUnclashed inventory_schema.clash (inventories.rows s)
        → leb_ℤ q inv.available ≡ true
        → (s' : S) × (deduct inventories no_others pid q s ≡ (ok tt, s'))
          × (find? (for_product pid) (inventories.rows s') ≡ some (lock_units q inv))
    unfolding deduct deduct_from get_by_product_id
    deduct_covered unique enough =
        let (s', w) = deduct_with_lock_done enough in
        let not_short : ltb_ℤ inv.available q ≡ false = ground arith in
        (
          s',
          rw (up.first_found (for_product pid) inv found, deduct_from) (rw (not_short, w) refl),
          (row-Updated inventories pid (λ x. leb_ℤ q x.available && x.version == inv.version)
              (lock_units q) s s' inv (λ x. refl) unique
              (deduct_with_lock-Updated inventories pid q inv.version s s' w) found).1,
        )

    -- A quantity above the stock is refused, and the state is left as it was, whatever the others do.
    pub deduct_short :
        (others : ℕ → S → S)
        → ltb_ℤ inv.available q ≡ true
        → deduct inventories others pid q s ≡ (err stock_insufficient, s)
    unfolding deduct deduct_from get_by_product_id
    deduct_short others short =
        rw (up.first_found (for_product pid) inv found, deduct_from) (rw short refl)

  -- Without other writers a call either fails and leaves the state alone, or is one update.
  module _ (pid : ℕ) (q : ℤ) (s : S) where
    abbrev pub DeductOutcome : Result (Unit {0}) × S → Type 0
    DeductOutcome r =
        ((e : Error) × (r ≡ (err e, s)))
        ⊎ ((s' : S) × (v : ℕ) × (n : ℕ) × (r ≡ (ok tt, s'))
            × (inventories.update (can_deduct pid q v) (lock_units q) s ≡ ok (suc n, s')))

    written :
        (v : ℕ) (s' : S)
        → deduct_with_lock inventories pid q v s ≡ ok s'
        → (n : ℕ) × (inventories.update (can_deduct pid q v) (lock_units q) s ≡ ok (suc n, s'))
    unfolding deduct_with_lock
    written v s' w = affected_or-eq-ok _ optimistic_lock s' w

    deduct_from_outcome :
        (rounds i : ℕ) → DeductOutcome (deduct_from inventories no_others rounds i pid q s)
    unfolding deduct_from
    deduct_from_outcome zero i = inl (stock_insufficient, refl)
    deduct_from_outcome (suc rounds) i = elim (Result-cases (get_by_product_id inventories pid s)) [
      | inr (e, p) ↦ inl (not_found_as_inventory e, rw (p, deduct_from) refl)
      | inl (inv, p) ↦ elim (Bool-cases (ltb_ℤ inv.available q)) [
        | inl short ↦ inl (stock_insufficient, rw (p, deduct_from) (rw short refl))
        | inr enough ↦ elim (Result-cases (deduct_with_lock inventories pid q inv.version s)) [
          | inl (s', w) ↦
              let (n, u) = written inv.version s' w in
              inr (s', inv.version, n, rw (p, deduct_from) (rw (enough, w) refl), u)
          | inr (e, w) ↦ elim (Bool-cases (is_optimistic_lock e)) [
            | inl conflict ↦
                subst DeductOutcome
                  (sym (rw (p, deduct_from) (rw enough (rw w (rw conflict refl)))))
                  (deduct_from_outcome rounds (i + 1))
            | inr other ↦ inl (e, rw (p, deduct_from) (rw enough (rw w (rw other refl))))
          ]
        ]
      ]
    ]

    pub deduct_outcome : DeductOutcome (deduct inventories no_others pid q s)
    unfolding deduct
    deduct_outcome = deduct_from_outcome max_deduct_retries 0
