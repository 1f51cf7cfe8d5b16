-- ===== src/Inventory/Events/Redelivered.antt =====
-- An ORDER_CREATED that arrives twice (internal/inventory/event_handler.go): the handler keeps no
-- record of the events it has seen.
use distributed_software_hom.Prelude.{
  ◌==◌, true, false, ◌&&◌, ◌≡◌, refl, inl, inr, arith, List, [], ◌∷◌, All, Bool, if◌then◌else◌,
}
use distributed_software_hom.Prelude.Int.{ℤ, leb_ℤ}
use distributed_software_hom.Result.{ok}
use distributed_software_hom.Database.{IsUp, no_value}
use distributed_software_hom.Database.Rows.{map_where, IsUnclashed}
use distributed_software_hom.Event.{OrderCreatedEvent, Stamp}
use distributed_software_hom.Inventory.{Inventory, inventory_schema, lock_units}
use distributed_software_hom.Inventory.Updates.{row-Updated}
use distributed_software_hom.Inventory.Deduct.{deduct_covered}
use distributed_software_hom.Inventory.Events.{InventoryStore, reserve, handle_order_created}
use distributed_software_hom.Inventory.Events.Atomic.{
  Emitted, deducted_event, handle_order_created_atomic,
}
use distributed_software_hom.Inventory.Events.Compensation.{IsRowOf}

-- Deducting leaves the unique keys as they are.
All-lock_units :
    (q : ℤ) (p : Inventory → Bool) (r : Inventory) (rs : List Inventory)
    → All (λ x. inventory_schema.clash r x ≡ false) rs
    → All
        (λ x. inventory_schema.clash (if p r then lock_units q r else r) x ≡ false)
        (map_where p (lock_units q) rs)
All-lock_units q p r [] h = tt
All-lock_units q p r (x ∷ rs) h = (ground (arith, h.0), All-lock_units q p r rs h.1)

IsUnclashed-lock_units :
    (q : ℤ) (p : Inventory → Bool) (rs : List Inventory)
    → IsUnclashed inventory_schema.clash rs
    → IsUnclashed inventory_schema.clash (map_where p (lock_units q) rs)
IsUnclashed-lock_units q p [] u = tt
IsUnclashed-lock_units q p (r ∷ rs) u =
    (All-lock_units q p r rs u.0, IsUnclashed-lock_units q p rs u.1)

module _ {F S : Type 0} (store : InventoryStore F S) where
  open store use {inventories, outbox, transactions}

  -- The transaction of ORDER_CREATED is committed.
  abbrev pub IsCommitted : Stamp → OrderCreatedEvent F → S → S → Type 0
  IsCommitted stamp evt s s' =
      transactions.transaction (λ t. no_value (reserve store stamp evt t)) s ≡ ok (tt, s')

  pub IsCommitted-state :
      (stamp : Stamp) (evt : OrderCreatedEvent F) (s s' : S)
      → IsCommitted stamp evt s s'
      → handle_order_created store stamp evt s ≡ s'
  unfolding handle_order_created
  IsCommitted-state stamp evt s s' h = rw h refl

  module _ (stamp : Stamp) (evt : OrderCreatedEvent F) (inv : Inventory) (s s' : S)
      (up : IsUp inventories s) (unique : IsUnclashed inventory_schema.clash (inventories.rows s))
      (row : IsRowOf store evt.product_id inv s) (enough : leb_ℤ evt.quantity inv.available ≡ true)
      (committed : IsCommitted stamp evt s s') where
    -- An event whose quantity is covered takes it from the stock.
    pub covered_deducts :
        IsRowOf store evt.product_id (lock_units evt.quantity inv) s'
        × IsUnclashed inventory_schema.clash (inventories.rows s')
        × Emitted store (deducted_event store stamp evt) s s'
    covered_deducts =
        let (t, done, after) =
          deduct_covered inventories evt.product_id evt.quantity s inv row up unique enough in
        let outcomes = handle_order_created_atomic store stamp evt s in
        elim (rw (IsCommitted-state stamp evt s s' committed) at outcomes) [
          | inl (same, (e, failed)) ↦ absurd (ground arith)
          | inr (inl ((v, updated), emitted)) ↦ (
            (row-Updated inventories evt.product_id
                (λ x. leb_ℤ evt.quantity x.available && x.version == v)
                (λ x. lock_units evt.quantity x) s s' inv (λ x. refl) unique updated row).1,
            rw updated.0 (IsUnclashed-lock_units evt.quantity _ (inventories.rows s) unique),
            emitted,
          )
          | inr (inr (e, refused, same, emitted)) ↦ absurd (ground arith)
        ]
