-- ===== src/Inventory/Events/Confirmed.antt =====
-- The end of an order in the inventory service (internal/inventory/event_handler.go): ORDER_COMPLETED
-- takes the units that were locked for it out of the stock.
use distributed_software_hom.Prelude.{ℕ, ap, ◌∙◌, some, ◌+◌, ◌≡◌, refl, true}
use distributed_software_hom.Prelude.Int.{ℤ, leb_ℤ, ◌+ℤ◌, ◌-ℤ◌, add_sub_cancel}
use distributed_software_hom.Result.{nothing_to_confirm}
use distributed_software_hom.Database.{IsUp}
use distributed_software_hom.Database.Rows.{IsUnclashed}
use distributed_software_hom.Event.{OrderCompletedEvent}
use distributed_software_hom.Inventory.{
  Inventory, inventory_schema, has_locked, lock_units, sell_units, confirm_deduction,
}
use distributed_software_hom.Inventory.Updates.{row-Updated, update-Updated}
use distributed_software_hom.Inventory.Events.{InventoryStore, handle_order_completed}
use distributed_software_hom.Inventory.Events.Compensation.{IsRowOf, locked_done}

module _ {F S : Type 0} (store : InventoryStore F S) where
  open store use {inventories}

  completed_row :
      (evt : OrderCompletedEvent) (inv : Inventory) (s : S)
      → IsUp inventories s
      → IsUnclashed inventory_schema.clash (inventories.rows s)
      → IsRowOf store evt.product_id inv s
      → leb_ℤ evt.quantity inv.locked ≡ true
      → IsRowOf store evt.product_id
          (sell_units evt.quantity inv)
          (handle_order_completed store evt s)
  unfolding handle_order_completed confirm_deduction
  completed_row evt inv s up unique row enough =
      let f = λ (x : Inventory). sell_units evt.quantity x in
      let (s', done) =
        locked_done store evt.product_id evt.quantity f nothing_to_confirm inv s
          (λ a b. (refl, refl)) up row enough in
      let updated =
        update-Updated inventories (has_locked evt.product_id evt.quantity) f nothing_to_confirm s
          s' done in
      rw (done, handle_order_completed)
        (row-Updated inventories evt.product_id (λ x. leb_ℤ evt.quantity x.locked) f s s' inv
          (λ x. refl) unique updated row).1

completed_for :
    {F S : Type 0} (store : InventoryStore F S) (evt : OrderCompletedEvent) (pid : ℕ) (q : ℤ)
    (inv : Inventory) (s : S)
    → IsUp store.inventories s
    → IsUnclashed inventory_schema.clash (store.inventories.rows s)
    → evt.product_id ≡ pid
    → evt.quantity ≡ q
    → IsRowOf store pid inv s
    → leb_ℤ q inv.locked ≡ true
    → IsRowOf store pid (sell_units q inv) (handle_order_completed store evt s)
completed_for store evt pid q inv s up unique same_product same_quantity row enough =
    let row' : IsRowOf store evt.product_id inv s = rw same_product row in
    let enough' : leb_ℤ evt.quantity inv.locked ≡ true = rw same_quantity enough in
    rw (← same_product, ← same_quantity) (completed_row store evt inv s up unique row' enough')

-- A quantity that was locked and is sold has gone from the available units.
pub sold_row :
    {F S : Type 0} (store : InventoryStore F S) (evt : OrderCompletedEvent) (pid : ℕ) (q : ℤ)
    (inv : Inventory) (s : S)
    → IsUp store.inventories s
    → IsUnclashed inventory_schema.clash (store.inventories.rows s)
    → evt.product_id ≡ pid
    → evt.quantity ≡ q
    → IsRowOf store pid (lock_units q inv) s
    → leb_ℤ q (inv.locked +ℤ q) ≡ true
    → IsRowOf store pid
        (record inv { available = inv.available -ℤ q; version = inv.version + 1 + 1 })
        (handle_order_completed store evt s)
sold_row store evt pid q inv s up unique same_product same_quantity row enough =
    completed_for store evt pid q (lock_units q inv) s up unique same_product same_quantity row
      enough
    ∙ ap
        (λ l. some (record inv {
          available = inv.available -ℤ q;
          locked = l;
          version = inv.version + 1 + 1;
        }))
        (add_sub_cancel inv.locked q)
