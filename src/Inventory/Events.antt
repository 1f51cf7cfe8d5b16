-- ===== src/Inventory/Events.antt =====
-- internal/inventory/event_handler.go: the inventory service's side of the saga. Each handler runs
-- to its end before the next one; an error is logged and dropped, as in the source.
pub mod Atomic
pub mod Compensation
pub mod Confirmed
pub mod Freed
pub mod Redelivered
use distributed_software_hom.Prelude.{ℕ}
use distributed_software_hom.Prelude.Int.{ℤ}
use distributed_software_hom.Result.{Result, ok, err, ◌>>=◌}
use distributed_software_hom.Database.{Table, IsApart, Transactions, committed, no_value}
use distributed_software_hom.Redis.{Redis, lock_key}
use distributed_software_hom.Event.{
  OrderCreatedEvent, OrderCompletedEvent, OrderCancelledEvent, Payload, created, completed,
  cancelled, deducted, deduct_failed, Message, event, unknown, malformed, Stamp, stamped,
  stock_deducted, stock_deduct_failed, inventory_events,
}
use distributed_software_hom.Outbox
use distributed_software_hom.Outbox.{OutboxEvent, outbox_schema, write_event}
use distributed_software_hom.Inventory.{
  Inventory, inventory_schema, no_others, deduct, return_stock, confirm_deduction,
}
use distributed_software_hom.Inventory.RedisStock.{rollback_redis}

-- The database of the inventory service.
pub record InventoryStore (F S : Type 0) : Type 0 where
  pub inventories : Table S Inventory inventory_schema
  pub outbox : Table S (OutboxEvent F) outbox_schema
  pub transactions : Transactions S (Unit {0})
  pub inventories_apart : IsApart inventories outbox
  pub outbox_apart : IsApart outbox inventories

module _ {F S : Type 0} (store : InventoryStore F S) where
  -- The event that tells how `Deduct` ended.
  unfoldable pub report : Stamp → OrderCreatedEvent F → Result (Unit {0}) → S → Result S
  report stamp evt (ok _) s =
      write_event store.outbox Outbox.inventory evt.order_no stock_deducted inventory_events
        (deducted (record {
          base = stamped stamp;
          order_no = evt.order_no;
          product_id = evt.product_id;
          quantity = evt.quantity;
        }))
        s
  report stamp evt (err e) s =
      write_event store.outbox Outbox.inventory evt.order_no stock_deduct_failed inventory_events
        (deduct_failed (record {
          base = stamped stamp;
          order_no = evt.order_no;
          product_id = evt.product_id;
          reason = e;
        }))
        s

  unfoldable pub reserve : Stamp → OrderCreatedEvent F → S → Result S
  unfolding report
  reserve stamp evt s =
      let (r, t) = deduct store.inventories no_others evt.product_id evt.quantity s in
      report stamp evt r t

  unfoldable pub handle_order_created : Stamp → OrderCreatedEvent F → S → S
  handle_order_created stamp evt s =
      committed s (store.transactions.transaction (λ t. no_value (reserve stamp evt t)) s)

  unfoldable pub handle_order_completed : OrderCompletedEvent → S → S
  handle_order_completed evt s =
      elim (confirm_deduction store.inventories evt.product_id evt.quantity s) [
        | ok s' ↦ s'
        | err e ↦ s
      ]

  -- `h.service.Return`, whose error is logged and dropped.
  unfoldable pub returned : ℕ → ℤ → S → S
  returned pid q s = elim (return_stock store.inventories pid q s) [ ok s' ↦ s' | err e ↦ s ]

  module _ {D : Type 0} (redis : Redis D) where
    unfoldable pub handle_order_cancelled : OrderCancelledEvent → S → D → S × D
    handle_order_cancelled evt s d =
        let d1 = rollback_redis redis evt.product_id evt.quantity d in
        (
          returned evt.product_id evt.quantity s,
          (redis.del (lock_key evt.user_id evt.product_id) d1).1,
        )

    unfoldable pub handle_order_event : Stamp → Message F → S → D → S × D
    handle_order_event stamp (event (created evt)) s d = (handle_order_created stamp evt s, d)
    handle_order_event stamp (event (completed evt)) s d = (handle_order_completed evt s, d)
    handle_order_event stamp (event (cancelled evt)) s d = handle_order_cancelled evt s d
    handle_order_event stamp _ s d = (s, d)
