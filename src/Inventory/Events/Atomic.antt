-- ===== src/Inventory/Events/Atomic.antt =====
-- The stock and the events that report on it change together (internal/inventory/event_handler.go).
use distributed_software_hom.Prelude.{ℕ, suc, ◌≡◌, ◌⊎◌, refl, inl, inr, [], ◌∷◌, ◌++◌, arith, ◌∙◌}
use distributed_software_hom.Result.{Error, Result, ok, err, Result-cases}
use distributed_software_hom.Database.{no_value, no_value-eq-ok}
use distributed_software_hom.Event.{
  OrderCreatedEvent, deducted, deduct_failed, Stamp, stamped, stock_deducted, stock_deduct_failed,
  inventory_events,
}
use distributed_software_hom.Outbox
use distributed_software_hom.Outbox.{OutboxEvent, unsent, write_event, write_event-rows}
use distributed_software_hom.Inventory.{no_others, deduct, lock_units, can_deduct}
use distributed_software_hom.Inventory.Deduct.{HasDeducted, deduct_outcome}
use distributed_software_hom.Inventory.Events.{
  InventoryStore, report, reserve, handle_order_created,
}

module _ {F S : Type 0} (store : InventoryStore F S) where
  open store use {inventories, outbox, transactions}

  -- The rows of the outbox are those of before with one event behind them.
  abbrev pub Emitted : OutboxEvent F → S → S → Type 0
  Emitted e s s' = (i : ℕ) × (outbox.rows s' ≡ outbox.rows s ++ record e { id = i } ∷ [])

  abbrev pub deducted_event : Stamp → OrderCreatedEvent F → OutboxEvent F
  deducted_event stamp evt = unsent Outbox.inventory evt.order_no stock_deducted inventory_events (
      deducted (record {
        base = stamped stamp;
        order_no = evt.order_no;
        product_id = evt.product_id;
        quantity = evt.quantity;
      }))

  abbrev pub failed_event : Stamp → OrderCreatedEvent F → Error → OutboxEvent F
  failed_event stamp evt e =
      unsent Outbox.inventory evt.order_no stock_deduct_failed inventory_events (
        deduct_failed (record {
          base = stamped stamp;
          order_no = evt.order_no;
          product_id = evt.product_id;
          reason = e;
        }))

  -- How a reservation may have ended.
  abbrev pub Reserved : Stamp → OrderCreatedEvent F → S → S → Type 0
  Reserved stamp evt s s' =
      (HasDeducted inventories evt.product_id evt.quantity s s'
        × Emitted (deducted_event stamp evt) s s')
      ⊎ ((e : Error) × (deduct inventories no_others evt.product_id evt.quantity s ≡ (err e, s))
          × (inventories.rows s' ≡ inventories.rows s)
          × Emitted (failed_event stamp evt e) s s')

  -- Writing an event appends it and leaves the stock alone.
  write-Emitted :
      (e : OutboxEvent F) (s s' : S)
      → write_event outbox e.aggregate_type e.aggregate_id e.event_type e.topic e.payload s ≡ ok s'
      → Emitted (unsent e.aggregate_type e.aggregate_id e.event_type e.topic e.payload) s s'
        × (inventories.rows s' ≡ inventories.rows s)
  write-Emitted e s s' h =
      let e' = unsent e.aggregate_type e.aggregate_id e.event_type e.topic e.payload in
      let (i, made, rows) =
        write_event-rows outbox e.aggregate_type e.aggregate_id e.event_type e.topic e.payload s s'
          h in
      ((i, rows), store.outbox_apart.create_apart e' s i s' made)

  module _ (stamp : Stamp) (evt : OrderCreatedEvent F) where
    reserve-Reserved : (s s' : S) → reserve store stamp evt s ≡ ok s' → Reserved stamp evt s s'
    unfolding reserve report
    reserve-Reserved s s' h = elim (deduct_outcome inventories evt.product_id evt.quantity s) [
      | inl (e, r) ↦
          let w : report store stamp evt (err e) s ≡ ok s' = rw r at h in
          let (emitted, same) = write-Emitted (failed_event stamp evt e) s s' w in
          inr (e, r, same, emitted)
      | inr (t, v, n, r, u) ↦
          let w : report store stamp evt (ok tt) t ≡ ok s' = rw r at h in
          let (emitted, same) = write-Emitted (deducted_event stamp evt) t s' w in
          let g = can_deduct evt.product_id evt.quantity v in
          let f = lock_units evt.quantity in
          let others = store.inventories_apart.update_apart g f s (suc n) t u in
          inl (
            (
              v,
              (
                same ∙ inventories.update_rows g f s (suc n) t u,
                λ z. ground (arith, inventories.update_count g f s (suc n) t u),
              ),
            ),
            (emitted.0, rw (← others) emitted.1),
          )
    ]

    -- The transaction of a handler failed, and the state is as before.
    abbrev pub Aborted : (S → Result S) → S → S → Type 0
    Aborted body s s' =
        (s' ≡ s) × ((e : Error) × (transactions.transaction (λ t. no_value (body t)) s ≡ err e))

    -- Handling ORDER_CREATED changes nothing, and then its transaction failed, or deducts the quantity
    -- once and emits STOCK_DEDUCTED, or, where `Deduct` fails, leaves the stock alone and emits
    -- STOCK_DEDUCT_FAILED; there is no other outcome.
    pub handle_order_created_atomic :
        (s : S)
        → let s' = handle_order_created store stamp evt s in
          Aborted (reserve store stamp evt) s s' ⊎ Reserved stamp evt s s'
    unfolding handle_order_created
    handle_order_created_atomic s =
        elim (Result-cases
          (transactions.transaction (λ t. no_value (reserve store stamp evt t)) s)) [
            | inr (e, r) ↦ inl (rw r refl, (e, r))
            | inl (p, r) ↦ inr (
                rw r (
                  reserve-Reserved s p.1 (
                    no_value-eq-ok (reserve store stamp evt s) p.0 p.1 (
                      transactions.commits (λ t. no_value (reserve store stamp evt t)) s p.0 p.1
                        r))))
          ]
