-- ===== src/Saga/Stock.antt =====
-- The stock of cmd/inventory-service in a run of the saga: no order of the events makes units appear.
use distributed_software_hom.Prelude.{ℕ, suc, true, ◌≡◌, inl, inr, All, All-in, subst, sym}
use distributed_software_hom.Prelude.Int.{ℤ, pos, ◌+ℤ◌, ◌≤ℤ◌, int_laws}
use distributed_software_hom.Result.{Result-cases, nothing_to_confirm}
use distributed_software_hom.Database.Rows.{All-map_where}
use distributed_software_hom.Redis.{Redis}
use distributed_software_hom.Event.{
  Payload, created, completed, cancelled, requested, deducted, deduct_failed, paid, not_paid, event,
  Stamp, OrderCreatedEvent, OrderCompletedEvent,
}
use distributed_software_hom.Inventory.{
  Inventory, deduct, no_others, can_deduct, has_locked, lock_units, unlock_units, sell_units,
  confirm_deduction, return_stock,
}
use distributed_software_hom.Inventory.Updates.{return_stock-Updated, update-Updated}
use distributed_software_hom.Inventory.Deduct.{deduct_outcome}
use distributed_software_hom.Inventory.Events.{
  InventoryStore, handle_order_created, handle_order_completed, returned, handle_order_cancelled,
  handle_order_event,
}
use distributed_software_hom.Inventory.Events.Atomic.{handle_order_created_atomic}
use distributed_software_hom.Order.Store.{OrderStore}
use distributed_software_hom.Payment.{PaymentStore}
use distributed_software_hom.Saga.{
  System, view, Step, purchase, inventory_consumes, payment_consumes, order_consumes_inventory,
  order_consumes_payment, order_relays, inventory_relays, payment_relays, redis_changes,
  stock_is_deducted, stock_is_set, IsNoSet, HasNoSet, Reach, start, later,
}
use distributed_software_hom.Saga.Spec.Counted.{Counts, IsCounted, Change-IsCounted}
use distributed_software_hom.Saga.Steps.{Step-Change, mark_sent-rows}

module _ (most : ℕ → ℤ) where
  -- Neither column is negative, and together they do not exceed what the product may have.
  abbrev pub InCap : Inventory → Type 0
  InCap r =
      (pos 0 ≤ℤ r.available) × (pos 0 ≤ℤ r.locked) × (r.available +ℤ r.locked ≤ℤ most r.product_id)

  lock_units-InCap :
      (pid : ℕ) (q : ℤ) (v : ℕ) (r : Inventory)
      → pos 1 ≤ℤ q
      → InCap r
      → can_deduct pid q v r ≡ true
      → InCap (lock_units q r)
  lock_units-InCap pid q v r h i g = grind int_laws

  unlock_units-InCap :
      (pid : ℕ) (q : ℤ) (r : Inventory)
      → pos 1 ≤ℤ q
      → InCap r
      → has_locked pid q r ≡ true
      → InCap (unlock_units q r)
  unlock_units-InCap pid q r h i g = grind int_laws

  sell_units-InCap :
      (pid : ℕ) (q : ℤ) (r : Inventory)
      → pos 1 ≤ℤ q
      → InCap r
      → has_locked pid q r ≡ true
      → InCap (sell_units q r)
  sell_units-InCap pid q r h i g = grind int_laws

  module _ {F S : Type 0} (store : InventoryStore F S) where
    open store use {inventories, outbox}

    abbrev pub AreInCap : S → Type 0
    AreInCap s = All InCap (inventories.rows s)

    created-InCap :
        (stamp : Stamp) (evt : OrderCreatedEvent F) (s : S)
        → pos 1 ≤ℤ evt.quantity
        → AreInCap s
        → AreInCap (handle_order_created store stamp evt s)
    created-InCap stamp evt s n h = elim (handle_order_created_atomic store stamp evt s) [
      | inl (same, failed) ↦ rw same h
      | inr (inl ((v, (rows, found)), told)) ↦ subst (All InCap) (sym rows) (
          All-map_where InCap (can_deduct evt.product_id evt.quantity v) (lock_units evt.quantity)
            (λ r. lock_units-InCap evt.product_id evt.quantity v r n) (inventories.rows s) h)
      | inr (inr (e, refused, same, told)) ↦ subst (All InCap) (sym same) h
    ]

    deduct-InCap :
        (pid : ℕ) (q : ℤ) (s : S)
        → pos 1 ≤ℤ q
        → AreInCap s
        → AreInCap (deduct inventories no_others pid q s).1
    deduct-InCap pid q s n h = elim (deduct_outcome inventories pid q s) [
      | inl (e, r) ↦ rw r h
      | inr (s', v, m, r, u) ↦
          let p = can_deduct pid q v in
          let f = lock_units q in
          rw r (
            subst (All InCap) (sym (inventories.update_rows p f s (suc m) s' u))
              (All-map_where InCap p f (λ x. lock_units-InCap pid q v x n) (inventories.rows s) h))
    ]

    completed-InCap :
        (evt : OrderCompletedEvent) (s : S)
        → pos 1 ≤ℤ evt.quantity
        → AreInCap s
        → AreInCap (handle_order_completed store evt s)
    unfolding handle_order_completed confirm_deduction
    completed-InCap evt s n h =
        let p = has_locked evt.product_id evt.quantity in
        let f = sell_units evt.quantity in
        elim (Result-cases (confirm_deduction inventories evt.product_id evt.quantity s)) [
          | inr (e, r) ↦ rw (r, handle_order_completed) h
          | inl (s', r) ↦
              rw (r, handle_order_completed)
                (subst (All InCap)
                  (sym (update-Updated inventories p f nothing_to_confirm s s' r).0)
                  (All-map_where InCap p f (λ x. sell_units-InCap evt.product_id evt.quantity x n)
                    (inventories.rows s) h))
        ]

    returned-InCap :
        (pid : ℕ) (q : ℤ) (s : S) → pos 1 ≤ℤ q → AreInCap s → AreInCap (returned store pid q s)
    unfolding returned
    returned-InCap pid q s n h = elim (Result-cases (return_stock inventories pid q s)) [
      | inr (e, r) ↦ rw (r, returned) h
      | inl (s', r) ↦
          rw (r, returned)
            (subst (All InCap) (sym (return_stock-Updated inventories pid q s s' r).2.0) (
              All-map_where InCap (has_locked pid q) (unlock_units q)
                (λ x. unlock_units-InCap pid q x n) (inventories.rows s) h))
    ]

    -- Each event of one unit or more that the inventory service consumes keeps the rows in bounds.
    event-InCap :
        {D : Type 0} (redis : Redis D) (stamp : Stamp) (p : Payload F) (s : S) (d : D)
        → Counts p
        → AreInCap s
        → AreInCap (handle_order_event store redis stamp (event p) s d).0
    unfolding handle_order_event handle_order_cancelled
    event-InCap redis stamp (created evt) s d n h = created-InCap stamp evt s n h
    event-InCap redis stamp (completed evt) s d n h = completed-InCap evt s n h
    event-InCap redis stamp (cancelled evt) s d n h =
        returned-InCap evt.product_id evt.quantity s n h
    event-InCap redis stamp (requested e) s d n h = h
    event-InCap redis stamp (deducted e) s d n h = h
    event-InCap redis stamp (deduct_failed e) s d n h = h
    event-InCap redis stamp (paid e) s d n h = h
    event-InCap redis stamp (not_paid e) s d n h = h

  module _ {F SO SI SP D : Type 0} (order_store : OrderStore F SO)
      (inventory_store : InventoryStore F SI) (payment_store : PaymentStore F SP)
      (redis : Redis D) where
    abbrev IsSafe : System SO SI SP D → Type 0
    IsSafe w =
        IsCounted (view order_store inventory_store payment_store redis w)
        × AreInCap inventory_store w.inventory

    Step-InCap :
        (w w' : System SO SI SP D)
        → (step : Step order_store inventory_store payment_store redis w w')
        → IsNoSet order_store inventory_store payment_store redis step
        → IsSafe w
        → AreInCap inventory_store w'.inventory
    Step-InCap w _ (purchase floats stamp n uid req counted) calm h = h.1
    Step-InCap w _ (inventory_consumes stamp p there) calm h =
        event-InCap inventory_store redis stamp p w.inventory w.redis
          (All-in Counts p (view order_store inventory_store payment_store redis w).from_order
            h.0.events there)
          h.1
    Step-InCap w _ (payment_consumes prob rate roll stamp id p there) calm h = h.1
    Step-InCap w _ (order_consumes_inventory stamp p there) calm h = h.1
    Step-InCap w _ (order_consumes_payment stamp p there) calm h = h.1
    Step-InCap w _ (order_relays e) calm h = h.1
    Step-InCap w _ (inventory_relays e) calm h =
        subst (All InCap)
          (sym (
            mark_sent-rows inventory_store.outbox inventory_store.inventories
              inventory_store.outbox_apart e w.inventory))
          h.1
    Step-InCap w _ (payment_relays e) calm h = h.1
    Step-InCap w _ (redis_changes d) calm h = h.1
    Step-InCap w _ (stock_is_deducted pid q n) calm h =
        deduct-InCap inventory_store pid q w.inventory n h.1
    Step-InCap w _ (stock_is_set meanwhile pid total read s' saved now done) calm h = absurd calm

    Reach-IsSafe :
        (w0 w : System SO SI SP D)
        → IsSafe w0
        → (run : Reach order_store inventory_store payment_store redis w0 w)
        → HasNoSet order_store inventory_store payment_store redis run
        → IsSafe w
    Reach-IsSafe w0 _ h start calm = h
    Reach-IsSafe w0 _ h (later {w} {w'} before step) calm =
        let safe = Reach-IsSafe w0 w h before calm.0 in
        (
          Change-IsCounted (view order_store inventory_store payment_store redis w)
              (view order_store inventory_store payment_store redis w')
              (Step-Change order_store inventory_store payment_store redis w w' step) safe.0,
          Step-InCap w w' step calm.1 safe,
        )

    -- From a system in which the orders and the events that move stock have a quantity of one or
    -- more (an empty one, say), whatever order the events arrive in and however often, and whatever
    -- units administrators deduct (POST /inventory/:product_id/deduct), but as long as none of them sets
    -- a total (PUT /inventory/:product_id): if at first no column of a
    -- stock row is negative, and the available and the locked units of each row together stay
    -- within a bound of its product, then this holds in every state that is reached.
    pub Reach-InCap :
        (w0 w : System SO SI SP D)
        → IsCounted (view order_store inventory_store payment_store redis w0)
        → AreInCap inventory_store w0.inventory
        → (run : Reach order_store inventory_store payment_store redis w0 w)
        → HasNoSet order_store inventory_store payment_store redis run
        → AreInCap inventory_store w.inventory
    Reach-InCap w0 w counted stocked run calm = (Reach-IsSafe w0 w (counted, stocked) run calm).1
