-- ===== src/Saga/Balance/Sold.antt =====
-- In a run of the saga without a cancelled order, what the STOCK_DEDUCTED events promise is what has
-- left the stock of cmd/inventory-service.
use distributed_software_hom.Prelude.{
  ℕ, false, ◌≡◌, refl, ap₂, ◌∙◌, subst, inl, inr, List, All, All-in, arith, Option-cases, find?,
}
use distributed_software_hom.Prelude.Int.{ℤ, pos, ◌+ℤ◌, ◌≤ℤ◌, int_laws}
use distributed_software_hom.Database.Rows.{find?-All}
use distributed_software_hom.Redis.{Redis}
use distributed_software_hom.Event.{
  Payload, created, completed, cancelled, requested, deducted, deduct_failed, paid, not_paid, event,
  Stamp,
}
use distributed_software_hom.Inventory.{Inventory, for_product}
use distributed_software_hom.Inventory.Events.{InventoryStore, handle_order_event}
use distributed_software_hom.Order.Store.{OrderStore}
use distributed_software_hom.Payment.{PaymentStore}
use distributed_software_hom.Saga.{
  mark_sent-payloads, System, view, Step, purchase, inventory_consumes, payment_consumes,
  order_consumes_inventory, order_consumes_payment, order_relays, inventory_relays, payment_relays,
  redis_changes, stock_is_deducted, stock_is_set, IsNotByHand, HasNoneByHand, IsNoSet, HasNoSet,
  Reach, start, later,
}
use distributed_software_hom.Saga.Spec.{View}
use distributed_software_hom.Saga.Spec.Counted.{IsCounted}
use distributed_software_hom.Saga.Steps.{Step-Change, mark_sent-rows}
use distributed_software_hom.Saga.Stock.{InCap, AreInCap, Reach-InCap}
use distributed_software_hom.Saga.Balance.{available_of, deducted_of}
use distributed_software_hom.Saga.Balance.Runs.{
  is_cancelled, HasNoCancelled, Change-HasNoCancelled, balance, HasOwnKeys, Balances,
  created-Balances, completed-Balances,
}

unchanged :
    {F S : Type 0} (store : InventoryStore F S) (s : S) → HasOwnKeys store s → Balances store s s
unchanged store s u = record { same = λ k. refl; unique = u }

-- Each event but ORDER_CANCELLED keeps the balance.
event-Balances :
    {F S D : Type 0} (store : InventoryStore F S) (redis : Redis D) (stamp : Stamp) (p : Payload F)
    (s : S) (d : D)
    → is_cancelled p ≡ false
    → HasOwnKeys store s
    → Balances store s (handle_order_event store redis stamp (event p) s d).0
unfolding handle_order_event
event-Balances store redis stamp (created evt) s d n u = created-Balances store stamp evt s u
event-Balances store redis stamp (completed evt) s d n u = completed-Balances store evt s u
event-Balances store redis stamp (cancelled evt) s d n u = absurd (ground arith)
event-Balances store redis stamp (requested e) s d n u = unchanged store s u
event-Balances store redis stamp (deducted e) s d n u = unchanged store s u
event-Balances store redis stamp (deduct_failed e) s d n u = unchanged store s u
event-Balances store redis stamp (paid e) s d n u = unchanged store s u
event-Balances store redis stamp (not_paid e) s d n u = unchanged store s u

available_of-nonneg :
    (most : ℕ → ℤ) (k : ℕ) (rs : List Inventory) → All (InCap most) rs → pos 0 ≤ℤ available_of k rs
available_of-nonneg most k rs h = elim (Option-cases (find? (for_product k) rs)) [
  | inl missing ↦ rw (missing, available_of) (omega arith)
  | inr (r, there) ↦
      rw (there, available_of) (find?-All (InCap most) (for_product k) rs r h there).0
]

bounded_by : (a d b : ℤ) → pos 0 ≤ℤ a → a +ℤ d ≡ b → d ≤ℤ b
bounded_by a d b h e = subst (λ z. d ≤ℤ z) e (omega int_laws)

module _ {F SO SI SP D : Type 0} (order_store : OrderStore F SO)
    (inventory_store : InventoryStore F SI) (payment_store : PaymentStore F SP)
    (redis : Redis D) where
  abbrev seen_by : System SO SI SP D → View F
  seen_by = view order_store inventory_store payment_store redis

  Step-Balances :
      (w w' : System SO SI SP D)
      → (step : Step order_store inventory_store payment_store redis w w')
      → IsNotByHand order_store inventory_store payment_store redis step
      → HasNoCancelled (seen_by w)
      → HasOwnKeys inventory_store w.inventory
      → Balances inventory_store w.inventory w'.inventory
  Step-Balances w _ (purchase floats stamp n uid req counted) calm h u =
      unchanged inventory_store w.inventory u
  Step-Balances w _ (inventory_consumes stamp p there) calm h u =
      event-Balances inventory_store redis stamp p w.inventory w.redis
        (All-in (λ q. is_cancelled q ≡ false) p (seen_by w).from_order h there) u
  Step-Balances w _ (payment_consumes prob rate roll stamp id p there) calm h u =
      unchanged inventory_store w.inventory u
  Step-Balances w _ (order_consumes_inventory stamp p there) calm h u =
      unchanged inventory_store w.inventory u
  Step-Balances w _ (order_consumes_payment stamp p there) calm h u =
      unchanged inventory_store w.inventory u
  Step-Balances w _ (order_relays e) calm h u = unchanged inventory_store w.inventory u
  Step-Balances w _ (inventory_relays e) calm h u =
      let rows =
        mark_sent-rows inventory_store.outbox inventory_store.inventories
          inventory_store.outbox_apart e w.inventory in
      record {
        same = λ k.
            ap₂ (λ rs ps. available_of k rs +ℤ deducted_of k ps) rows
              (mark_sent-payloads inventory_store.outbox e w.inventory);
        unique = rw rows u;
      }
  Step-Balances w _ (payment_relays e) calm h u = unchanged inventory_store w.inventory u
  Step-Balances w _ (redis_changes d) calm h u = unchanged inventory_store w.inventory u
  Step-Balances w _ (stock_is_deducted pid q n) calm h u = absurd calm
  Step-Balances w _ (stock_is_set meanwhile pid total read s' saved now done) calm h u = absurd calm

  Reach-Balances :
      (w0 w : System SO SI SP D)
      → HasOwnKeys inventory_store w0.inventory
      → (run : Reach order_store inventory_store payment_store redis w0 w)
      → HasNoneByHand order_store inventory_store payment_store redis run
      → HasNoCancelled (seen_by w)
      → Balances inventory_store w0.inventory w.inventory
  Reach-Balances w0 _ u start calm h = unchanged inventory_store w0.inventory u
  Reach-Balances w0 _ u (later {w} {w'} before step) calm h =
      let earlier =
        Change-HasNoCancelled (seen_by w) (seen_by w')
          (Step-Change order_store inventory_store payment_store redis w w' step) h in
      let first = Reach-Balances w0 w u before calm.0 earlier in
      let last = Step-Balances w w' step calm.1 earlier first.unique in
      record { same = λ k. last.same k ∙ first.same k; unique = last.unique }

  not_by_hand :
      {w w' : System SO SI SP D} (step : Step order_store inventory_store payment_store redis w w')
      → IsNotByHand order_store inventory_store payment_store redis step
      → IsNoSet order_store inventory_store payment_store redis step
  not_by_hand (stock_is_set meanwhile pid total read s' saved now done) h = h
  not_by_hand (stock_is_deducted pid q n) h = absurd h
  not_by_hand step h = tt

  none_by_hand :
      {w0 w : System SO SI SP D} (run : Reach order_store inventory_store payment_store redis w0 w)
      → HasNoneByHand order_store inventory_store payment_store redis run
      → HasNoSet order_store inventory_store payment_store redis run
  none_by_hand start h = tt
  none_by_hand (later before step) h = (none_by_hand before h.0, not_by_hand step h.1)

  -- Under the hypotheses of `Reach-InCap`, and with one stock row for each product: as long as no
  -- ORDER_CANCELLED has been published and no administrator has deducted units or set a total
  -- (POST /inventory/:product_id/deduct and PUT /inventory/:product_id), for each product the available units and those that the
  -- STOCK_DEDUCTED events promise add up to the same number in every state that is reached, whatever
  -- the order of the events and however often they arrive, so that no more are promised than this
  -- number.
  pub Reach-balance :
      (most : ℕ → ℤ) (w0 w : System SO SI SP D) (k : ℕ)
      → HasOwnKeys inventory_store w0.inventory
      → IsCounted (seen_by w0)
      → AreInCap most inventory_store w0.inventory
      → (run : Reach order_store inventory_store payment_store redis w0 w)
      → HasNoneByHand order_store inventory_store payment_store redis run
      → HasNoCancelled (seen_by w)
      → (balance inventory_store k w.inventory ≡ balance inventory_store k w0.inventory)
        × (deducted_of k (seen_by w).from_inventory ≤ℤ balance inventory_store k w0.inventory)
  Reach-balance most w0 w k u counted stocked run calm h =
      let same = (Reach-Balances w0 w u run calm h).same k in
      let rows = inventory_store.inventories.rows w.inventory in
      (
        same,
        bounded_by (available_of k rows) (deducted_of k (seen_by w).from_inventory) _
            (available_of-nonneg most k rows (
              Reach-InCap most order_store inventory_store payment_store redis w0 w counted stocked
                run (none_by_hand run calm)))
            same,
      )
