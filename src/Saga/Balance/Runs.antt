-- ===== src/Saga/Balance/Runs.antt =====
-- What the handlers of the inventory service do to the balance of available and promised units.
use distributed_software_hom.Prelude.{
  ℕ, Bool, true, false, ◌≡◌, refl, sym, ap, ap₂, ◌∙◌, subst, inl, inr, List, [], ◌∷◌, ◌++◌, All,
}
use distributed_software_hom.Prelude.Int.{ℤ, ◌+ℤ◌, int_laws}
use distributed_software_hom.Result.{Result-cases, nothing_to_confirm}
use distributed_software_hom.Database.Rows.{IsUnclashed}
use distributed_software_hom.Event.{
  Payload, created, completed, cancelled, requested, Stamp, OrderCreatedEvent, OrderCompletedEvent,
}
use distributed_software_hom.Inventory.{
  inventory_schema, can_deduct, has_locked, lock_units, sell_units, confirm_deduction,
}
use distributed_software_hom.Inventory.Updates.{update-Updated}
use distributed_software_hom.Inventory.Events.{
  InventoryStore, handle_order_created, handle_order_completed,
}
use distributed_software_hom.Inventory.Events.Atomic.{
  handle_order_created_atomic, deducted_event, failed_event,
}
use distributed_software_hom.Outbox.{OutboxEvent}
use distributed_software_hom.Saga.{payloads, payloads-append}
use distributed_software_hom.Saga.Spec.{
  View, Change, idle, place, deduct, fail, request, pay, decline, complete, cancel,
}
use distributed_software_hom.Saga.Others.{completed-outbox}
use distributed_software_hom.Saga.Balance.{
  available_of, deducted_by, deducted_of, deducted_of-append, IsUnclashed-map_where,
  available_of-kept, available_of-deducted, +ℤ-zero,
}

module _ {F : Type 0} where
  abbrev pub is_cancelled : Payload F → Bool
  is_cancelled (cancelled e) = true
  is_cancelled _ = false

  -- No ORDER_CANCELLED has been published.
  abbrev pub HasNoCancelled : View F → Type 0
  HasNoCancelled v = All (λ p. is_cancelled p ≡ false) v.from_order

  All-shorter :
      (ps : List (Payload F)) (p : Payload F)
      → All (λ q. is_cancelled q ≡ false) (ps ++ p ∷ [])
      → All (λ q. is_cancelled q ≡ false) ps
  All-shorter [] p h = tt
  All-shorter (q ∷ ps) p h = (h.0, All-shorter ps p h.1)

  -- What is not there after a transition was not there before.
  pub Change-HasNoCancelled : (v v' : View F) → Change v v' → HasNoCancelled v' → HasNoCancelled v
  Change-HasNoCancelled v v' (idle e) h = subst HasNoCancelled e h
  Change-HasNoCancelled v v' (place c o mine fresh counted e) h =
      All-shorter v.from_order (created c) (subst HasNoCancelled e h)
  Change-HasNoCancelled v v' (deduct c d there same e) h = subst HasNoCancelled e h
  Change-HasNoCancelled v v' (fail c d there same e) h = subst HasNoCancelled e h
  Change-HasNoCancelled v v' (request d r there n e) h =
      All-shorter v.from_order (requested r) (subst HasNoCancelled e h)
  Change-HasNoCancelled v v' (pay r p x there same mine e) h = subst HasNoCancelled e h
  Change-HasNoCancelled v v' (decline r p x there same mine e) h = subst HasNoCancelled e h
  Change-HasNoCancelled v v' (complete p o e there row same is) h =
      All-shorter v.from_order (completed e) (subst HasNoCancelled is h)
  Change-HasNoCancelled v v' (cancel n o e refusal row same is) h =
      All-shorter v.from_order (cancelled e) (subst HasNoCancelled is h)

balance_shifts : (a' a d' d x : ℤ) → a' +ℤ x ≡ a → d' ≡ d +ℤ x → a' +ℤ d' ≡ a +ℤ d
balance_shifts a' a d' d x p q = rw (← p, q) (omega int_laws)

module _ {F S : Type 0} (store : InventoryStore F S) where
  open store use {inventories, outbox}

  -- The available units of a product with those that are promised.
  abbrev pub balance : ℕ → S → ℤ
  balance k s = available_of k (inventories.rows s) +ℤ deducted_of k (payloads (outbox.rows s))

  abbrev pub HasOwnKeys : S → Type 0
  HasOwnKeys s = IsUnclashed inventory_schema.clash (inventories.rows s)

  pub record Balances (s s' : S) : Type 0 where
    pub same : (k : ℕ) → balance k s' ≡ balance k s
    pub unique : HasOwnKeys s'

  -- One event more in the outbox.
  emitted-deducted_of :
      (k i : ℕ) (e : OutboxEvent F) (s s' : S)
      → outbox.rows s' ≡ outbox.rows s ++ record e { id = i } ∷ []
      → deducted_of k (payloads (outbox.rows s'))
        ≡ deducted_of k (payloads (outbox.rows s)) +ℤ deducted_by k e.payload
  emitted-deducted_of k i e s s' rows =
      ap (deducted_of k) (ap payloads rows ∙ payloads-append (outbox.rows s) (record e { id = i }))
      ∙ deducted_of-append k (payloads (outbox.rows s)) e.payload

  pub created-Balances :
      (stamp : Stamp) (evt : OrderCreatedEvent F) (s : S)
      → HasOwnKeys s
      → Balances s (handle_order_created store stamp evt s)
  created-Balances stamp evt s u =
      let s' = handle_order_created store stamp evt s in
      elim (handle_order_created_atomic store stamp evt s) [
        | inl (same, failed) ↦
            subst (Balances s) (sym same) (record { same = λ k. refl; unique = u })
        | inr (inl ((v, (rows, found)), (i, events))) ↦
            let p = can_deduct evt.product_id evt.quantity v in
            let f = lock_units evt.quantity in
            record {
              same = λ k.
                  balance_shifts (available_of k (inventories.rows s')) _ _ _ _
                    (ap
                        (λ rs.
                          available_of k rs
                          +ℤ deducted_by k (deducted_event store stamp evt).payload)
                        rows
                      ∙ available_of-deducted k evt.product_id evt.quantity v (inventories.rows s) u
                          found)
                    (emitted-deducted_of k i (deducted_event store stamp evt) s s' events);
              unique =
                  subst (IsUnclashed inventory_schema.clash) (sym rows)
                    (IsUnclashed-map_where p f (λ r. refl) (λ r. refl) (inventories.rows s) u);
            }
        | inr (inr (e, refused, rows, (i, events))) ↦ record {
          same = λ k.
              balance_shifts (available_of k (inventories.rows s')) _ _ _ _
                (+ℤ-zero (available_of k (inventories.rows s')) ∙ ap (available_of k) rows)
                (emitted-deducted_of k i (failed_event store stamp evt e) s s' events);
          unique = subst (IsUnclashed inventory_schema.clash) (sym rows) u;
        }
      ]

  pub completed-Balances :
      (evt : OrderCompletedEvent) (s : S)
      → HasOwnKeys s
      → Balances s (handle_order_completed store evt s)
  unfolding handle_order_completed confirm_deduction
  completed-Balances evt s u =
      let p = has_locked evt.product_id evt.quantity in
      let f = sell_units evt.quantity in
      let events = completed-outbox store evt s in
      elim (Result-cases (confirm_deduction inventories evt.product_id evt.quantity s)) [
        | inr (e, r) ↦ rw (r, handle_order_completed) (record { same = λ k. refl; unique = u })
        | inl (s', r) ↦
            let rows = (update-Updated inventories p f nothing_to_confirm s s' r).0 in
            let now : handle_order_completed store evt s ≡ s' =
              rw (r, handle_order_completed) refl in
            let told : outbox.rows s' ≡ outbox.rows s = ap outbox.rows (sym now) ∙ events in
            subst (Balances s) (sym now) (record {
              same = λ k.
                  ap₂ (λ a d. a +ℤ d)
                    (ap (available_of k) rows
                      ∙ available_of-kept k p f (λ r. refl) (λ r. refl) (inventories.rows s))
                    (ap (λ o. deducted_of k (payloads o)) told);
              unique =
                  subst (IsUnclashed inventory_schema.clash) (sym rows)
                    (IsUnclashed-map_where p f (λ r. refl) (λ r. refl) (inventories.rows s) u);
            })
      ]
