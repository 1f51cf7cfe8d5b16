-- ===== src/Saga/Others.antt =====
-- What the inventory and the payment service do to the saga: each event that they consume is one of
-- the transitions of Saga.Spec, or none.
use distributed_software_hom.Prelude.{
  arith, Bool-cases, ℕ, suc, String, Bool, true, false, ◌≡◌, inl, inr, refl, ap, ap₂, ◌∙◌, [], ◌∷◌,
  ◌++◌,
}
use distributed_software_hom.Prelude.Int.{ℤ}
use distributed_software_hom.Result.{Error, ok, is_record_not_found, ◌>>=◌, Result-cases}
use distributed_software_hom.Redis.{Redis}
use distributed_software_hom.Event.{
  Payload, created, completed, cancelled, requested, deducted, deduct_failed, paid, not_paid, event,
  Stamp, PaymentRequestedEvent, payment_events, OrderCompletedEvent,
}
use distributed_software_hom.Outbox
use distributed_software_hom.Outbox.{OutboxEvent, unsent}
use distributed_software_hom.Inventory.{
  Inventory, deduct, no_others, can_deduct, lock_units, get_by_product_id, has_locked, unlock_units,
  sell_units, affected_or, confirm_deduction, return_stock,
}
use distributed_software_hom.Inventory.Deduct.{deduct_outcome}
use distributed_software_hom.Inventory.SetTotal.{set_inventory, settled, new_inventory}
use distributed_software_hom.Inventory.Updates.{affected_or-eq-ok}
use distributed_software_hom.Inventory.Events.{
  InventoryStore, handle_order_created, handle_order_completed, returned, handle_order_cancelled,
  handle_order_event,
}
use distributed_software_hom.Inventory.Events.Atomic.{
  deducted_event, failed_event, handle_order_created_atomic,
}
use distributed_software_hom.Payment
use distributed_software_hom.Payment.{
  Payment, PaymentStore, Probabilities, result_type, result_payload, result_event, new_payment,
}
use distributed_software_hom.Payment.Atomic.{Recorded, handle_order_event_atomic}
use distributed_software_hom.Saga.{payloads, payloads-append}
use distributed_software_hom.Saga.Spec.{View, IsIn, Change}

module _ {F S : Type 0} (store : InventoryStore F S) where
  open store use {inventories, outbox}

  abbrev pub stock_seen : View F → S → View F
  stock_seen v s = record v { from_inventory = payloads (outbox.rows s) }

  emitted-seen :
      (v : View F) (e : OutboxEvent F) (i : ℕ) (s s' : S)
      → outbox.rows s' ≡ outbox.rows s ++ record e { id = i } ∷ []
      → stock_seen v s' ≡ record v { from_inventory = payloads (outbox.rows s) ++ e.payload ∷ [] }
  emitted-seen v e i s s' rows =
      ap (λ x. record v { from_inventory = x })
        (ap payloads rows ∙ payloads-append (outbox.rows s) (record e { id = i }))

  -- An update of the stock that is no event.
  update-outbox :
      (p : Inventory → Bool) (f : Inventory → Inventory) (e : Error) (s s' : S)
      → (inventories.update p f s >>= affected_or e) ≡ ok s'
      → outbox.rows s' ≡ outbox.rows s
  update-outbox p f e s s' h =
      let (n, done) = affected_or-eq-ok (inventories.update p f s) e s' h in
      store.inventories_apart.update_apart p f s (suc n) s' done

  pub completed-outbox :
      (evt : OrderCompletedEvent) (s : S)
      → outbox.rows (handle_order_completed store evt s) ≡ outbox.rows s
  unfolding handle_order_completed confirm_deduction
  completed-outbox evt s =
      elim (Result-cases (confirm_deduction inventories evt.product_id evt.quantity s)) [
        | inr (e, r) ↦ rw (r, handle_order_completed) refl
        | inl (s', r) ↦
            rw (r, handle_order_completed)
              (update-outbox (has_locked evt.product_id evt.quantity) (sell_units evt.quantity) _ s
                s' r)
      ]

  returned-outbox : (pid : ℕ) (q : ℤ) (s : S) → outbox.rows (returned store pid q s) ≡ outbox.rows s
  unfolding returned return_stock
  returned-outbox pid q s = elim (Result-cases (return_stock inventories pid q s)) [
    | inr (e, r) ↦ rw (r, returned) refl
    | inl (s', r) ↦ rw (r, returned) (update-outbox (has_locked pid q) (unlock_units q) _ s s' r)
  ]

  -- What an administrator does to the stock is no event.
  pub deduct-outbox :
      (pid : ℕ) (q : ℤ) (s : S)
      → outbox.rows (deduct inventories no_others pid q s).1 ≡ outbox.rows s
  deduct-outbox pid q s = elim (deduct_outcome inventories pid q s) [
    | inl (e, r) ↦ rw r refl
    | inr (s', v, n, r, u) ↦
        rw r
          (store.inventories_apart.update_apart (can_deduct pid q v) (lock_units q) s (suc n) s' u)
  ]

  pub set_inventory-outbox :
      (meanwhile : S → S) (pid : ℕ) (total : ℤ) (s s' : S) (saved : Inventory)
      → set_inventory inventories meanwhile pid total s ≡ ok (saved, s')
      → outbox.rows s' ≡ outbox.rows (meanwhile s)
  unfolding set_inventory
  set_inventory-outbox meanwhile pid total s s' saved h =
      elim (Result-cases (get_by_product_id inventories pid s)) [
        | inl (inv, r) ↦
            store.inventories_apart.save_apart (settled total inv) (meanwhile s) saved s'
              (rw (r, set_inventory) at h)
        | inr (e, r) ↦ elim (Bool-cases (is_record_not_found e)) [
          | inl missing ↦
              store.inventories_apart.save_apart (new_inventory pid total) (meanwhile s) saved s'
                (ground (arith, h, r, missing))
          | inr other ↦ absurd (ground (arith, h, r, other))
        ]
      ]

  -- Each event that the inventory service consumes is a transition, or none.
  pub stock_event-Change :
      {D : Type 0} (redis : Redis D) (v : View F) (stamp : Stamp) (p : Payload F) (s : S) (d : D)
      → IsIn p v.from_order
      → Change
          (stock_seen v s)
          (stock_seen v (handle_order_event store redis stamp (event p) s d).0)
  unfolding handle_order_event handle_order_cancelled
  stock_event-Change redis v stamp (created evt) s d there =
      elim (handle_order_created_atomic store stamp evt s) [
        | inl (same, failed) ↦ Change.idle (ap (stock_seen v) same)
        | inr (inl (done, (i, rows))) ↦
            Change.deduct evt _ there (refl, refl, refl)
              (emitted-seen v (deducted_event store stamp evt) i s
                (handle_order_created store stamp evt s) rows)
        | inr (inr (e, refused, same, (i, rows))) ↦
            Change.fail evt _ there (refl, refl)
              (emitted-seen v (failed_event store stamp evt e) i s
                (handle_order_created store stamp evt s) rows)
      ]
  stock_event-Change redis v stamp (completed evt) s d there =
      Change.idle (ap (λ x. record v { from_inventory = payloads x }) (completed-outbox evt s))
  stock_event-Change redis v stamp (cancelled evt) s d there = Change.idle (
      ap (λ x. record v { from_inventory = payloads x })
        (returned-outbox evt.product_id evt.quantity s))
  stock_event-Change redis v stamp (requested e) s d there = Change.idle refl
  stock_event-Change redis v stamp (deducted e) s d there = Change.idle refl
  stock_event-Change redis v stamp (deduct_failed e) s d there = Change.idle refl
  stock_event-Change redis v stamp (paid e) s d there = Change.idle refl
  stock_event-Change redis v stamp (not_paid e) s d there = Change.idle refl

module _ {F S : Type 0} (store : PaymentStore F S) where
  open store use {payments, outbox}

  abbrev pub payment_seen : View F → S → View F
  payment_seen v s = record v {
    from_payment = payloads (outbox.rows s);
    payments = payments.rows s;
  }

  recorded-seen :
      (v : View F) (stamp : Stamp) (id : String) (evt : PaymentRequestedEvent F) (success : Bool)
      (i j : ℕ) (s s' : S)
      → payments.rows s' ≡ payments.rows s ++ record (new_payment id evt success) { id = i } ∷ []
      → outbox.rows s'
        ≡ outbox.rows s
          ++ record (unsent Outbox.payment evt.order_no
              (result_type success)
              payment_events
              (result_payload success (result_event stamp id evt))) { id = j }
            ∷ []
      → payment_seen v s' ≡ record v {
        from_payment =
            payloads (outbox.rows s) ++ result_payload success (result_event stamp id evt) ∷ [];
        payments = payments.rows s ++ record (new_payment id evt success) { id = i } ∷ [];
      }
  recorded-seen v stamp id evt success i j s s' rows events =
      let row =
        unsent Outbox.payment evt.order_no (result_type success) payment_events
          (result_payload success (result_event stamp id evt)) in
      ap₂ (λ a b. record v { from_payment = a; payments = b })
        (ap payloads events ∙ payloads-append (outbox.rows s) (record row { id = j })) rows

  recorded-Change :
      (v : View F) (stamp : Stamp) (id : String) (evt : PaymentRequestedEvent F) (success : Bool)
      (s s' : S)
      → IsIn (requested evt) v.from_order
      → Recorded store stamp id evt success s s'
      → Change (payment_seen v s) (payment_seen v s')
  recorded-Change v stamp id evt true s s' there (i, j, rows, events) =
      Change.pay evt (result_event stamp id evt) (record (new_payment id evt true) { id = i }) there
        (refl, refl) (refl, refl, refl, refl)
        (recorded-seen v stamp id evt true i j s s' rows events)
  recorded-Change v stamp id evt false s s' there (i, j, rows, events) =
      Change.decline evt (result_event stamp id evt) (record (new_payment id evt false) { id = i })
        there (refl, refl) (refl, refl, refl, refl)
        (recorded-seen v stamp id evt false i j s s' rows events)

  -- Each event that the payment service consumes is a transition, or none.
  pub payment_event-Change :
      (v : View F) (prob : Probabilities F) (rate roll : F) (stamp : Stamp) (id : String)
      (p : Payload F) (s : S)
      → IsIn p v.from_order
      → Change
          (payment_seen v s)
          (payment_seen v (Payment.handle_order_event store prob rate roll stamp id (event p) s))
  unfolding Payment.handle_order_event
  payment_event-Change v prob rate roll stamp id (requested evt) s there =
      elim (handle_order_event_atomic store prob rate roll stamp id evt s) [
        | inl (same, failed) ↦ Change.idle (ap (payment_seen v) same)
        | inr recorded ↦ recorded-Change v stamp id evt (prob.less roll rate) s _ there recorded
      ]
  payment_event-Change v prob rate roll stamp id (created e) s there = Change.idle refl
  payment_event-Change v prob rate roll stamp id (completed e) s there = Change.idle refl
  payment_event-Change v prob rate roll stamp id (cancelled e) s there = Change.idle refl
  payment_event-Change v prob rate roll stamp id (deducted e) s there = Change.idle refl
  payment_event-Change v prob rate roll stamp id (deduct_failed e) s there = Change.idle refl
  payment_event-Change v prob rate roll stamp id (paid e) s there = Change.idle refl
  payment_event-Change v prob rate roll stamp id (not_paid e) s there = Change.idle refl
