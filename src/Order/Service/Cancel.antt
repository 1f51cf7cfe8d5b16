-- ===== src/Order/Service/Cancel.antt =====
-- `CancelOrder` of internal/order/service.go: who may cancel what, and what it gives back.
use distributed_software_hom.Prelude.{
  ℕ, suc, sym, subst, ap, ◌≡◌, refl, inl, inr, some, true, arith, ◌∙◌, find?, Bool-cases, ◌==◌,
  ◌&&◌, false, if◌then◌else◌,
}
use distributed_software_hom.Result.{
  Error, ok, err, not_order_owner, order_not_pending, Result-cases,
}
use distributed_software_hom.Database.Rows.{map_where}
use distributed_software_hom.Inventory.{Inventory, has_locked, unlock_units, return_stock}
use distributed_software_hom.Inventory.Updates.{Updated, return_stock-Updated}
use distributed_software_hom.Order.{
  Order, Status, pending, with_status, get_order_by_id, update_status_tx,
}
use distributed_software_hom.Order.Service.{
  Monolith, is_pending, return_and_cancel, cancel_body, cancel_order,
}

is_pending-eq : (status : Status) → is_pending status ≡ true → status ≡ pending
is_pending-eq pending h = refl
is_pending-eq _ h = ground arith

module _ {F S : Type 0} (mono : Monolith F S) where
  open mono use {store, inventories, transactions}

  -- The order that an id names.
  abbrev pub IsOrderWithId : ℕ → Order F → S → Type 0
  IsOrderWithId id o s = find? (λ x. x.id == id) (store.orders.rows s) ≡ some o

  -- What an accepted cancellation has done.
  abbrev pub CancelledBy : ℕ → ℕ → Order F → S → S → Type 0
  CancelledBy uid id o s s' =
      IsOrderWithId id o s
      × (o.user_id ≡ uid)
      × (o.status ≡ pending)
      × Updated inventories (has_locked o.product_id o.quantity) (unlock_units o.quantity) s s'
      × (store.orders.rows s'
          ≡ map_where (λ x. x.id == id) (with_status Status.cancelled) (store.orders.rows s))

  return_and_cancel-ok :
      (id : ℕ) (o o' : Order F) (s s' : S)
      → return_and_cancel mono id o s ≡ ok (o', s')
      → (o' ≡ o)
        × Updated inventories (has_locked o.product_id o.quantity) (unlock_units o.quantity) s s'
        × (store.orders.rows s'
            ≡ map_where (λ x. x.id == id) (with_status Status.cancelled) (store.orders.rows s))
  unfolding return_and_cancel update_status_tx
  return_and_cancel-ok id o o' s s' h =
      elim (Result-cases (return_stock inventories o.product_id o.quantity s)) [
        | inr (e, r) ↦ ground arith
        | inl (t, r) ↦
            let p = λ (x : Order F). x.id == id in
            let f = λ (x : Order F). with_status Status.cancelled x in
            elim (Result-cases (store.orders.update p f t)) [
              | inr (e, w) ↦ ground arith
              | inl (c, w) ↦
                  let (n, u, updated) =
                    return_stock-Updated inventories o.product_id o.quantity s t r in
                  let g = has_locked o.product_id o.quantity in
                  let unlocked = λ (x : Inventory). unlock_units o.quantity x in
                  let last : c.1 ≡ s' = ground arith in
                  let w' : store.orders.update p f t ≡ ok (c.0, s') = ground arith in
                  (
                    ground arith,
                    (mono.orders_apart.update_apart p f t c.0 s' w' ∙ updated.0, updated.1),
                    store.orders.update_rows p f t c.0 s' w'
                        ∙ ap (map_where p f)
                            (mono.inventories_apart.update_apart g unlocked s (suc n) t u),
                  )
            ]
      ]

  cancel_body-ok :
      (uid id : ℕ) (o : Order F) (s s' : S)
      → cancel_body mono uid id s ≡ ok (o, s')
      → CancelledBy uid id o s s'
  unfolding cancel_body get_order_by_id
  cancel_body-ok uid id o s s' h = elim (Result-cases (get_order_by_id store.orders id s)) [
    | inr (e, r) ↦ ground arith
    | inl (o1, r) ↦ elim (Bool-cases (o1.user_id == uid)) [
      | inr other ↦ ground arith
      | inl mine ↦ elim (Bool-cases (is_pending o1.status)) [
        | inr late ↦ ground arith
        | inl early ↦
            let b : return_and_cancel mono id o1 s ≡ ok (o, s') = ground arith in
            let (same, updated, rows) = return_and_cancel-ok id o1 o s s' b in
            let found = store.orders.first_ok (λ x. x.id == id) s o1 r in
            subst (λ x. CancelledBy uid id x s s') (sym same)
              (found, ground arith, is_pending-eq o1.status early, updated, rows)
      ]
    ]
  ]

  -- An accepted cancellation was of a pending order of this user; it has moved the order's units from
  -- locked back to available, and has set the status, both in one transaction.
  pub cancel_order_ok :
      (uid id : ℕ) (o' : Order F) (s s' : S)
      → cancel_order mono uid id s ≡ (ok o', s')
      → (o : Order F) × (o' ≡ with_status Status.cancelled o) × CancelledBy uid id o s s'
  unfolding cancel_order
  cancel_order_ok uid id o' s s' h =
      elim (Result-cases (transactions.transaction (cancel_body mono uid id) s)) [
        | inr (e, r) ↦ ground arith
        | inl (c, r) ↦
            let last : c.1 ≡ s' = ground arith in
            let body : cancel_body mono uid id s ≡ ok (c.0, s') =
              subst (λ x. cancel_body mono uid id s ≡ ok (c.0, x)) last
                (transactions.commits (cancel_body mono uid id) s c.0 c.1 r) in
            (c.0, ground arith, cancel_body-ok uid id c.0 s s' body)
      ]

  -- A cancellation by another user, or of an order that is no longer pending, changes nothing and
  -- ends with the error of its case; the owner is checked first.
  pub cancel_order_refused :
      (uid id : ℕ) (o : Order F) (s : S)
      → get_order_by_id store.orders id s ≡ ok o
      → (o.user_id == uid && is_pending o.status) ≡ false
      → cancel_order mono uid id s
        ≡ (err (if o.user_id == uid then order_not_pending else not_order_owner), s)
  unfolding cancel_order cancel_body
  cancel_order_refused uid id o s r refused =
      let e : Error = if o.user_id == uid then order_not_pending else not_order_owner in
      let body : cancel_body mono uid id s ≡ err e = ground arith in
      ground (arith, transactions.aborts (cancel_body mono uid id) s e body)

  -- A cancellation that fails changes nothing.
  pub cancel_order_failed :
      (uid id : ℕ) (s : S) (e : Error)
      → (cancel_order mono uid id s).0 ≡ err e
      → (cancel_order mono uid id s).1 ≡ s
  unfolding cancel_order
  cancel_order_failed uid id s e h =
      elim (Result-cases (transactions.transaction (cancel_body mono uid id) s)) [
        | inr (e', r) ↦ ground (arith, r)
        | inl (c, r) ↦ ground (arith, h, r)
      ]
