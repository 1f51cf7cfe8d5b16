-- ===== src/Saga/Spec/Kept.antt =====
-- The transitions of the saga keep the causes.
use distributed_software_hom.Prelude.{
  String, ◌≡◌, inl, inr, refl, sym, subst, List, [], ◌∷◌, ◌++◌, All, Any, Any-front, Any-last,
  All-append, All-weaken, Bool-cases, eq_iff,
}
use distributed_software_hom.Database.Rows.{All-map_where}
use distributed_software_hom.Event.{
  OrderCreatedEvent, Payload, created, completed, cancelled, requested, deducted, deduct_failed,
  paid, not_paid,
}
use distributed_software_hom.Order.{Order, Status, by_order_no, with_status}
use distributed_software_hom.Payment.{Payment}
use distributed_software_hom.Saga.Spec.{
  View, IsIn, set_status, IsOrderFor, IsPaymentFor, Change, idle, place, deduct, fail, request, pay,
  decline, complete, cancel,
}
use distributed_software_hom.Saga.Spec.Caused.{
  Reason, Cause, IsCaused, Grows, Reason-Grows, Cause-Grows,
}

module _ {F : Type 0} where
  set_status-Any :
      (c : OrderCreatedEvent F) (n : String) (s : Status) (os : List (Order F))
      → Any (IsOrderFor c) os
      → Any (IsOrderFor c) (set_status n s os)
  set_status-Any c n s [] h = absurd h
  set_status-Any c n s (o ∷ os) (inl here) = elim (Bool-cases (by_order_no n o)) [
    | inl mine ↦ rw mine (inl here)
    | inr other ↦ rw other (inl here)
  ]
  set_status-Any c n s (o ∷ os) (inr there) = inr (set_status-Any c n s os there)

  set_status-Causes :
      (v : View F) (n : String) (s : Status) (os : List (Order F))
      → Cause v n s
      → All (λ o. Cause v o.order_no o.status) os
      → All (λ o. Cause v o.order_no o.status) (set_status n s os)
  set_status-Causes v n s os new h =
      All-map_where (λ o. Cause v o.order_no o.status) (by_order_no n) (with_status s)
        (λ o old mine. subst (λ m. Cause v m s) (sym ((eq_iff o.order_no n).0 mine)) new) os h

  -- A view that grows is caused, if its new events and statuses are.
  grown-IsCaused :
      (v v' : View F)
      → Grows v v'
      → (All (Reason v') v.from_order → All (Reason v') v'.from_order)
      → (All (Reason v') v.from_inventory → All (Reason v') v'.from_inventory)
      → (All (Reason v') v.from_payment → All (Reason v') v'.from_payment)
      → (All (λ o. Cause v' o.order_no o.status) v.orders
          → All (λ o. Cause v' o.order_no o.status) v'.orders)
      → IsCaused v
      → IsCaused v'
  grown-IsCaused v v' g a b c d h =
      let old : (ps : List (Payload F)) → All (Reason v) ps → All (Reason v') ps =
        λ ps. All-weaken (Reason v) (Reason v') (λ p. Reason-Grows v v' p g) ps in
      record {
        order_reasons = a (old v.from_order h.order_reasons);
        inventory_reasons = b (old v.from_inventory h.inventory_reasons);
        payment_reasons = c (old v.from_payment h.payment_reasons);
        order_causes = d (
            All-weaken (λ o. Cause v o.order_no o.status) (λ o. Cause v' o.order_no o.status)
              (λ o. Cause-Grows v v' o.order_no o.status g) v.orders h.order_causes);
      }

  front :
      (p : Payload F) (ps : List (Payload F)) (e : Payload F) → IsIn p ps → IsIn p (ps ++ e ∷ [])
  front p ps e = Any-front (λ q. q ≡ p) ps (e ∷ [])

  append :
      (v : View F) (ps : List (Payload F)) (e : Payload F)
      → Reason v e
      → All (Reason v) ps
      → All (Reason v) (ps ++ e ∷ [])
  append v ps e new h = All-append (Reason v) ps (e ∷ []) h (new, tt)

  -- An event of the inventory service.
  from_inventory-IsCaused :
      (v : View F) (e : Payload F)
      → let v' : View F = record v { from_inventory = v.from_inventory ++ e ∷ [] } in
        Reason v' e → IsCaused v → IsCaused v'
  from_inventory-IsCaused v e new h =
      let v' : View F = record v { from_inventory = v.from_inventory ++ e ∷ [] } in
      let g : Grows v v' = record {
        order_events = λ p i. i;
        inventory_events = λ p. front p v.from_inventory e;
        payment_events = λ p i. i;
        orders = λ c i. i;
        payments = λ p k i. i;
      } in
      grown-IsCaused v v' g (λ r. r) (append v' v.from_inventory e new) (λ r. r) (λ r. r) h

  -- An event of the payment service, with its payment.
  from_payment-IsCaused :
      (v : View F) (e : Payload F) (x : Payment F)
      → let v' : View F = record v {
        from_payment = v.from_payment ++ e ∷ [];
        payments = v.payments ++ x ∷ [];
      } in
        Reason v' e → IsCaused v → IsCaused v'
  from_payment-IsCaused v e x new h =
      let v' : View F = record v {
        from_payment = v.from_payment ++ e ∷ [];
        payments = v.payments ++ x ∷ [];
      } in
      let g : Grows v v' = record {
        order_events = λ p i. i;
        inventory_events = λ p i. i;
        payment_events = λ p. front p v.from_payment e;
        orders = λ c i. i;
        payments = λ p k. Any-front (IsPaymentFor p k) v.payments (x ∷ []);
      } in
      grown-IsCaused v v' g (λ r. r) (λ r. r) (append v' v.from_payment e new) (λ r. r) h

  -- An event of the order service, with the new status of its order.
  advanced-IsCaused :
      (v : View F) (n : String) (s : Status) (e : Payload F)
      → let v' : View F = record v {
        from_order = v.from_order ++ e ∷ [];
        orders = set_status n s v.orders;
      } in
        Reason v' e → Cause v' n s → IsCaused v → IsCaused v'
  advanced-IsCaused v n s e new cause h =
      let v' : View F = record v {
        from_order = v.from_order ++ e ∷ [];
        orders = set_status n s v.orders;
      } in
      let g : Grows v v' = record {
        order_events = λ p. front p v.from_order e;
        inventory_events = λ p i. i;
        payment_events = λ p i. i;
        orders = λ c. set_status-Any c n s v.orders;
        payments = λ p k i. i;
      } in
      grown-IsCaused v v' g (append v' v.from_order e new) (λ r. r) (λ r. r)
        (set_status-Causes v' n s v.orders cause) h

  placed-IsCaused :
      (v : View F) (c : OrderCreatedEvent F) (o : Order F)
      → IsOrderFor c o
      → o.status ≡ Status.pending
      → IsCaused v
      → IsCaused
          (record v { from_order = v.from_order ++ created c ∷ []; orders = v.orders ++ o ∷ [] })
  placed-IsCaused v c o mine fresh h =
      let v' : View F = record v {
        from_order = v.from_order ++ created c ∷ [];
        orders = v.orders ++ o ∷ [];
      } in
      let g : Grows v v' = record {
        order_events = λ p. front p v.from_order (created c);
        inventory_events = λ p i. i;
        payment_events = λ p i. i;
        orders = λ d. Any-front (IsOrderFor d) v.orders (o ∷ []);
        payments = λ p k i. i;
      } in
      grown-IsCaused v v' g
        (append v' v.from_order (created c) (Any-last (IsOrderFor c) v.orders o mine)) (λ r. r)
        (λ r. r)
        (λ r.
          All-append (λ x. Cause v' x.order_no x.status) v.orders (o ∷ []) r
            (subst (Cause v' o.order_no) (sym fresh) tt, tt))
        h

  -- A transition keeps the causes.
  pub Change-IsCaused : (v v' : View F) → Change v v' → IsCaused v → IsCaused v'
  Change-IsCaused v v' (idle e) h = subst IsCaused (sym e) h
  Change-IsCaused v v' (place c o mine fresh counted e) h =
      subst IsCaused (sym e) (placed-IsCaused v c o mine fresh h)
  Change-IsCaused v v' (deduct c d there (n, pid, q) e) h =
      subst IsCaused (sym e) (from_inventory-IsCaused v (deducted d) (c, n, pid, q, there) h)
  Change-IsCaused v v' (fail c d there (n, pid) e) h =
      subst IsCaused (sym e) (from_inventory-IsCaused v (deduct_failed d) (c, n, pid, there) h)
  Change-IsCaused v v' (request d r there n e) h = subst IsCaused (sym e) (
      advanced-IsCaused v d.order_no Status.awaiting_payment (requested r) (d, n, there)
        (d, refl, there) h)
  Change-IsCaused v v' (pay r p x there (n, a) mine e) h = subst IsCaused (sym e) (
      from_payment-IsCaused v (paid p) x
        (r, n, a, there, Any-last (IsPaymentFor p 1) v.payments x mine) h)
  Change-IsCaused v v' (decline r p x there (n, a) mine e) h = subst IsCaused (sym e) (
      from_payment-IsCaused v (not_paid p) x
        (r, n, a, there, Any-last (IsPaymentFor p 2) v.payments x mine) h)
  Change-IsCaused v v' (complete p o e there row (n, pid, q) same) h =
      subst IsCaused (sym same)
        (advanced-IsCaused v p.order_no Status.paid (completed e) (p, n, there) (p, refl, there) h)
  Change-IsCaused v v' (cancel n o e refusal row (mine, uid, q) same) h =
      subst IsCaused (sym same)
        (advanced-IsCaused v n Status.cancelled (cancelled e) (rw mine refusal) refusal h)
