-- ===== src/Saga/Spec/Caused.antt =====
-- In the saga every event and every status has its cause: an invariant of its transitions.
use distributed_software_hom.Prelude.{ℕ, String, ◌≡◌, inl, inr, All, Any}
use distributed_software_hom.Event.{
  OrderCreatedEvent, PaymentRequestedEvent, StockDeductedEvent, PaymentResultEvent, Payload,
  created, completed, cancelled, requested, deducted, deduct_failed, paid, not_paid,
}
use distributed_software_hom.Order.{Status}
use distributed_software_hom.Saga.Spec.{View, IsIn, Refusal, IsOrderFor, IsPaymentFor}

module _ {F : Type 0} where
  -- Why a payload was published.
  abbrev pub Reason : View F → Payload F → Type 0
  Reason v (created c) = Any (IsOrderFor c) v.orders
  Reason v (deducted d) =
      (c : OrderCreatedEvent F) × (d.order_no ≡ c.order_no)
      × (d.product_id ≡ c.product_id)
      × (d.quantity ≡ c.quantity)
      × IsIn (created c) v.from_order
  Reason v (deduct_failed d) =
      (c : OrderCreatedEvent F) × (d.order_no ≡ c.order_no)
      × (d.product_id ≡ c.product_id)
      × IsIn (created c) v.from_order
  Reason v (requested r) =
      (d : StockDeductedEvent) × (r.order_no ≡ d.order_no) × IsIn (deducted d) v.from_inventory
  Reason v (paid p) =
      (r : PaymentRequestedEvent F) × (p.order_no ≡ r.order_no)
      × (p.amount ≡ r.amount)
      × IsIn (requested r) v.from_order
      × Any (IsPaymentFor p 1) v.payments
  Reason v (not_paid p) =
      (r : PaymentRequestedEvent F) × (p.order_no ≡ r.order_no)
      × (p.amount ≡ r.amount)
      × IsIn (requested r) v.from_order
      × Any (IsPaymentFor p 2) v.payments
  Reason v (completed e) =
      (p : PaymentResultEvent F) × (e.order_no ≡ p.order_no) × IsIn (paid p) v.from_payment
  Reason v (cancelled e) = Refusal e.order_no v

  -- Why an order has its status.
  abbrev pub Cause : View F → String → Status → Type 0
  Cause v n Status.pending = Unit
  Cause v n Status.awaiting_payment =
      (d : StockDeductedEvent) × (d.order_no ≡ n) × IsIn (deducted d) v.from_inventory
  Cause v n Status.paid =
      (p : PaymentResultEvent F) × (p.order_no ≡ n) × IsIn (paid p) v.from_payment
  Cause v n Status.cancelled = Refusal n v

  pub record IsCaused (v : View F) : Type 0 where
    pub order_reasons : All (Reason v) v.from_order
    pub inventory_reasons : All (Reason v) v.from_inventory
    pub payment_reasons : All (Reason v) v.from_payment
    pub order_causes : All (λ o. Cause v o.order_no o.status) v.orders

  -- Nothing that a reason refers to goes away.
  pub record Grows (v v' : View F) : Type 0 where
    pub order_events : (p : Payload F) → IsIn p v.from_order → IsIn p v'.from_order
    pub inventory_events : (p : Payload F) → IsIn p v.from_inventory → IsIn p v'.from_inventory
    pub payment_events : (p : Payload F) → IsIn p v.from_payment → IsIn p v'.from_payment
    pub orders :
        (c : OrderCreatedEvent F) → Any (IsOrderFor c) v.orders → Any (IsOrderFor c) v'.orders
    pub payments :
        (p : PaymentResultEvent F) (k : ℕ)
        → Any (IsPaymentFor p k) v.payments
        → Any (IsPaymentFor p k) v'.payments

  Refusal-Grows : (v v' : View F) (n : String) → Grows v v' → Refusal n v → Refusal n v'
  Refusal-Grows v v' n g (inl (d, same, there)) =
      inl (d, same, g.inventory_events (deduct_failed d) there)
  Refusal-Grows v v' n g (inr (p, same, there)) = inr (p, same, g.payment_events (not_paid p) there)

  pub Reason-Grows : (v v' : View F) (p : Payload F) → Grows v v' → Reason v p → Reason v' p
  Reason-Grows v v' (created c) g h = g.orders c h
  Reason-Grows v v' (deducted d) g (c, n, pid, q, there) =
      (c, n, pid, q, g.order_events (created c) there)
  Reason-Grows v v' (deduct_failed d) g (c, n, pid, there) =
      (c, n, pid, g.order_events (created c) there)
  Reason-Grows v v' (requested r) g (d, n, there) = (d, n, g.inventory_events (deducted d) there)
  Reason-Grows v v' (paid p) g (r, n, a, there, row) =
      (r, n, a, g.order_events (requested r) there, g.payments p 1 row)
  Reason-Grows v v' (not_paid p) g (r, n, a, there, row) =
      (r, n, a, g.order_events (requested r) there, g.payments p 2 row)
  Reason-Grows v v' (completed e) g (p, n, there) = (p, n, g.payment_events (paid p) there)
  Reason-Grows v v' (cancelled e) g h = Refusal-Grows v v' e.order_no g h

  pub Cause-Grows :
      (v v' : View F) (n : String) (s : Status) → Grows v v' → Cause v n s → Cause v' n s
  Cause-Grows v v' n Status.pending g h = tt
  Cause-Grows v v' n Status.awaiting_payment g (d, same, there) =
      (d, same, g.inventory_events (deducted d) there)
  Cause-Grows v v' n Status.paid g (p, same, there) = (p, same, g.payment_events (paid p) there)
  Cause-Grows v v' n Status.cancelled g h = Refusal-Grows v v' n g h
