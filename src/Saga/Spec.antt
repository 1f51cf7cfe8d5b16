-- ===== src/Saga/Spec.antt =====
-- What the saga promises, apart from how the services store it: which events they have published,
-- and the orders and payments. Events may be delivered in any order and more than once.
pub mod Caused
pub mod Counted
pub mod Kept
use distributed_software_hom.Prelude.{ℕ, String, ◌≡◌, ◌⊎◌, List, [], ◌∷◌, ◌++◌, Any}
use distributed_software_hom.Prelude.Int.{pos, ◌≤ℤ◌}
use distributed_software_hom.Database.Rows.{map_where}
use distributed_software_hom.Event.{
  OrderCreatedEvent, OrderCompletedEvent, OrderCancelledEvent, PaymentRequestedEvent,
  StockDeductedEvent, StockDeductFailedEvent, PaymentResultEvent, Payload, created, completed,
  cancelled, requested, deducted, deduct_failed, paid, not_paid,
}
use distributed_software_hom.Order.{Order, Status, by_order_no, with_status}
use distributed_software_hom.Payment.{Payment}

pub record View (F : Type 0) : Type 0 where
  pub from_order : List (Payload F)
  pub from_inventory : List (Payload F)
  pub from_payment : List (Payload F)
  pub orders : List (Order F)
  pub payments : List (Payment F)

module _ {F : Type 0} where
  abbrev pub IsIn : Payload F → List (Payload F) → Type 0
  IsIn p = Any (λ q. q ≡ p)

  abbrev pub set_status : String → Status → List (Order F) → List (Order F)
  set_status n status = map_where (by_order_no n) (with_status status)

  -- An event that cancels the order `n`.
  abbrev pub Refusal : String → View F → Type 0
  Refusal n v =
      ((d : StockDeductFailedEvent) × (d.order_no ≡ n) × IsIn (deduct_failed d) v.from_inventory)
      ⊎ ((p : PaymentResultEvent F) × (p.order_no ≡ n) × IsIn (not_paid p) v.from_payment)

  abbrev pub IsOrderFor : OrderCreatedEvent F → Order F → Type 0
  IsOrderFor c o =
      (o.order_no ≡ c.order_no)
      × (o.user_id ≡ c.user_id)
      × (o.product_id ≡ c.product_id)
      × (o.quantity ≡ c.quantity)

  -- The order `o` with the number `n` is in the table.
  abbrev pub IsRow : Order F → String → View F → Type 0
  IsRow o n v = Any (λ x. x ≡ o) v.orders × (o.order_no ≡ n)

  abbrev pub IsPaymentFor : PaymentResultEvent F → ℕ → Payment F → Type 0
  IsPaymentFor p status x =
      (x.order_no ≡ p.order_no)
      × (x.payment_id ≡ p.payment_id)
      × (x.amount ≡ p.amount)
      × (x.status ≡ status)

  -- One transition of the saga.
  pub data Change (v v' : View F) : Type 0 where
    idle : v' ≡ v → Change v v'
    place :
        (c : OrderCreatedEvent F) (o : Order F)
        → IsOrderFor c o
        → o.status ≡ Status.pending
        → pos 1 ≤ℤ c.quantity
        → v' ≡ record v { from_order = v.from_order ++ created c ∷ []; orders = v.orders ++ o ∷ [] }
        → Change v v'
    deduct :
        (c : OrderCreatedEvent F) (d : StockDeductedEvent)
        → IsIn (created c) v.from_order
        → (d.order_no ≡ c.order_no) × (d.product_id ≡ c.product_id) × (d.quantity ≡ c.quantity)
        → v' ≡ record v { from_inventory = v.from_inventory ++ deducted d ∷ [] }
        → Change v v'
    fail :
        (c : OrderCreatedEvent F) (d : StockDeductFailedEvent)
        → IsIn (created c) v.from_order
        → (d.order_no ≡ c.order_no) × (d.product_id ≡ c.product_id)
        → v' ≡ record v { from_inventory = v.from_inventory ++ deduct_failed d ∷ [] }
        → Change v v'
    request :
        (d : StockDeductedEvent) (r : PaymentRequestedEvent F)
        → IsIn (deducted d) v.from_inventory
        → r.order_no ≡ d.order_no
        → v' ≡ record v {
          from_order = v.from_order ++ requested r ∷ [];
          orders = set_status d.order_no Status.awaiting_payment v.orders;
        }
        → Change v v'
    pay :
        (r : PaymentRequestedEvent F) (p : PaymentResultEvent F) (x : Payment F)
        → IsIn (requested r) v.from_order
        → (p.order_no ≡ r.order_no) × (p.amount ≡ r.amount)
        → IsPaymentFor p 1 x
        → v' ≡ record v {
          from_payment = v.from_payment ++ paid p ∷ [];
          payments = v.payments ++ x ∷ [];
        }
        → Change v v'
    decline :
        (r : PaymentRequestedEvent F) (p : PaymentResultEvent F) (x : Payment F)
        → IsIn (requested r) v.from_order
        → (p.order_no ≡ r.order_no) × (p.amount ≡ r.amount)
        → IsPaymentFor p 2 x
        → v' ≡ record v {
          from_payment = v.from_payment ++ not_paid p ∷ [];
          payments = v.payments ++ x ∷ [];
        }
        → Change v v'
    complete :
        (p : PaymentResultEvent F) (o : Order F) (e : OrderCompletedEvent)
        → IsIn (paid p) v.from_payment
        → IsRow o p.order_no v
        → (e.order_no ≡ p.order_no) × (e.product_id ≡ o.product_id) × (e.quantity ≡ o.quantity)
        → v' ≡ record v {
          from_order = v.from_order ++ completed e ∷ [];
          orders = set_status p.order_no Status.paid v.orders;
        }
        → Change v v'
    cancel :
        (n : String) (o : Order F) (e : OrderCancelledEvent)
        → Refusal n v
        → IsRow o n v
        → (e.order_no ≡ n) × (e.user_id ≡ o.user_id) × (e.quantity ≡ o.quantity)
        → v' ≡ record v {
          from_order = v.from_order ++ cancelled e ∷ [];
          orders = set_status n Status.cancelled v.orders;
        }
        → Change v v'
