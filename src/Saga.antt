-- ===== src/Saga.antt =====
-- The services of the saga together: the order, the inventory and the payment service (cmd/order-service,
-- cmd/inventory-service and cmd/payment-service), each with its database, and Redis. A published event
-- may reach a consumer at any time after it was written to the outbox, in any order and more than once.
-- The databases change by these steps only; Redis may change at any time (keys expire). The steps leave
-- out POST /orders and PUT /orders/:id/cancel, which cmd/order-service also serves: both first change
-- the inventory table, which the database of that service does not have, so that they fail there.
pub mod Spec
pub mod Orders
pub mod Others
pub mod Steps
pub mod Stock
pub mod Consumers
pub mod Balance
pub mod Deliveries
pub mod Paid
pub mod Completed
pub mod Compensated
use distributed_software_hom.Prelude.{
  ℕ, String, ◌≡◌, refl, List, [], ◌∷◌, ◌++◌, ap, Bool, true, ◌∙◌, ◌==◌, Bool-cases, inl, inr,
}
use distributed_software_hom.Prelude.Int.{ℤ, pos, ◌≤ℤ◌}
use distributed_software_hom.Result.{Result, ok, err, Result-cases}
use distributed_software_hom.Database.{Table}
use distributed_software_hom.Database.Rows.{map_where}
use distributed_software_hom.Redis.{Redis}
use distributed_software_hom.Event.{Payload, event, Stamp}
use distributed_software_hom.Outbox.{OutboxEvent, outbox_schema}
use distributed_software_hom.Outbox.Relay.{mark_sent}
use distributed_software_hom.Inventory.{Inventory, deduct, no_others}
use distributed_software_hom.Inventory.SetTotal.{set_inventory}
use distributed_software_hom.Inventory.Events.{InventoryStore, handle_order_event}
use distributed_software_hom.Order.{CreateOrderRequest}
use distributed_software_hom.Order.Store.{Floats, OrderStore}
use distributed_software_hom.Order.Seckill.{seckill}
use distributed_software_hom.Order.Events.{handle_inventory_event, handle_payment_event}
use distributed_software_hom.Payment
use distributed_software_hom.Payment.{PaymentStore, Probabilities}
use Spec.{View, IsIn}

-- The payloads of an outbox, in the order of their writing.
abbrev pub payloads : {F : Type 0} → List (OutboxEvent F) → List (Payload F)
payloads [] = []
payloads (e ∷ es) = e.payload ∷ payloads es

pub payloads-append :
    {F : Type 0} (front : List (OutboxEvent F)) (e : OutboxEvent F)
    → payloads (front ++ e ∷ []) ≡ payloads front ++ e.payload ∷ []
payloads-append [] e = refl
payloads-append (x ∷ front) e = ap (λ l. x.payload ∷ l) (payloads-append front e)

-- A new mark is no new event.
payloads-map_where :
    {F : Type 0} (p : OutboxEvent F → Bool) (es : List (OutboxEvent F))
    → payloads (map_where p (λ e. record e { sent = true }) es) ≡ payloads es
payloads-map_where p [] = refl
payloads-map_where p (e ∷ es) = elim (Bool-cases (p e)) [
  | inl marked ↦ rw marked (ap (λ l. e.payload ∷ l) (payloads-map_where p es))
  | inr other ↦ rw other (ap (λ l. e.payload ∷ l) (payloads-map_where p es))
]

pub mark_sent-payloads :
    {F S : Type 0} (outbox : Table S (OutboxEvent F) outbox_schema) (e : OutboxEvent F) (s : S)
    → payloads (outbox.rows (mark_sent outbox e s)) ≡ payloads (outbox.rows s)
unfolding mark_sent
mark_sent-payloads {F} outbox e s =
    let q = λ (r : OutboxEvent F). r.id == e.id in
    let f = λ (r : OutboxEvent F). record r { sent = true } in
    elim (Result-cases (outbox.update q f s)) [
      | inr (x, failed) ↦ rw (failed, mark_sent) refl
      | inl ((n, s'), done) ↦
          rw (done, mark_sent)
            (ap payloads (outbox.update_rows q f s n s' done)
              ∙ payloads-map_where q (outbox.rows s))
    ]

pub record System (SO SI SP D : Type 0) : Type 0 where
  pub orders : SO
  pub inventory : SI
  pub payments : SP
  pub redis : D

module _ {F SO SI SP D : Type 0} (order_store : OrderStore F SO)
    (inventory_store : InventoryStore F SI) (payment_store : PaymentStore F SP)
    (redis : Redis D) where
  abbrev pub view : System SO SI SP D → View F
  view w = record {
    from_order = payloads (order_store.outbox.rows w.orders);
    from_inventory = payloads (inventory_store.outbox.rows w.inventory);
    from_payment = payloads (payment_store.outbox.rows w.payments);
    orders = order_store.orders.rows w.orders;
    payments = payment_store.payments.rows w.payments;
  }

  abbrev pub purchased :
      Floats F → Stamp → String → ℕ → CreateOrderRequest → System SO SI SP D → System SO SI SP D
  purchased floats stamp order_no uid req w =
      let (_, s, d) = seckill order_store redis floats stamp order_no uid req w.orders w.redis in
      record w { orders = s; redis = d }

  abbrev pub inventory_consumed : Stamp → Payload F → System SO SI SP D → System SO SI SP D
  inventory_consumed stamp p w =
      let (s, d) = handle_order_event inventory_store redis stamp (event p) w.inventory w.redis in
      record w { inventory = s; redis = d }

  abbrev pub payment_consumed :
      Probabilities F → F → F → Stamp → String → Payload F → System SO SI SP D → System SO SI SP D
  payment_consumed prob rate roll stamp payment_id p w = record w {
    payments =
        Payment.handle_order_event payment_store prob rate roll stamp payment_id (event p)
          w.payments;
  }

  abbrev pub order_consumed_inventory : Stamp → Payload F → System SO SI SP D → System SO SI SP D
  order_consumed_inventory stamp p w =
      let (s, d) = handle_inventory_event order_store redis stamp (event p) w.orders w.redis in
      record w { orders = s; redis = d }

  abbrev pub order_consumed_payment : Stamp → Payload F → System SO SI SP D → System SO SI SP D
  order_consumed_payment stamp p w =
      let (s, d) = handle_payment_event order_store redis stamp (event p) w.orders w.redis in
      record w { orders = s; redis = d }

  -- A purchase (of one unit or more, as the handler binds the request), an event that reaches a
  -- consumer, the mark of a relay on an event, a change of Redis, or what an administrator does to the
  -- stock: POST /inventory/:product_id/deduct, whose one UPDATE counts where it is made, and
  -- PUT /inventory/:product_id, which may have read the row in an earlier state.
  pub data Step (w : System SO SI SP D) : System SO SI SP D → Type 0 where
    purchase :
        (floats : Floats F) (stamp : Stamp) (order_no : String) (uid : ℕ) (req : CreateOrderRequest)
        → pos 1 ≤ℤ req.quantity
        → Step w (purchased floats stamp order_no uid req w)
    inventory_consumes :
        (stamp : Stamp) (p : Payload F)
        → IsIn p (view w).from_order
        → Step w (inventory_consumed stamp p w)
    payment_consumes :
        (prob : Probabilities F) (rate roll : F) (stamp : Stamp) (payment_id : String)
        (p : Payload F)
        → IsIn p (view w).from_order
        → Step w (payment_consumed prob rate roll stamp payment_id p w)
    order_consumes_inventory :
        (stamp : Stamp) (p : Payload F)
        → IsIn p (view w).from_inventory
        → Step w (order_consumed_inventory stamp p w)
    order_consumes_payment :
        (stamp : Stamp) (p : Payload F)
        → IsIn p (view w).from_payment
        → Step w (order_consumed_payment stamp p w)
    order_relays :
        (e : OutboxEvent F) → Step w (record w { orders = mark_sent order_store.outbox e w.orders })
    inventory_relays :
        (e : OutboxEvent F)
        → Step w (record w { inventory = mark_sent inventory_store.outbox e w.inventory })
    payment_relays :
        (e : OutboxEvent F)
        → Step w (record w { payments = mark_sent payment_store.outbox e w.payments })
    redis_changes : (d : D) → Step w (record w { redis = d })
    stock_is_deducted :
        (pid : ℕ) (q : ℤ)
        → pos 1 ≤ℤ q
        → Step w (record w {
          inventory = (deduct inventory_store.inventories no_others pid q w.inventory).1;
        })
    stock_is_set :
        (meanwhile : SI → SI) (pid : ℕ) (total : ℤ) (read s' : SI) (saved : Inventory)
        → meanwhile read ≡ w.inventory
        → set_inventory inventory_store.inventories meanwhile pid total read ≡ ok (saved, s')
        → Step w (record w { inventory = s' })

  pub data Reach (w0 : System SO SI SP D) : System SO SI SP D → Type 0 where
    start : Reach w0 w0
    later : {w w' : System SO SI SP D} → Reach w0 w → Step w w' → Reach w0 w'

  -- No administrator sets a total in a run.
  abbrev pub IsNoSet : {w w' : System SO SI SP D} → Step w w' → Type 0
  IsNoSet (stock_is_set meanwhile pid total read s' saved now done) = ⊥
  IsNoSet step = Unit

  abbrev pub HasNoSet : {w0 w : System SO SI SP D} → Reach w0 w → Type 0
  HasNoSet start = Unit
  HasNoSet (later before step) = HasNoSet before × IsNoSet step

  -- No administrator sets a total or deducts units in a run.
  abbrev pub IsNotByHand : {w w' : System SO SI SP D} → Step w w' → Type 0
  IsNotByHand (stock_is_set meanwhile pid total read s' saved now done) = ⊥
  IsNotByHand (stock_is_deducted pid q some_units) = ⊥
  IsNotByHand step = Unit

  abbrev pub HasNoneByHand : {w0 w : System SO SI SP D} → Reach w0 w → Type 0
  HasNoneByHand start = Unit
  HasNoneByHand (later before step) = HasNoneByHand before × IsNotByHand step
