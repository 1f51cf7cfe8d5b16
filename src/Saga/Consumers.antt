-- ===== src/Saga/Consumers.antt =====
-- The consumers that cmd/{order,inventory,payment}-service start, by pkg/config's list of consumer
-- groups, and what the claims of their topics do to the saga.
pub mod Claims
pub mod Lost
use distributed_software_hom.Prelude.{
  String, ◌≡◌, inl, inr, refl, sym, ap, ◌∙◌, subst, Bool, true, false, Bool-cases, Option, none,
  some, List, [], ◌∷◌, All, Any, str_eq, eq_iff, if◌then◌else◌, arith,
}
use distributed_software_hom.Result.{Result}
use distributed_software_hom.Config.{ConsumerGroup}
use distributed_software_hom.Redis.{Redis}
use distributed_software_hom.Event.{Payload, Message, event, unknown, malformed, Stamp}
use distributed_software_hom.Inventory.Events
use distributed_software_hom.Inventory.Events.{InventoryStore}
use distributed_software_hom.Order.Store.{OrderStore}
use distributed_software_hom.Order.Events.{handle_inventory_event, handle_payment_event}
use distributed_software_hom.Payment
use distributed_software_hom.Payment.{PaymentStore, Probabilities}
use distributed_software_hom.Kafka.{consume_claim, mark_all, consume_claim-marks}
use distributed_software_hom.Saga.{
  System, view, inventory_consumes, payment_consumes, order_consumes_inventory,
  order_consumes_payment, Reach, later,
}
use distributed_software_hom.Saga.Spec.{View, IsIn}

pub data Service : Type 0 where
  order_service inventory_service payment_service : Service

-- The message handlers of the three services.
pub data Handling : Type 0 where
  by_inventory_event by_payment_event by_stock by_payment : Handling

-- The order service chooses by the topic, and skips others; the other two have one handler.
abbrev pub handler_of : Service → String → Option Handling
handler_of order_service topic =
    if str_eq topic "inventory-events"
    then some by_inventory_event
    else if str_eq topic "payment-events"
    then some by_payment_event
    else none
handler_of inventory_service topic = some by_stock
handler_of payment_service topic = some by_payment

-- One round of the loop over the groups: no handler, a started consumer, or one that failed to start.
abbrev pub put_first :
    ConsumerGroup
    → Option Handling
    → Bool
    → List (ConsumerGroup × Handling)
    → List (ConsumerGroup × Handling)
put_first x none connected rest = rest
put_first x (some k) true rest = (x, k) ∷ rest
put_first x (some k) false rest = rest

-- The consumers that are started; `connects` tells for which groups NewConsumer succeeds.
abbrev pub consumers_of :
    (ConsumerGroup → Bool) → Service → List ConsumerGroup → List (ConsumerGroup × Handling)
consumers_of connects service [] = []
consumers_of connects service (g ∷ gs) =
    put_first g (handler_of service g.topic) (connects g) (consumers_of connects service gs)

-- A message, and what its handler draws: the identifiers, the clock and the payment's random number.
pub record Arrival (F : Type 0) : Type 0 where
  pub message : Message F
  pub stamp : Stamp
  pub payment_id : String
  pub prob : Probabilities F
  pub rate : F
  pub roll : F

module _ {F : Type 0} where
  -- The events that the relays publish to a topic.
  abbrev pub published : String → View F → List (Payload F)
  published topic v =
      if str_eq topic "order-events"
      then v.from_order
      else if str_eq topic "inventory-events"
      then v.from_inventory
      else if str_eq topic "payment-events"
      then v.from_payment
      else []

  -- The events that a handler is for.
  abbrev pub expected : Handling → View F → List (Payload F)
  expected by_inventory_event v = v.from_inventory
  expected by_payment_event v = v.from_payment
  expected by_stock v = v.from_order
  expected by_payment v = v.from_order

  -- A message that is an event is one of these.
  abbrev pub Stems : List (Payload F) → Arrival F → Type 0
  Stems ps a = (p : Payload F) → a.message ≡ event p → IsIn p ps

-- The inventory and the payment service are configured for the topic order-events.
abbrev pub IsConfigured : Service → ConsumerGroup → Type 0
IsConfigured order_service g = Unit
IsConfigured inventory_service g = g.topic ≡ "order-events"
IsConfigured payment_service g = g.topic ≡ "order-events"

module _ {F SO SI SP D : Type 0} (order_store : OrderStore F SO)
    (inventory_store : InventoryStore F SI) (payment_store : PaymentStore F SP)
    (redis : Redis D) where
  -- What a message does to the system, by its handler.
  abbrev pub handled : Handling → Arrival F → System SO SI SP D → System SO SI SP D
  handled by_inventory_event a w =
      let (s, d) = handle_inventory_event order_store redis a.stamp a.message w.orders w.redis in
      record w { orders = s; redis = d }
  handled by_payment_event a w =
      let (s, d) = handle_payment_event order_store redis a.stamp a.message w.orders w.redis in
      record w { orders = s; redis = d }
  handled by_stock a w =
      let (s, d) =
        Events.handle_order_event inventory_store redis a.stamp a.message w.inventory w.redis in
      record w { inventory = s; redis = d }
  handled by_payment a w = record w {
    payments =
        Payment.handle_order_event payment_store a.prob a.rate a.roll a.stamp a.payment_id a.message
          w.payments;
  }
