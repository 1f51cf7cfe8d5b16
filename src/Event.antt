-- ===== src/Event.antt =====
-- pkg/event/types.go: the events of the saga, their topics and their payloads. `F` stands for
-- `float64`. A payload is kept as the value whose JSON it is; bytes that are no JSON of an event
-- are `malformed`, and JSON with an event type that is none of these is `unknown`. The field
-- `event_type` of the JSON is the constructor of the payload.
use distributed_software_hom.Prelude.{ℕ, String}
use distributed_software_hom.Prelude.Int.{ℤ}
use distributed_software_hom.Result.{Error}

pub data EventType : Type 0 where
  order_created order_completed order_cancelled payment_requested : EventType
  stock_deducted stock_deduct_failed payment_success payment_failed : EventType

pub data Topic : Type 0 where
  order_events inventory_events payment_events : Topic

pub record BaseEvent : Type 0 where
  pub event_id : String
  pub timestamp : ℕ

pub record OrderCreatedEvent (F : Type 0) : Type 0 where
  pub base : BaseEvent
  pub order_no : String
  pub user_id : ℕ
  pub product_id : ℕ
  pub quantity : ℤ
  pub total_price : F

pub record OrderCompletedEvent : Type 0 where
  pub base : BaseEvent
  pub order_no : String
  pub product_id : ℕ
  pub quantity : ℤ

pub record OrderCancelledEvent : Type 0 where
  pub base : BaseEvent
  pub order_no : String
  pub user_id : ℕ
  pub product_id : ℕ
  pub quantity : ℤ
  pub reason : String

pub record PaymentRequestedEvent (F : Type 0) : Type 0 where
  pub base : BaseEvent
  pub order_no : String
  pub user_id : ℕ
  pub amount : F

pub record StockDeductedEvent : Type 0 where
  pub base : BaseEvent
  pub order_no : String
  pub product_id : ℕ
  pub quantity : ℤ

-- `Reason` is the text of the error of `Deduct`.
pub record StockDeductFailedEvent : Type 0 where
  pub base : BaseEvent
  pub order_no : String
  pub product_id : ℕ
  pub reason : Error

pub record PaymentResultEvent (F : Type 0) : Type 0 where
  pub base : BaseEvent
  pub order_no : String
  pub payment_id : String
  pub amount : F

pub data Payload (F : Type 0) : Type 0 where
  created : OrderCreatedEvent F → Payload F
  completed : OrderCompletedEvent → Payload F
  cancelled : OrderCancelledEvent → Payload F
  requested : PaymentRequestedEvent F → Payload F
  deducted : StockDeductedEvent → Payload F
  deduct_failed : StockDeductFailedEvent → Payload F
  -- PAYMENT_SUCCESS and PAYMENT_FAILED share a payload type
  paid : PaymentResultEvent F → Payload F
  not_paid : PaymentResultEvent F → Payload F

pub data Message (F : Type 0) : Type 0 where
  event : Payload F → Message F
  unknown : Message F
  malformed : Message F

-- What `uuid.New().String()` and `time.Now()` return for an event.
pub record Stamp : Type 0 where
  pub uuid : String
  pub now : ℕ

abbrev pub stamped : Stamp → BaseEvent
stamped m = record { event_id = m.uuid; timestamp = m.now }

-- The field `event_type` of the JSON, by which the services tell payloads apart.
abbrev pub event_type_of : {F : Type 0} → Payload F → EventType
event_type_of (created _) = order_created
event_type_of (completed _) = order_completed
event_type_of (cancelled _) = order_cancelled
event_type_of (requested _) = payment_requested
event_type_of (deducted _) = stock_deducted
event_type_of (deduct_failed _) = stock_deduct_failed
event_type_of (paid _) = payment_success
event_type_of (not_paid _) = payment_failed
