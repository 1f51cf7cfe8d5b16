-- ===== src/Tests/EventTests.antt =====
-- The handlers of the saga: runs of internal/{inventory,order}/event_handler.go and
-- internal/payment/service.go.
use distributed_software_hom.Prelude.{
  ℕ, String, ◌≡◌, ◌⊎◌, ◌&&◌, ltb, str_eq, false, if◌then◌else◌, arith, refl, some, [], ◌∷◌, find?,
}
use distributed_software_hom.Prelude.Int.{pos}
use distributed_software_hom.Result.{Error, Result, ok, err, external}
use distributed_software_hom.Database.{no_value}
use distributed_software_hom.Payment
use distributed_software_hom.Payment.{Probabilities, record_payment}
use distributed_software_hom.Payment.Atomic.{Recorded}
use distributed_software_hom.Payment.Rate.{rate_after, nan_declines}
use distributed_software_hom.Database.Memory
use distributed_software_hom.Redis.Memory.{memory}
use distributed_software_hom.Event.{
  Stamp, OrderCreatedEvent, OrderCancelledEvent, PaymentRequestedEvent, PaymentResultEvent, stamped,
  requested, event,
}
use distributed_software_hom.Outbox.{write_event}
use distributed_software_hom.Inventory.{Inventory}
use distributed_software_hom.Inventory.Events.{handle_order_created}
use distributed_software_hom.Order.{
  Order, Status, by_order_no, with_status, get_order_by_order_no, update_status_by_order_no_tx,
}
use distributed_software_hom.Order.Events.{advance, run_advance, handle_payment_failed}
use distributed_software_hom.Order.Events.Late.{payment_failed_overrides}
use distributed_software_hom.Tests.World.{
  World, world, inventory_store, order_store, payment_store, stamp, order8, lamps, cache,
}

abbrev three_lamps : OrderCreatedEvent ℕ
three_lamps = record {
  base = stamped stamp;
  order_no = "N9";
  user_id = 9;
  product_id = 5;
  quantity = pos 3;
  total_price = 60;
}

-- User 9 wants eleven lamps, whose order is cancelled then, while user 8 has eleven locked.
abbrev eleven_lamps : OrderCreatedEvent ℕ
eleven_lamps = record {
  base = stamped stamp;
  order_no = "N9";
  user_id = 9;
  product_id = 5;
  quantity = pos 11;
  total_price = 220;
}

abbrev cancelled_eleven : OrderCancelledEvent
cancelled_eleven = record {
  base = stamped stamp;
  order_no = "N9";
  user_id = 9;
  product_id = 5;
  quantity = pos 11;
  reason = "stock_deduction_failed";
}

abbrev locked_lamps : Inventory
locked_lamps = record lamps { total = pos 18; locked = pos 11 }

abbrev locked_world : World
locked_world = record world { inventories = locked_lamps ∷ [] }

abbrev stamp2 : Stamp
stamp2 = record { uuid = "e2"; now = 1001 }

abbrev once_deducted : World
once_deducted = handle_order_created inventory_store stamp three_lamps world

abbrev twice_deducted : World
twice_deducted = handle_order_created inventory_store stamp2 three_lamps once_deducted

abbrev payment : PaymentResultEvent ℕ
payment = record { base = stamped stamp; order_no = "N8"; payment_id = "p1"; amount = 60 }

-- The order is paid already.
abbrev paid8 : Order ℕ
paid8 = with_status Status.paid order8

abbrev paid_world : World
paid_world = record world { orders = paid8 ∷ [] }

payment_failed_overrides_example :
    find? (by_order_no "N8") (
      order_store.orders.rows
        (handle_payment_failed order_store memory stamp payment paid_world cache).0)
    ≡ some (with_status Status.cancelled paid8)
unfolding get_order_by_order_no run_advance advance update_status_by_order_no_tx write_event
    Memory.table Memory.first Memory.create Memory.update handle_payment_failed
payment_failed_overrides_example =
    payment_failed_overrides order_store memory stamp payment paid8 paid_world
      (handle_payment_failed order_store memory stamp payment paid_world cache).0 cache refl refl

abbrev request : PaymentRequestedEvent ℕ
request = record { base = stamped stamp; order_no = "N8"; user_id = 8; amount = 60 }

-- Texts that Nacos sends, over numbers of which those from 1000 on stand for NaN.
abbrev with_nan : Probabilities ℕ
with_nan = record { less = λ a b. ltb a 1000 && (ltb b 1000 && ltb a b); zero = 0; one = 100 }

abbrev parse : String → Result ℕ
parse t = if str_eq t "NaN" then ok 1000 else if str_eq t "50" then ok 50 else err (external 22)

nan_declines_example :
    let s' =
      Payment.handle_order_event payment_store with_nan
        (rate_after with_nan parse ("50" ∷ "oops" ∷ "NaN" ∷ []) 100)
        10
        stamp
        "P7"
        (event (requested request))
        world in
    ((s' ≡ world)
      × ((e : Error) × (payment_store.transactions.transaction
              (λ t. no_value (record_payment payment_store stamp "P7" request false t))
              world
            ≡ err e)))
    ⊎ Recorded payment_store stamp "P7" request false world s'
nan_declines_example =
    nan_declines with_nan parse 1000 (λ x. ground arith) (λ x. refl) payment_store
      ("50" ∷ "oops" ∷ []) "NaN" 100 10 stamp "P7" request world refl
