-- ===== src/Tests/CompletionTests.antt =====
-- A purchase on the concrete databases, brought to its end by the three services.
use distributed_software_hom.Prelude.{[], ◌≡◌, ◌++◌, ◌∷◌, ℕ, refl, inl}
use distributed_software_hom.Prelude.Int.{pos, ◌+ℤ◌, ◌-ℤ◌}
use distributed_software_hom.Database.{IsUp}
use distributed_software_hom.Database.Memory
use distributed_software_hom.Redis.Memory.{Store, change, set_nx, memory, memory-IsRedisUp}
use distributed_software_hom.Event.{
  Payload, completed, cancelled, paid, OrderCreatedEvent, not_paid, stamped,
}
use distributed_software_hom.Outbox.{write_event}
use distributed_software_hom.Inventory.{deduct, deduct_from, deduct_with_lock, get_by_product_id}
use distributed_software_hom.Inventory.Events.{
  report, reserve, handle_order_created, handle_order_event,
}
use distributed_software_hom.Inventory.RedisStock.{deduct_redis}
use distributed_software_hom.Product.{get_product_by_id, find_product_by_id}
use distributed_software_hom.Order.{
  Order, order_schema, create_tx, get_order_by_order_no, update_status_by_order_no_tx,
}
use distributed_software_hom.Order.Seckill.{
  seckill, claim, product_on_sale, buy, place, new_order, created_payload,
}
use distributed_software_hom.Order.Events.{
  advance, run_advance, handle_stock_deducted, handle_payment_success, handle_payment_failed,
  handle_inventory_event, handle_payment_event,
}
use distributed_software_hom.Payment
use distributed_software_hom.Payment.{record_payment}
use distributed_software_hom.Saga.{
  System, Reach, view, payment_consumed, order_consumed_payment, inventory_consumed,
}
use distributed_software_hom.Saga.Deliveries.{sold_for, paid_with}
use distributed_software_hom.Saga.Paid.{ArePublished}
use distributed_software_hom.Saga.Compensated.{IsCompensated, Reach-IsCompensated}
use distributed_software_hom.Saga.Completed.{IsCompleted, Reach-IsCompleted}
use distributed_software_hom.Tests.World.{
  World, orders, inventory_store, order_store, payment_store, inventories-IsUp, floats, stamp,
  rates, two_lamps, lamp, lamps,
}
use distributed_software_hom.Tests.SagaTests.{sys1, sys2, sys3, sys4, sys5, was_requested}

abbrev two_created : OrderCreatedEvent ℕ
two_created = created_payload stamp (new_order floats "N9" 9 two_lamps lamp)

-- The order of user 9, as the purchase has stored it.
abbrev placed9 : Order ℕ
placed9 = record (new_order floats "N9" 9 two_lamps lamp) { id = 1 }

orders-IsUp : (w : World) → IsUp orders w
orders-IsUp w =
    Memory.table-IsUp order_schema (λ w. w.orders) (λ l w. record w { orders = l }) (λ l w. refl) w

-- The order of user 9 is paid, and the units are sold.
abbrev nine_sold : Payload ℕ
nine_sold = completed (sold_for stamp "N9" placed9)

abbrev sys6 : System World World World Store
sys6 = inventory_consumed order_store inventory_store payment_store memory stamp nine_sold sys5

Reach-IsCompleted_example :
    ArePublished order_store inventory_store payment_store memory
      (paid (paid_with stamp "N9" "P1" placed9))
      stamp
      stamp
      two_created
      placed9
      sys1
      sys2
      sys3
      sys4
    × ((view order_store inventory_store payment_store memory sys5).from_order
        ≡ (view order_store inventory_store payment_store memory sys4).from_order ++ nine_sold ∷ [])
    × Reach order_store inventory_store payment_store memory sys1 sys6
    × IsCompleted order_store inventory_store payment_store memory two_created placed9 lamps "P1"
        sys1 sys6
unfolding Payment.handle_order_event handle_payment_success handle_inventory_event
    handle_payment_event handle_order_event seckill claim product_on_sale get_product_by_id
    find_product_by_id buy place create_tx write_event deduct_redis Memory.table Memory.first
    Memory.create Memory.update memory set_nx change ◌-ℤ◌ ◌+ℤ◌ handle_order_created reserve report
    deduct deduct_from deduct_with_lock get_by_product_id handle_stock_deducted run_advance advance
    update_status_by_order_no_tx record_payment get_order_by_order_no
Reach-IsCompleted_example =
    Reach-IsCompleted order_store inventory_store payment_store memory sys1 two_created placed9
      lamps rates 90 10 "P1" stamp stamp stamp stamp sys2.inventory sys3.orders sys5.orders
      sys4.payments memory-IsRedisUp orders-IsUp inventories-IsUp (inl refl) refl refl refl (tt, tt)
      refl refl refl refl refl refl refl refl

-- The same purchase, where the draw is not below the rate.
abbrev declined4 : System World World World Store
declined4 =
    payment_consumed order_store inventory_store payment_store memory rates 5 10 stamp "P1"
      was_requested sys3

abbrev declined5 : System World World World Store
declined5 =
    order_consumed_payment order_store inventory_store payment_store memory stamp
      (not_paid (record { base = stamped stamp; order_no = "N9"; payment_id = "P1"; amount = 40 }))
      declined4

abbrev nine_freed : Payload ℕ
nine_freed = cancelled (record {
  base = stamped stamp;
  order_no = "N9";
  user_id = 9;
  product_id = 5;
  quantity = pos 2;
  reason = "payment_failed";
})

abbrev declined6 : System World World World Store
declined6 =
    inventory_consumed order_store inventory_store payment_store memory stamp nine_freed declined5

Reach-IsCompensated_example :
    ArePublished order_store inventory_store payment_store memory
      (not_paid (paid_with stamp "N9" "P1" placed9))
      stamp
      stamp
      two_created
      placed9
      sys1
      sys2
      sys3
      declined4
    × ((view order_store inventory_store payment_store memory declined5).from_order
        ≡ (view order_store inventory_store payment_store memory declined4).from_order
          ++ nine_freed ∷ [])
    × Reach order_store inventory_store payment_store memory sys1 declined6
    × IsCompensated order_store inventory_store payment_store memory two_created placed9 lamps
        (pos 5)
        "P1"
        sys1
        declined6
unfolding Payment.handle_order_event handle_payment_success handle_payment_failed
    handle_inventory_event handle_payment_event handle_order_event seckill claim product_on_sale
    get_product_by_id find_product_by_id buy place create_tx write_event deduct_redis Memory.table
    Memory.first Memory.create Memory.update memory set_nx change ◌-ℤ◌ ◌+ℤ◌ handle_order_created
    reserve report deduct deduct_from deduct_with_lock get_by_product_id handle_stock_deducted
    run_advance advance update_status_by_order_no_tx record_payment get_order_by_order_no
Reach-IsCompensated_example =
    Reach-IsCompensated order_store inventory_store payment_store memory sys1 two_created placed9
      lamps rates 5 10 "P1" stamp stamp stamp stamp sys2.inventory sys3.orders declined5.orders
      declined4.payments memory-IsRedisUp orders-IsUp inventories-IsUp (inl refl) refl refl refl
      (tt, tt) refl refl refl refl refl refl refl refl (pos 5) refl
