-- ===== src/Tests/SagaTests.antt =====
-- Runs of the services together, and of buyers at the counter in Redis.
use distributed_software_hom.Prelude.{ℕ, ◌≤◌, ◌≡◌, some, List, ◌∷◌, refl, inl, inr, [], arith}
use distributed_software_hom.Prelude.Int.{pos, ◌≤ℤ◌, negsuc, ◌+ℤ◌, ◌-ℤ◌}
use distributed_software_hom.Database.Memory
use distributed_software_hom.Redis.Memory.{Store, change, set_nx, memory}
use distributed_software_hom.Event.{Payload, created, deducted, paid, stamped}
use distributed_software_hom.Outbox.{write_event}
use distributed_software_hom.Inventory.{deduct, deduct_from, deduct_with_lock, get_by_product_id}
use distributed_software_hom.Inventory.Events.{
  report, reserve, handle_order_created, handle_order_event,
}
use distributed_software_hom.Inventory.RedisStock.{deduct_redis}
use distributed_software_hom.Product.{get_product_by_id, find_product_by_id}
use distributed_software_hom.Order.{
  Order, Status, create_tx, get_order_by_order_no, update_status_by_order_no_tx,
}
use distributed_software_hom.Order.Seckill.{
  seckill, claim, product_on_sale, buy, place, new_order, created_payload,
}
use distributed_software_hom.Order.Events.{
  advance, run_advance, payment_payload, handle_stock_deducted, handle_payment_success,
  handle_inventory_event, handle_payment_event,
}
use distributed_software_hom.Payment
use distributed_software_hom.Payment.{record_payment, result_event}
use distributed_software_hom.Saga.{
  HasNoSet, HasNoneByHand, System, view, purchased, inventory_consumed, payment_consumed,
  order_consumed_inventory, order_consumed_payment, Reach, start, later, purchase,
  inventory_consumes, payment_consumes, order_consumes_inventory, order_consumes_payment,
}
use distributed_software_hom.Saga.Spec.{Change, IsIn}
use distributed_software_hom.Saga.Balance.{deducted_of}
use distributed_software_hom.Saga.Balance.Runs.{HasNoCancelled, balance}
use distributed_software_hom.Saga.Balance.Sold.{Reach-balance}
use distributed_software_hom.Saga.Stock.{AreInCap, Reach-InCap}
use distributed_software_hom.Saga.Steps.{Settled, Step-Change, Reach-Settled}
use distributed_software_hom.Inventory.RedisStock.{after_decr}
use distributed_software_hom.Inventory.RedisStock.Race
use distributed_software_hom.Inventory.RedisStock.Race.{
  Buyer, waiting, replied, settled, taken, granted, total, pick, decrement, settle, Reach-granted,
}
use distributed_software_hom.Result.{ok, err, stock_insufficient}
use distributed_software_hom.Redis.{stock_key, number_at}
use distributed_software_hom.Redis.Memory.{memory-IsRedisUp}
use distributed_software_hom.Tests.World.{
  World, world, inventory_store, order_store, payment_store, floats, stamp, rates, two_lamps, lamp,
  cache,
}

-- No order yet.
abbrev pub empty : World
empty = record world { orders = [] }

abbrev pub sys0 : System World World World Store
sys0 = record { orders = empty; inventory = world; payments = empty; redis = cache }

abbrev pub sys1 : System World World World Store
sys1 = purchased order_store inventory_store payment_store memory floats stamp "N9" 9 two_lamps sys0

-- The order of user 9, once it is paid.
abbrev bought : Order ℕ
bought = record (new_order floats "N9" 9 two_lamps lamp) { id = 1; status = Status.paid }

abbrev pub was_created : Payload ℕ
was_created = created (created_payload stamp (new_order floats "N9" 9 two_lamps lamp))

abbrev pub was_deducted : Payload ℕ
was_deducted =
    deducted (record { base = stamped stamp; order_no = "N9"; product_id = 5; quantity = pos 2 })

abbrev pub was_requested : Payload ℕ
was_requested = payment_payload stamp "N9" bought

abbrev was_paid : Payload ℕ
was_paid = paid (record { base = stamped stamp; order_no = "N9"; payment_id = "P1"; amount = 40 })

abbrev pub sys2 : System World World World Store
sys2 = inventory_consumed order_store inventory_store payment_store memory stamp was_created sys1

abbrev pub sys3 : System World World World Store
sys3 =
    order_consumed_inventory order_store inventory_store payment_store memory stamp was_deducted
      sys2

abbrev pub sys4 : System World World World Store
sys4 =
    payment_consumed order_store inventory_store payment_store memory rates 90 10 stamp "P1"
      was_requested sys3

abbrev pub sys5 : System World World World Store
sys5 = order_consumed_payment order_store inventory_store payment_store memory stamp was_paid sys4

Step-Change_example :
    Change
      (view order_store inventory_store payment_store memory sys0)
      (view order_store inventory_store payment_store memory sys1)
Step-Change_example =
    Step-Change order_store inventory_store payment_store memory sys0 sys1
      (purchase floats stamp "N9" 9 two_lamps (omega arith))

-- The purchase and the deduction.
unfoldable pub sys2_reached : Reach order_store inventory_store payment_store memory sys0 sys2
unfolding seckill claim product_on_sale get_product_by_id find_product_by_id buy place create_tx
    write_event deduct_redis Memory.table Memory.first Memory.create Memory.update memory set_nx
    change ◌-ℤ◌ ◌+ℤ◌ handle_order_event handle_order_created reserve report deduct deduct_from
    deduct_with_lock get_by_product_id handle_inventory_event handle_stock_deducted
    get_order_by_order_no run_advance advance update_status_by_order_no_tx
    Payment.handle_order_event record_payment handle_payment_event handle_payment_success
sys2_reached =
    later (later start (purchase floats stamp "N9" 9 two_lamps (omega arith)))
      (inventory_consumes stamp was_created (inl refl))

pub was_deducted-IsIn :
    IsIn was_deducted (view order_store inventory_store payment_store memory sys2).from_inventory
unfolding seckill claim product_on_sale get_product_by_id find_product_by_id buy place create_tx
    write_event deduct_redis Memory.table Memory.first Memory.create Memory.update memory set_nx
    change ◌-ℤ◌ ◌+ℤ◌ handle_order_event handle_order_created reserve report deduct deduct_from
    deduct_with_lock get_by_product_id handle_inventory_event handle_stock_deducted
    get_order_by_order_no run_advance advance update_status_by_order_no_tx
    Payment.handle_order_event record_payment handle_payment_event handle_payment_success
was_deducted-IsIn = inl refl

-- Then the request, the payment and its success, in this order.
unfoldable sys5_reached : Reach order_store inventory_store payment_store memory sys0 sys5
unfolding seckill claim product_on_sale get_product_by_id find_product_by_id buy place create_tx
    write_event deduct_redis Memory.table Memory.first Memory.create Memory.update memory set_nx
    change ◌-ℤ◌ ◌+ℤ◌ handle_order_event handle_order_created reserve report deduct deduct_from
    deduct_with_lock get_by_product_id handle_inventory_event handle_stock_deducted
    get_order_by_order_no run_advance advance update_status_by_order_no_tx
    Payment.handle_order_event record_payment handle_payment_event handle_payment_success
sys5_reached =
    later
      (later (later sys2_reached (order_consumes_inventory stamp was_deducted (inl refl)))
        (payment_consumes rates 90 10 stamp "P1" was_requested (inr (inl refl))))
      (order_consumes_payment stamp was_paid (inl refl))

Reach-Settled_example : Settled (view order_store inventory_store payment_store memory sys5) bought
unfolding seckill claim product_on_sale get_product_by_id find_product_by_id buy place create_tx
    write_event deduct_redis Memory.table Memory.first Memory.create Memory.update memory set_nx
    change ◌-ℤ◌ ◌+ℤ◌ handle_order_event handle_order_created reserve report deduct deduct_from
    deduct_with_lock get_by_product_id handle_inventory_event handle_stock_deducted
    get_order_by_order_no run_advance advance update_status_by_order_no_tx
    Payment.handle_order_event record_payment handle_payment_event handle_payment_success
Reach-Settled_example =
    Reach-Settled order_store inventory_store payment_store memory sys0 sys5 bought
      (record {
        order_reasons = tt;
        inventory_reasons = tt;
        payment_reasons = tt;
        order_causes = tt;
      })
      sys5_reached (inl refl) refl

sys5-HasNoSet : HasNoSet order_store inventory_store payment_store memory sys5_reached
unfolding sys5_reached sys2_reached
sys5-HasNoSet = (((((tt, tt), tt), tt), tt), tt)

sys5-HasNoneByHand : HasNoneByHand order_store inventory_store payment_store memory sys5_reached
unfolding sys5_reached sys2_reached
sys5-HasNoneByHand = (((((tt, tt), tt), tt), tt), tt)

-- The seven lamps of the shelf and the three that are locked, after all five steps.
Reach-InCap_example : AreInCap (λ pid. pos 10) inventory_store sys5.inventory
unfolding ◌+ℤ◌ Memory.table
Reach-InCap_example =
    Reach-InCap (λ pid. pos 10) order_store inventory_store payment_store memory sys0 sys5
      (record { events = tt; orders = tt }) (omega arith) sys5_reached sys5-HasNoSet

sys5-HasNoCancelled : HasNoCancelled (view order_store inventory_store payment_store memory sys5)
unfolding seckill claim product_on_sale get_product_by_id find_product_by_id buy place create_tx
    write_event deduct_redis Memory.table Memory.first Memory.create Memory.update memory set_nx
    change ◌-ℤ◌ ◌+ℤ◌ handle_order_event handle_order_created reserve report deduct deduct_from
    deduct_with_lock get_by_product_id handle_inventory_event handle_stock_deducted
    get_order_by_order_no run_advance advance update_status_by_order_no_tx
    Payment.handle_order_event record_payment handle_payment_event handle_payment_success
sys5-HasNoCancelled = (refl, (refl, (refl, tt)))

-- Two of the seven lamps are promised, five are left.
Reach-balance_example :
    (balance inventory_store 5 sys5.inventory ≡ balance inventory_store 5 sys0.inventory)
    × (deducted_of 5 (view order_store inventory_store payment_store memory sys5).from_inventory
        ≤ℤ balance inventory_store 5 sys0.inventory)
unfolding ◌+ℤ◌ Memory.table
Reach-balance_example =
    Reach-balance order_store inventory_store payment_store memory (λ pid. pos 10) sys0 sys5 5
      (tt, tt) (record { events = tt; orders = tt }) (omega arith) sys5_reached sys5-HasNoneByHand
      sys5-HasNoCancelled

-- Two buyers of five and of four lamps, of which there are seven: both counts are off the counter
-- before either reply is tested.
abbrev both_off : Store
both_off =
    (change (λ b. b -ℤ pos 4) (stock_key 5) (change (λ b. b -ℤ pos 5) (stock_key 5) cache).1).1

abbrev settled_counter : Store
settled_counter = (after_decr memory 5 (pos 4) (ok (negsuc 1), both_off)).1

abbrev settled_buyers : List Buyer
settled_buyers = settled 5 (ok tt) ∷ settled 4 (err stock_insufficient) ∷ []

Reach-granted_example :
    (total granted settled_buyers ≤ 7)
    × (number_at (settled_counter (stock_key 5)) ≡ some (pos 7 -ℤ pos (total taken settled_buyers)))
unfolding memory change ◌-ℤ◌ ◌+ℤ◌
Reach-granted_example =
    Reach-granted memory 5 memory-IsRedisUp 7 (5 ∷ 4 ∷ []) cache settled_counter settled_buyers refl
      (Race.later
        (Race.later
          (Race.later
            (Race.later Race.start (pick [] (waiting 4 ∷ []) (decrement {m = pos 2} refl)))
            (pick (replied 5 (pos 2) ∷ []) [] (decrement {m = negsuc 1} refl)))
          (pick (replied 5 (pos 2) ∷ []) [] settle))
        (pick [] (settled 4 (err stock_insufficient) ∷ []) settle))
