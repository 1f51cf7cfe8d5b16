-- ===== src/Tests/OrderTests.antt =====
-- internal/order: runs of purchases and of the orders of the single-process server.
use distributed_software_hom.Prelude.{ℕ, String, ◌≡◌, refl, none, some, find?, ◌==◌}
use distributed_software_hom.Prelude.Int.{ℤ, pos, ◌+ℤ◌, ◌-ℤ◌, ◌≤ℤ◌}
use distributed_software_hom.Result.{
  Result, err, duplicate_order, product_off_sale, order_stock_insufficient,
}
use distributed_software_hom.Database.Memory
use distributed_software_hom.Redis.{
  number, text, number_at, stock_key, lock_key, result_key, SameBut,
}
use distributed_software_hom.Redis.Memory.{Store, change, set_nx, memory, memory-IsRedisUp}
use distributed_software_hom.Outbox.{write_event}
use distributed_software_hom.Inventory.RedisStock.{deduct_redis}
use distributed_software_hom.Product.{Product, get_product_by_id, find_product_by_id}
use distributed_software_hom.Order.{create_tx}
use distributed_software_hom.Order.Seckill.{seckill, claim, product_on_sale, buy, place, release}
use distributed_software_hom.Order.Seckill.Placed.{IsPlacedFor, seckill-Placed, seckill_counts}
use distributed_software_hom.Order.Seckill.Refused.{seckill_refused}
use distributed_software_hom.Order.Service.{create_order}
use distributed_software_hom.Order.Service.Create.{create_order_keeps_lock}
use distributed_software_hom.Tests.World.{
  World, world, order_store, mono, floats, stamp, cache, two_lamps, a_chair, nine_lamps,
}

-- User 9 buys two lamps.
abbrev bought : Result String × World × Store
bought = seckill order_store memory floats stamp "N9" 9 two_lamps world cache

seckill-Placed_example :
    (p : Product ℕ) × (find? (λ x. x.id == 5) (order_store.products.rows world) ≡ some p)
    × (p.status ≡ 1)
    × (◌≡◌ {A = String} "N9" "N9")
    × IsPlacedFor order_store floats stamp "N9" 9 two_lamps p world bought.1
unfolding seckill claim product_on_sale get_product_by_id find_product_by_id buy place create_tx
    write_event deduct_redis Memory.table Memory.first Memory.create memory set_nx change ◌-ℤ◌
seckill-Placed_example =
    seckill-Placed order_store memory floats stamp "N9" 9 two_lamps world bought.1 cache bought.2
      "N9" refl

seckill_counts_example :
    (cache (lock_key 9 5) ≡ none)
    × (bought.2 (lock_key 9 5) ≡ some (text "1"))
    × (bought.2 (result_key "N9") ≡ some (text "PENDING"))
    × ((b : ℤ) × (number_at (cache (stock_key 5)) ≡ some b)
        × (pos 2 ≤ℤ b)
        × (bought.2 (stock_key 5) ≡ some (number (b -ℤ pos 2))))
unfolding seckill claim product_on_sale get_product_by_id find_product_by_id buy place create_tx
    write_event deduct_redis Memory.table Memory.first Memory.create memory set_nx change ◌-ℤ◌
seckill_counts_example =
    seckill_counts order_store memory floats memory-IsRedisUp stamp "N9" 9 two_lamps world bought.1
      cache bought.2 "N9" refl

-- User 9 asks for nine lamps, of which there are seven.
abbrev refused : Result String × World × Store
refused = seckill order_store memory floats stamp "N9" 9 nine_lamps world cache

seckill_refused_example :
    (refused.1 ≡ world)
    × (number_at (refused.2 (stock_key 5)) ≡ some (pos 7))
    × (refused.2 (lock_key 9 5) ≡ cache (lock_key 9 5))
    × SameBut memory.view (stock_key 5) cache refused.2
unfolding seckill claim product_on_sale get_product_by_id find_product_by_id buy release
    deduct_redis Memory.table Memory.first memory set_nx change ◌-ℤ◌ ◌+ℤ◌
seckill_refused_example =
    seckill_refused order_store memory memory-IsRedisUp floats stamp "N9" 9 nine_lamps (pos 7) world
      refused.1 cache refused.2 order_stock_insufficient refl refl

create_order_keeps_lock_example :
    (d1 : Store) × (create_order mono memory floats "N9" 9 a_chair world cache
      ≡ (err product_off_sale, world, d1))
    × (d2 : Store) × (seckill order_store memory floats stamp "N10" 9 a_chair world d1
        ≡ (err duplicate_order, world, d2))
unfolding product_on_sale get_product_by_id find_product_by_id Memory.table Memory.first memory
create_order_keeps_lock_example =
    create_order_keeps_lock mono memory floats memory-IsRedisUp "N9" 9 a_chair product_off_sale
      stamp "N10" world world cache refl refl
