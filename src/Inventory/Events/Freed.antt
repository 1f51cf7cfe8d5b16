-- ===== src/Inventory/Events/Freed.antt =====
-- What ORDER_CANCELLED leaves in the stock and in Redis (internal/inventory/event_handler.go).
use distributed_software_hom.Prelude.{
  true, false, ap₂, ◌+◌, ℕ, String, ◌≡◌, ◌∙◌, refl, ap, none, some, arith, ==_refl,
}
use distributed_software_hom.Prelude.Int.{ℤ, leb_ℤ, sub_add_cancel, add_sub_cancel, ◌+ℤ◌}
use distributed_software_hom.Database.{IsUp}
use distributed_software_hom.Database.Rows.{IsUnclashed}
use distributed_software_hom.Inventory.{Inventory, inventory_schema, lock_units}
use distributed_software_hom.Inventory.Events.{InventoryStore, returned}
use distributed_software_hom.Inventory.Events.Compensation.{IsRowOf, returned_row}
use distributed_software_hom.Redis.{
  Value, Key, same_key, Redis, IsRedisUp, number, number_at, stock_key, lock_key, result_key,
}
use distributed_software_hom.Inventory.RedisStock.{rollback_redis}

-- A quantity that was locked and is returned leaves the row as before.
pub restored_row :
    {F S : Type 0} (store : InventoryStore F S) (pid : ℕ) (q : ℤ) (pid' : ℕ) (q' : ℤ)
    (inv : Inventory) (s : S)
    → IsUp store.inventories s
    → IsUnclashed inventory_schema.clash (store.inventories.rows s)
    → pid' ≡ pid
    → q' ≡ q
    → IsRowOf store pid (lock_units q inv) s
    → leb_ℤ q (inv.locked +ℤ q) ≡ true
    → IsRowOf store pid (record inv { version = inv.version + 1 + 1 }) (returned store pid' q' s)
restored_row store pid q pid' q' inv s up unique same_product same_quantity row enough =
    let r = returned_row store pid q (lock_units q inv) s up unique row enough in
    rw (same_product, same_quantity)
      (r
        ∙ ap₂
            (λ a l. some (record inv { available = a; locked = l; version = inv.version + 1 + 1 }))
            (sub_add_cancel inv.available q) (add_sub_cancel inv.locked q))

-- SET leaves the other keys alone.
pub set_other :
    {D : Type 0} (redis : Redis D)
    → IsRedisUp redis
    → (k : Key) (v : Value) (j : Key) (d : D) → same_key k j ≡ false
    → redis.view j (redis.set k v d).1 ≡ redis.view j d
set_other redis up k v j d other =
    let (d', set) = up.set_up k v d in rw set (redis.set_ok k v d d' set j ∙ (rw other refl))

module _ {D : Type 0} (redis : Redis D) (up : IsRedisUp redis) where
  pub cancelled_redis :
      (n : String) (uid pid : ℕ) (q b : ℤ) (d : D)
      → number_at (redis.view (stock_key pid) d) ≡ some b
      → let d' = (redis.del (lock_key uid pid) (rollback_redis redis pid q d)).1 in
        (redis.view (stock_key pid) d' ≡ some (number (b +ℤ q)))
        × (redis.view (lock_key uid pid) d' ≡ none)
        × (redis.view (result_key n) d' ≡ redis.view (result_key n) d)
  unfolding rollback_redis
  cancelled_redis n uid pid q b d there =
      let k = stock_key pid in
      let (m, d1, incr) = up.incr_by_up k q b d there in
      let (b1, at1, eq, views) = redis.incr_by_ok k q m d d1 incr in
      let same : b1 ≡ b = ground (arith, at1, there) in
      let (d2, gone) = up.del_up (lock_key uid pid) d1 in
      let views2 = redis.del_ok (lock_key uid pid) d1 d2 gone in
      rw (incr, rollback_redis)
        (rw gone (
          (
            views2 k
                ∙ views k
                ∙ (rw (==_refl pid) (ap (λ x. some (number x)) (eq ∙ ap (λ x. x +ℤ q) same))),
            views2 (lock_key uid pid) ∙ (rw (==_refl uid, ==_refl pid) refl),
            views2 (result_key n) ∙ views (result_key n),
          )))
