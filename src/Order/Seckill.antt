-- ===== src/Order/Seckill.antt =====
-- internal/order/seckill_service.go: the fast path of a purchase. The order number is what the
-- snowflake node generated; the log lines and the lifetimes of the keys are left out.
pub mod Claim
pub mod Placed
pub mod Refused
pub mod Poll
pub mod Handler
use distributed_software_hom.Prelude.{ℕ, String, Bool, true, false, ◌==◌, not, List, if◌then◌else◌}
use distributed_software_hom.Prelude.Int.{ℤ}
use distributed_software_hom.Result.{
  Error, Result, ok, err, ◌>>=◌, product_not_found, order_product_not_found, product_off_sale,
  order_stock_insufficient, duplicate_order, record_not_found,
}
use distributed_software_hom.Database.{no_value}
use distributed_software_hom.Redis.{Redis, Value, text, lock_key, result_key}
use distributed_software_hom.Event.{
  OrderCreatedEvent, created, Stamp, stamped, order_created, order_events,
}
use distributed_software_hom.Outbox
use distributed_software_hom.Outbox.{write_event}
use distributed_software_hom.Inventory.RedisStock.{deduct_redis, rollback_redis}
use distributed_software_hom.Product.{Product, get_product_by_id}
use distributed_software_hom.Order.{
  Status, pending, Order, CreateOrderRequest, create_tx, exists_by_user_and_product,
}
use distributed_software_hom.Order.Store.{Floats, OrderStore}

-- `if errors.Is(err, product.ErrProductNotFound) { return ErrProductNotFound }; return err`
abbrev pub as_order_error : Error → Error
as_order_error product_not_found = order_product_not_found
as_order_error e = e

-- `if p.Status != 1 { return ErrProductOffSale }`, behind GetProductByID
abbrev pub require_on_sale : {F : Type 0} → Result (Product F) → Result (Product F)
require_on_sale (err e) = err (as_order_error e)
require_on_sale (ok p) = if p.status == 1 then ok p else err product_off_sale

-- `if dbErr != nil { return dbErr }; if exists { return ErrDuplicateOrder }`
abbrev pub refuse_if : Result Bool → Result (Unit {0})
refuse_if (err e) = err e
refuse_if (ok true) = err duplicate_order
refuse_if (ok false) = ok tt

-- `s.rdb.Del(ctx, idempotencyKey)`
unfoldable pub release : {D : Type 0} → Redis D → ℕ → ℕ → D → D
release redis uid pid d = (redis.del (lock_key uid pid) d).1

abbrev pub new_order :
    {F : Type 0} → Floats F → String → ℕ → CreateOrderRequest → Product F → Order F
new_order floats order_no uid req p = record {
  id = 0;
  order_no = order_no;
  user_id = uid;
  product_id = req.product_id;
  quantity = req.quantity;
  total_price = floats.times p.price (floats.of_int req.quantity);
  status = pending;
}

abbrev pub created_payload : {F : Type 0} → Stamp → Order F → OrderCreatedEvent F
created_payload stamp o = record {
  base = stamped stamp;
  order_no = o.order_no;
  user_id = o.user_id;
  product_id = o.product_id;
  quantity = o.quantity;
  total_price = o.total_price;
}

module _ {F S : Type 0} (store : OrderStore F S) where
  -- Step 2, the product.
  unfoldable pub product_on_sale : ℕ → S → Result (Product F)
  product_on_sale pid s = require_on_sale (get_product_by_id store.products pid s)

  -- Step 4, the body of the transaction.
  unfoldable pub place : Stamp → Order F → S → Result S
  place stamp o s = create_tx store.orders o s >>= λ (o', t).
      write_event store.outbox Outbox.order o.order_no order_created order_events
        (created (created_payload stamp o)) t

  module _ {D : Type 0} (redis : Redis D) where
    -- The answer of SETNX, with the fallback to the database when Redis fails.
    abbrev pub claimed : ℕ → ℕ → S → Result Bool × D → Result (Unit {0}) × D
    claimed uid pid s (err e, d) =
        (refuse_if (exists_by_user_and_product store.orders uid pid s), d)
    claimed uid pid s (ok true, d) = (ok tt, d)
    claimed uid pid s (ok false, d) = (err duplicate_order, d)

    -- Step 1, the idempotency check.
    unfoldable pub claim : ℕ → ℕ → S → D → Result (Unit {0}) × D
    claim uid pid s d = claimed uid pid s (redis.set_nx (lock_key uid pid) (text "1") d)

    -- Step 4 and step 5, after the counter was decremented.
    abbrev pub finish : Stamp → Order F → S → D → Result String × S × D
    finish stamp o s d = elim (store.transactions.transaction (λ t. no_value (place stamp o t)) s) [
      | err e ↦ (
        err e,
        s,
        release redis o.user_id o.product_id (rollback_redis redis o.product_id o.quantity d),
      )
      | ok (_, s') ↦ (ok o.order_no, s', (redis.set (result_key o.order_no) (text "PENDING") d).1)
    ]

    -- Step 3, the counter in Redis.
    unfoldable pub buy : Stamp → Order F → S → D → Result String × S × D
    buy stamp o s d =
        let (r, d') = deduct_redis redis o.product_id o.quantity d in
        elim r [
          | err _ ↦ (err order_stock_insufficient, s, release redis o.user_id o.product_id d')
          | ok _ ↦ finish stamp o s d'
        ]

    unfoldable pub seckill :
        Floats F → Stamp → String → ℕ → CreateOrderRequest → S → D → Result String × S × D
    seckill floats stamp order_no uid req s d =
        let (r, d') = claim uid req.product_id s d in
        elim r [
          | err e ↦ (err e, s, d')
          | ok _ ↦ elim (product_on_sale req.product_id s) [
            | err e ↦ (err e, s, release redis uid req.product_id d')
            | ok p ↦ buy stamp (new_order floats order_no uid req p) s d'
          ]
        ]
