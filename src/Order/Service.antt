-- ===== src/Order/Service.antt =====
-- internal/order/service.go: orders placed and cancelled in one database with the stock, as the
-- single-process server does. The log lines are left out.
pub mod Create
pub mod Cancel
use distributed_software_hom.Prelude.{ℕ, String, Bool, true, false, ◌==◌, if◌then◌else◌}
use distributed_software_hom.Prelude.Int.{ℤ}
use distributed_software_hom.Result.{
  Error, Result, ok, err, ◌>>=◌, record_not_found, order_not_found, order_not_pending,
  not_order_owner, inventory_not_found, stock_insufficient, order_stock_insufficient,
}
use distributed_software_hom.Database.{Table, IsApart, Transactions}
use distributed_software_hom.Redis.{Redis}
use distributed_software_hom.Inventory.{
  Inventory, inventory_schema, no_others, deduct, return_stock,
}
use distributed_software_hom.Product.{get_product_by_id}
use distributed_software_hom.Order.{
  Order, order_schema, Status, pending, CreateOrderRequest, create_tx, get_order_by_id,
  update_status_tx,
}
use distributed_software_hom.Order.Store.{Floats, OrderStore}
use distributed_software_hom.Order.Seckill.{claim, release, product_on_sale, new_order}

-- `if o.Status != StatusPending`
abbrev pub is_pending : Status → Bool
is_pending pending = true
is_pending _ = false

-- How CreateOrder maps the errors of its transaction.
unfoldable pub create_error : Error → Error
create_error inventory_not_found = order_stock_insufficient
create_error stock_insufficient = order_stock_insufficient
create_error e = e

-- `if errors.Is(err, gorm.ErrRecordNotFound) { return ErrOrderNotFound }; return err`
abbrev pub order_error : Error → Error
order_error record_not_found = order_not_found
order_error e = e

-- A database that holds the orders, the products and the stock.
pub record Monolith (F S : Type 0) : Type 0 where
  pub store : OrderStore F S
  pub inventories : Table S Inventory inventory_schema
  pub transactions : Transactions S (Order F)
  pub inventories_apart : IsApart inventories store.orders
  pub orders_apart : IsApart store.orders inventories

module _ {F S : Type 0} (mono : Monolith F S) where
  -- The body of CreateOrder's transaction.
  unfoldable pub reserve_and_create : Order F → S → Result (Order F × S)
  reserve_and_create o s =
      let (r, t) = deduct mono.inventories no_others o.product_id o.quantity s in
      elim r [ err e ↦ err e | ok _ ↦ create_tx mono.store.orders o t ]

  -- The errors before the transaction return without a release of the lock, as in the source.
  unfoldable pub create_order :
      {D : Type 0}
      → Redis D
      → Floats F
      → String
      → ℕ
      → CreateOrderRequest
      → S
      → D
      → Result (Order F) × S × D
  create_order redis floats order_no uid req s d =
      let (r, d') = claim mono.store redis uid req.product_id s d in
      elim r [
        | err e ↦ (err e, s, d')
        | ok _ ↦ elim (product_on_sale mono.store req.product_id s) [
          | err e ↦ (err e, s, d')
          | ok p ↦
              elim (mono.transactions.transaction
                (reserve_and_create (new_order floats order_no uid req p)) s) [
                  | err e ↦ (err (create_error e), s, release redis uid req.product_id d')
                  | ok (o, s') ↦ (ok o, s', d')
                ]
        ]
      ]

  unfoldable pub get_order : ℕ → ℕ → S → Result (Order F)
  get_order uid id s = elim (get_order_by_id mono.store.orders id s) [
    | err e ↦ err (order_error e)
    | ok o ↦ if o.user_id == uid then ok o else err not_order_owner
  ]

  -- Return the units, then set the status.
  unfoldable pub return_and_cancel : ℕ → Order F → S → Result (Order F × S)
  return_and_cancel id o s = return_stock mono.inventories o.product_id o.quantity s >>= λ t.
      update_status_tx mono.store.orders id Status.cancelled t >>= λ t'. ok (o, t')

  -- The body of CancelOrder's transaction, which reads the order under a row lock.
  unfoldable pub cancel_body : ℕ → ℕ → S → Result (Order F × S)
  unfolding return_and_cancel
  cancel_body uid id s = get_order_by_id mono.store.orders id s >>= λ o.
      if o.user_id == uid
      then (if is_pending o.status then return_and_cancel id o s else err order_not_pending)
      else err not_order_owner

  unfoldable pub cancel_order : ℕ → ℕ → S → Result (Order F) × S
  cancel_order uid id s = elim (mono.transactions.transaction (cancel_body uid id) s) [
    | err e ↦ (err (order_error e), s)
    | ok (o, s') ↦ (ok (record o { status = Status.cancelled }), s')
  ]
