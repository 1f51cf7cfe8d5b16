-- ===== src/Order.antt =====
-- internal/order/{model,repository}.go: the orders. `F` stands for `float64`; timestamps are left out.
pub mod Store
pub mod Seckill
pub mod Events
pub mod Service
pub mod Handler
use distributed_software_hom.Prelude.{
  ℕ, zero, suc, String, Bool, true, false, ◌&&◌, ◌||◌, ◌==◌, str_eq, ltb,
}
use distributed_software_hom.Prelude.Int.{ℤ}
use distributed_software_hom.Result.{Result, ok, err, ◌>>=◌, record_not_found}
use distributed_software_hom.Database.{Schema, Table}

-- The constants StatusPending … StatusCancelled.
pub data Status : Type 0 where
  pending awaiting_payment paid cancelled : Status

pub record Order (F : Type 0) : Type 0 where
  pub id : ℕ
  pub order_no : String
  pub user_id : ℕ
  pub product_id : ℕ
  pub quantity : ℤ
  pub total_price : F
  pub status : Status

pub record CreateOrderRequest : Type 0 where
  pub product_id : ℕ
  pub quantity : ℤ

module _ {F : Type 0} where
  abbrev pub by_user_and_product : ℕ → ℕ → Order F → Bool
  by_user_and_product uid pid o = o.user_id == uid && o.product_id == pid

  abbrev pub by_order_no : String → Order F → Bool
  by_order_no n o = str_eq o.order_no n

  -- `primaryKey`, `uniqueIndex` on OrderNo and `uniqueIndex:idx_user_product`
  abbrev pub order_schema : Schema (Order F)
  order_schema = record {
    id_of = λ o. o.id;
    with_id = λ i o. record o { id = i };
    clash = λ a b.
        a.id == b.id || (by_order_no b.order_no a || by_user_and_product b.user_id b.product_id a);
  }

  abbrev pub with_status : Status → Order F → Order F
  with_status status o = record o { status = status }

  module _ {S : Type 0} (orders : Table S (Order F) order_schema) where
    -- The calls outside of a transaction, which nothing in the program makes.
    unfoldable create : Order F → S → Result (Order F × S)
    create o s = orders.create o s >>= λ (i, s'). ok (record o { id = i }, s')

    unfoldable update_status : ℕ → Status → S → Result S
    update_status id status s =
        orders.update (λ o. o.id == id) (with_status status) s >>= λ (n, s'). ok s'

    unfoldable pub create_tx : Order F → S → Result (Order F × S)
    create_tx o s = orders.create o s >>= λ (i, s'). ok (record o { id = i }, s')

    unfoldable pub get_order_by_id : ℕ → S → Result (Order F)
    get_order_by_id id s = orders.first (λ o. o.id == id) s

    unfoldable pub get_order_by_order_no : String → S → Result (Order F)
    get_order_by_order_no n s = orders.first (by_order_no n) s

    -- An UPDATE of no row is no error here.
    unfoldable pub update_status_tx : ℕ → Status → S → Result S
    update_status_tx id status s =
        orders.update (λ o. o.id == id) (with_status status) s >>= λ (n, s'). ok s'

    unfoldable pub exists_by_user_and_product : ℕ → ℕ → S → Result Bool
    exists_by_user_and_product uid pid s =
        orders.count_rows (by_user_and_product uid pid) s >>= λ n. ok (ltb 0 n)

    -- `if result.RowsAffected == 0 { return gorm.ErrRecordNotFound }`
    abbrev pub some_affected : ℕ × S → Result S
    some_affected (zero, s) = err record_not_found
    some_affected (suc n, s) = ok s

    unfoldable pub update_status_by_order_no_tx : String → Status → S → Result S
    update_status_by_order_no_tx n status s =
        orders.update (by_order_no n) (with_status status) s >>= some_affected

    unfoldable update_status_by_order_no : String → Status → S → Result S
    update_status_by_order_no n status s =
        orders.update (by_order_no n) (with_status status) s >>= some_affected
