-- ===== src/Order/Handler.antt =====
-- internal/order/handler.go. The user id is what the authentication put into the context.
pub mod Owner
pub mod Create
use distributed_software_hom.Prelude.{ℕ, String, ◌==◌, Option, none, some, List}
use distributed_software_hom.Result.{
  Error, Result, ok, err, ◌>>=◌, order_product_not_found, product_off_sale, duplicate_order,
  order_stock_insufficient, order_not_found, not_order_owner, order_not_pending,
}
use distributed_software_hom.Redis.{Redis}
use distributed_software_hom.Http.{
  Reply, success, error, bad_request, unauthorized, respond, PaginatedData,
}
use distributed_software_hom.Http.Number.{parse_uint}
use distributed_software_hom.Http.Paging.{Pages, page_of, page_size_of, paginated, find_rows}
use distributed_software_hom.Order.{Order, CreateOrderRequest}
use distributed_software_hom.Order.Store.{Floats}
use distributed_software_hom.Order.Service.{Monolith, create_order, get_order, cancel_order}

-- How the handlers map the errors of the service.
abbrev pub create_code : Error → ℕ
create_code order_product_not_found = 404
create_code product_off_sale = 409
create_code duplicate_order = 409
create_code order_stock_insufficient = 409
create_code e = 500

abbrev pub get_code : Error → ℕ
get_code order_not_found = 404
get_code not_order_owner = 403
get_code e = 500

abbrev pub cancel_code : Error → ℕ
cancel_code order_not_found = 404
cancel_code not_order_owner = 403
cancel_code order_not_pending = 409
cancel_code e = 500

module _ {F S : Type 0} (mono : Monolith F S) where
  unfoldable pub handle_create_order :
      {D : Type 0}
      → Redis D
      → Floats F
      → String
      → Option ℕ
      → Option CreateOrderRequest
      → S
      → D
      → Reply (Order F) × S × D
  handle_create_order redis floats order_no none body s d = (unauthorized, s, d)
  handle_create_order redis floats order_no (some uid) none s d = (bad_request, s, d)
  handle_create_order redis floats order_no (some uid) (some req) s d =
      let (r, s', d') = create_order mono redis floats order_no uid req s d in
      (respond create_code r, s', d')

  -- `GetOrderByUserID` of the repository, newest first.
  unfoldable pub list_order_by_user :
      Pages mono.store.orders → ℕ → ℕ → ℕ → S → Result (List (Order F) × ℕ)
  list_order_by_user pages uid page page_size s =
      find_rows mono.store.orders pages (λ o. o.user_id == uid) page page_size s

  -- The query parameters `page` and `page_size`, which may be absent.
  unfoldable pub handle_list_orders :
      Pages mono.store.orders
      → Option ℕ
      → Option String
      → Option String
      → S
      → Reply (PaginatedData (Order F))
  handle_list_orders pages none page page_size s = unauthorized
  handle_list_orders pages (some uid) page page_size s =
      paginated (page_of page) (page_size_of page_size)
        (list_order_by_user pages uid (page_of page) (page_size_of page_size) s)

  abbrev pub got : ℕ → Option ℕ → S → Reply (Order F)
  got uid none s = bad_request
  got uid (some id) s = respond get_code (get_order mono uid id s)

  -- The path parameter `id`.
  unfoldable pub handle_get_order : Option ℕ → String → S → Reply (Order F)
  handle_get_order none id s = unauthorized
  handle_get_order (some uid) id s = got uid (parse_uint id) s

  abbrev pub cancelled_by : ℕ → Option ℕ → S → Reply (Order F) × S
  cancelled_by uid none s = (bad_request, s)
  cancelled_by uid (some id) s =
      let (r, s') = cancel_order mono uid id s in (respond cancel_code r, s')

  unfoldable pub handle_cancel_order : Option ℕ → String → S → Reply (Order F) × S
  handle_cancel_order none id s = (unauthorized, s)
  handle_cancel_order (some uid) id s = cancelled_by uid (parse_uint id) s
