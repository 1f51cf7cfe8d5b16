-- ===== src/Order/Seckill/Handler.antt =====
-- internal/order/seckill_handler.go, with the status codes of pkg/response/response.go. The user id
-- is what the authentication put into the context, the body what gin bound of the request; the
-- texts of the messages are left out.
use distributed_software_hom.Prelude.{
  ℕ, String, ◌≡◌, inl, inr, refl, Option, none, some, arith, str_eq, if◌then◌else◌,
}
use distributed_software_hom.Result.{
  Error, ok, err, duplicate_order, order_product_not_found, product_off_sale,
  order_stock_insufficient, Result-cases,
}
use distributed_software_hom.Redis.{Redis, Value}
use distributed_software_hom.Http
use distributed_software_hom.Event.{Stamp}
use distributed_software_hom.Order.{CreateOrderRequest}
use distributed_software_hom.Order.Store.{Floats, OrderStore}
use distributed_software_hom.Order.Seckill.{seckill}
use distributed_software_hom.Order.Seckill.Poll.{get_seckill_result}

-- The status code, and the order number of a success.
pub record Reply : Type 0 where
  pub code : ℕ
  pub order_no : Option String

abbrev pub refusal : ℕ → Reply
refusal code = record { code = code; order_no = none }

-- How Seckill maps the errors of the service.
abbrev pub seckill_code : Error → ℕ
seckill_code duplicate_order = 409
seckill_code order_product_not_found = 404
seckill_code product_off_sale = 409
seckill_code order_stock_insufficient = 409
seckill_code e = 500

module _ {F S D : Type 0} (store : OrderStore F S) (redis : Redis D) where
  unfoldable pub handle_seckill :
      Floats F → Stamp → String → Option ℕ → Option CreateOrderRequest → S → D → Reply × S × D
  handle_seckill floats stamp order_no none body s d = (refusal 401, s, d)
  handle_seckill floats stamp order_no (some uid) none s d = (refusal 400, s, d)
  handle_seckill floats stamp order_no (some uid) (some req) s d =
      let (r, s', d') = seckill store redis floats stamp order_no uid req s d in
      elim r [
        | err e ↦ (refusal (seckill_code e), s', d')
        | ok n ↦ (record { code = 200; order_no = some n }, s', d')
      ]

  -- GetResult: the query parameter is empty if it is absent; the answer has the order number and the
  -- status.
  unfoldable pub handle_get_result : String → S → D → Http.Reply (String × Value)
  handle_get_result order_no s d =
      if str_eq order_no ""
      then Http.bad_request
      else elim (get_seckill_result store.orders redis order_no s d) [
        | err e ↦ Http.internal_server_error
        | ok status ↦ Http.success (order_no, status)
      ]

  -- A reply with the code 200 is given exactly to a known user with a well formed request whose
  -- purchase the service accepted, and names the order number that the service returned.
  pub handle_seckill_accepts :
      (floats : Floats F) (stamp : Stamp) (order_no : String) (user : Option ℕ)
      (body : Option CreateOrderRequest) (s s' : S) (d d' : D) (reply : Reply)
      → handle_seckill floats stamp order_no user body s d ≡ (reply, s', d')
      → reply.code ≡ 200
      → (uid : ℕ) × (req : CreateOrderRequest) × (n : String) × (user ≡ some uid)
        × (body ≡ some req)
        × (reply.order_no ≡ some n)
        × (seckill store redis floats stamp order_no uid req s d ≡ (ok n, s', d'))
  unfolding handle_seckill
  handle_seckill_accepts floats stamp order_no none body s s' d d' reply h is = ground arith
  handle_seckill_accepts floats stamp order_no (some uid) none s s' d d' reply h is = ground arith
  handle_seckill_accepts floats stamp order_no (some uid) (some req) s s' d d' reply h is =
      elim (Result-cases (seckill store redis floats stamp order_no uid req s d).0) [
        | inl (n, r) ↦ (uid, req, n, refl, refl, ground (arith, r), ground (arith, r))
        | inr (e, r) ↦ ground (arith, r)
      ]
