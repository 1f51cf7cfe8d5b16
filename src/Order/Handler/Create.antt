-- ===== src/Order/Handler/Create.antt =====
-- internal/order/handler.go: how a request for an order ends.
use distributed_software_hom.Prelude.{
  ℕ, String, ◌≡◌, ◌≢◌, ◌⊎◌, inl, inr, refl, sym, ◌∙◌, Option, none, some, arith,
}
use distributed_software_hom.Result.{
  Error, ok, order_product_not_found, product_off_sale, duplicate_order, order_stock_insufficient,
  Result-cases,
}
use distributed_software_hom.Redis.{Redis}
use distributed_software_hom.Http.{Reply}
use distributed_software_hom.Product.{Product}
use distributed_software_hom.Order.{Order, CreateOrderRequest}
use distributed_software_hom.Order.Store.{Floats}
use distributed_software_hom.Order.Seckill.{product_on_sale, new_order}
use distributed_software_hom.Order.Service.{Monolith, create_order}
use distributed_software_hom.Order.Service.Create.{
  ReservedAndCreated, create_order_ok, create_order_failed,
}
use distributed_software_hom.Order.Handler.{create_code, handle_create_order}

create_code-refuses : (e : Error) → create_code e ≢ 200
create_code-refuses order_product_not_found h = ground arith
create_code-refuses product_off_sale h = ground arith
create_code-refuses duplicate_order h = ground arith
create_code-refuses order_stock_insufficient h = ground arith
create_code-refuses e h = ground arith

module _ {F S D : Type 0} (mono : Monolith F S) (redis : Redis D) (floats : Floats F) where
  -- What a request with the body `body` has done whose reply is a success.
  abbrev pub OrderedBy :
      String → Option ℕ → Option CreateOrderRequest → S → Reply (Order F) → S → Type 0
  OrderedBy order_no user body s reply s' =
      (uid : ℕ) × (req : CreateOrderRequest) × (p : Product F) × (o : Order F) × (user ≡ some uid)
      × (body ≡ some req)
      × (product_on_sale mono.store req.product_id s ≡ ok p)
      × (reply.content ≡ some o)
      × ReservedAndCreated mono (new_order floats order_no uid req p) o s s'

  -- A request for an order either is of a known user, for a product on sale, and is answered with the
  -- order, whose units are locked and which is in the table; or it gets another code than 200 and
  -- leaves the database as it was.
  pub handle_create_order_cases :
      (order_no : String) (user : Option ℕ) (body : Option CreateOrderRequest) (s : S) (d : D)
      → OrderedBy order_no user body s
          (handle_create_order mono redis floats order_no user body s d).0
          (handle_create_order mono redis floats order_no user body s d).1
        ⊎ (((handle_create_order mono redis floats order_no user body s d).0.code ≢ 200)
            × ((handle_create_order mono redis floats order_no user body s d).1 ≡ s))
  unfolding handle_create_order
  handle_create_order_cases order_no none body s d = inr (λ e. ground arith, refl)
  handle_create_order_cases order_no (some uid) none s d = inr (λ e. ground arith, refl)
  handle_create_order_cases order_no (some uid) (some req) s d =
      let call = create_order mono redis floats order_no uid req s d in
      let reply = (handle_create_order mono redis floats order_no (some uid) (some req) s d).0 in
      elim (Result-cases call.0) [
        | inl (o, done) ↦
            let (p, on, created) =
              create_order_ok mono redis floats order_no uid req o s call.1 d call.2
                (ground (arith, done)) in
            inl (uid, req, p, o, refl, refl, on, ground (arith, done), created)
        | inr (e, failed) ↦
            let refused : reply.code ≡ create_code e = ground (arith, failed) in
            inr (
              λ is. create_code-refuses e (sym refused ∙ is),
              create_order_failed mono redis floats order_no uid req s d e failed,
            )
      ]
