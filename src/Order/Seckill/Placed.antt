-- ===== src/Order/Seckill/Placed.antt =====
-- A purchase that `Seckill` (internal/order/seckill_service.go) accepted.
use distributed_software_hom.Prelude.{
  ℕ, String, false, ◌==◌, eq_refl, find?, none, ◌≡◌, refl, inl, inr, some, [], ◌∷◌, ◌++◌, arith,
  ◌∙◌, subst, ap,
}
use distributed_software_hom.Prelude.Int.{ℤ, ◌≤ℤ◌, ◌-ℤ◌}
use distributed_software_hom.Result.{Result, ok, err, Result-cases, Call-cases}
use distributed_software_hom.Database.{no_value, no_value-eq-ok}
use distributed_software_hom.Database.Rows.{NotClashing}
use distributed_software_hom.Redis.{
  Redis, IsRedisUp, Key, text, lock_key, result_key, stock_key, number, number_at, same_key,
}
use distributed_software_hom.Event.{created, Stamp, order_created, order_events}
use distributed_software_hom.Outbox
use distributed_software_hom.Outbox.{OutboxEvent, unsent, write_event, write_event-rows}
use distributed_software_hom.Inventory.RedisStock.{deduct_redis, deduct_redis_ok}
use distributed_software_hom.Product.{Product, get_product_by_id, not_found_as_product}
use distributed_software_hom.Order.{Order, Status, order_schema, CreateOrderRequest, create_tx}
use distributed_software_hom.Order.Store.{Floats, OrderStore}
use distributed_software_hom.Order.Seckill.Claim.{claim-up}
use distributed_software_hom.Order.Seckill.{
  claim, require_on_sale, product_on_sale, new_order, created_payload, place, buy, seckill,
}

require_on_sale-ok :
    {F : Type 0} (r : Result (Product F)) (p : Product F)
    → require_on_sale (not_found_as_product r) ≡ ok p
    → (r ≡ ok p) × (p.status ≡ 1)
require_on_sale-ok (err e) p h = ground arith
require_on_sale-ok (ok p') p h = ground arith

module _ {F S : Type 0} (store : OrderStore F S) where
  product_on_sale-ok :
      (pid : ℕ) (s : S) (p : Product F)
      → product_on_sale store pid s ≡ ok p
      → (find? (λ x. x.id == pid) (store.products.rows s) ≡ some p) × (p.status ≡ 1)
  unfolding product_on_sale get_product_by_id
  product_on_sale-ok pid s p h =
      let (found, on) = require_on_sale-ok (store.products.first (λ x. x.id == pid) s) p h in
      (store.products.first_ok (λ x. x.id == pid) s p found, on)

  open store use {orders, outbox, transactions}

  -- One row more in the orders, and one event more in the outbox, with the same data.
  abbrev pub Placed : Stamp → Order F → S → S → Type 0
  Placed stamp o s s' =
      (i : ℕ) × (j : ℕ) × (orders.rows s' ≡ orders.rows s ++ record o { id = i } ∷ [])
      × (NotClashing order_schema.clash (record o { id = i }) (orders.rows s))
      × (outbox.rows s'
          ≡ outbox.rows s
            ++ record (unsent Outbox.order o.order_no order_created order_events
                (created (created_payload stamp o))) { id = j }
              ∷ [])

  -- The row and the event of a purchase, each column written out.
  abbrev pub IsPlacedFor :
      Floats F → Stamp → String → ℕ → CreateOrderRequest → Product F → S → S → Type 0
  IsPlacedFor floats stamp no' uid req p s s' =
      (i : ℕ) × (j : ℕ) × (orders.rows s'
        ≡ orders.rows s
          ++ record {
            id = i;
            order_no = no';
            user_id = uid;
            product_id = req.product_id;
            quantity = req.quantity;
            total_price = floats.times p.price (floats.of_int req.quantity);
            status = Status.pending;
          }
            ∷ [])
      × (NotClashing order_schema.clash
          (record {
            id = i;
            order_no = no';
            user_id = uid;
            product_id = req.product_id;
            quantity = req.quantity;
            total_price = floats.times p.price (floats.of_int req.quantity);
            status = Status.pending;
          })
          (orders.rows s))
      × (outbox.rows s'
          ≡ outbox.rows s
            ++ record {
              id = j;
              aggregate_type = Outbox.order;
              aggregate_id = no';
              event_type = order_created;
              topic = order_events;
              payload = created (record {
                base = record { event_id = stamp.uuid; timestamp = stamp.now };
                order_no = no';
                user_id = uid;
                product_id = req.product_id;
                quantity = req.quantity;
                total_price = floats.times p.price (floats.of_int req.quantity);
              });
              sent = false;
            }
              ∷ [])

  place-Placed :
      (stamp : Stamp) (o : Order F) (s s' : S) → place store stamp o s ≡ ok s' → Placed stamp o s s'
  unfolding place create_tx
  place-Placed stamp o s s' h = elim (Result-cases (orders.create o s)) [
    | inr (e, r) ↦ ground arith
    | inl (p, r) ↦
        let event = created (created_payload stamp o) in
        let row = unsent Outbox.order o.order_no order_created order_events event in
        let w : write_event outbox Outbox.order o.order_no order_created order_events event p.1
            ≡ ok s' =
          ground arith in
        let (j, made, rows) =
          write_event-rows outbox Outbox.order o.order_no order_created order_events event p.1 s'
            w in
        (
          p.0,
          j,
          store.outbox_apart.create_apart row p.1 j s' made ∙ orders.create_rows o s p.0 p.1 r,
          orders.create_unique o s p.0 p.1 r,
          rows
              ∙ ap (λ l. l ++ record row { id = j } ∷ [])
                  (store.orders_apart.create_apart o s p.0 p.1 r),
        )
  ]

  module _ {D : Type 0} (redis : Redis D) (floats : Floats F) where
    -- A lock that was claimed with Redis reachable was free.
    taken_by :
        (uid pid : ℕ) (s : S) (d d1 : D)
        → IsRedisUp redis
        → claim store redis uid pid s d ≡ (ok tt, d1)
        → (redis.view (lock_key uid pid) d ≡ none)
          × (redis.view (lock_key uid pid) d1 ≡ some (text "1"))
          × ((j : Key) → same_key (lock_key uid pid) j ≡ false → redis.view j d1 ≡ redis.view j d)
    taken_by uid pid s d d1 up c =
        let (d2, t) = claim-up store redis up uid pid s d in
        elim t [
          | inl (c', free, taken, others) ↦
              let e : d2 ≡ d1 = ground arith in
              (
                free,
                subst (λ x. redis.view (lock_key uid pid) x ≡ some (text "1")) e taken,
                λ j ne. subst (λ x. redis.view j x ≡ redis.view j d) e (others j ne),
              )
          | inr (c', held, others) ↦ ground arith
        ]

    buy-ok :
        (stamp : Stamp) (o : Order F) (s s' : S) (d d' : D) (n : String)
        → buy store redis stamp o s d ≡ (ok n, s', d')
        → (d1 : D) × (deduct_redis redis o.product_id o.quantity d ≡ (ok tt, d1))
          × (transactions.transaction (λ t. no_value (place store stamp o t)) s ≡ ok (tt, s'))
          × (n ≡ o.order_no)
          × (d' ≡ (redis.set (result_key o.order_no) (text "PENDING") d1).1)
    unfolding buy
    buy-ok stamp o s s' d d' n h =
        elim (Call-cases (deduct_redis redis o.product_id o.quantity d)) [
          | inr (e, d1, r) ↦ ground arith
          | inl (u, d1, r) ↦
              elim (Result-cases
                (transactions.transaction (λ t. no_value (place store stamp o t)) s)) [
                  | inr (e, w) ↦ ground arith
                  | inl (p, w) ↦ (d1, ground arith, ground arith, ground arith, ground arith)
                ]
        ]

    seckill-ok :
        (stamp : Stamp) (no' : String) (uid : ℕ) (req : CreateOrderRequest) (s s' : S) (d d' : D)
        (n : String)
        → seckill store redis floats stamp no' uid req s d ≡ (ok n, s', d')
        → (p : Product F) × (d1 : D) × (claim store redis uid req.product_id s d ≡ (ok tt, d1))
          × (product_on_sale store req.product_id s ≡ ok p)
          × (buy store redis stamp (new_order floats no' uid req p) s d1 ≡ (ok n, s', d'))
    unfolding seckill
    seckill-ok stamp no' uid req s s' d d' n h =
        elim (Call-cases (claim store redis uid req.product_id s d)) [
          | inr (e, d1, r) ↦ ground arith
          | inl (u, d1, r) ↦ elim (Result-cases (product_on_sale store req.product_id s)) [
            | inr (e, w) ↦ ground arith
            | inl (p, w) ↦ (p, d1, ground arith, w, ground arith)
          ]
        ]

    -- An accepted purchase was of a product that is on sale, returns the generated order number, and
    -- has added to the database exactly one pending order of that user, product and quantity, at the
    -- price of the product times the quantity, which clashes with no earlier one, and exactly one
    -- unsent ORDER_CREATED event for order-events, with the same data.
    pub seckill-Placed :
        (stamp : Stamp) (no' : String) (uid : ℕ) (req : CreateOrderRequest) (s s' : S) (d d' : D)
        (n : String)
        → seckill store redis floats stamp no' uid req s d ≡ (ok n, s', d')
        → (p : Product F) × (find? (λ x. x.id == req.product_id) (store.products.rows s) ≡ some p)
          × (p.status ≡ 1)
          × (n ≡ no')
          × IsPlacedFor floats stamp no' uid req p s s'
    seckill-Placed stamp no' uid req s s' d d' n h =
        let (p, d1, c, sale, b) = seckill-ok stamp no' uid req s s' d d' n h in
        let (found, on) = product_on_sale-ok req.product_id s p sale in
        let o = new_order floats no' uid req p in
        let (d2, r, w, same, end) = buy-ok stamp o s s' d1 d' n b in
        let (i, j, rows, free, events) = place-Placed stamp o s s' (
          no_value-eq-ok (place store stamp o s) tt s'
            (transactions.commits (λ t. no_value (place store stamp o t)) s tt s' w)) in
        (p, found, on, same, (i, j, rows, free, events))

    -- With Redis reachable an accepted purchase found its lock free and holds it now, took its
    -- quantity from a stock counter that covered it, and has the result PENDING.
    pub seckill_counts :
        IsRedisUp redis
        → (stamp : Stamp) (no' : String) (uid : ℕ) (req : CreateOrderRequest) (s s' : S) (d d' : D)
          (n : String)
        → seckill store redis floats stamp no' uid req s d ≡ (ok n, s', d')
        → (redis.view (lock_key uid req.product_id) d ≡ none)
          × (redis.view (lock_key uid req.product_id) d' ≡ some (text "1"))
          × (redis.view (result_key no') d' ≡ some (text "PENDING"))
          × ((b : ℤ) × (number_at (redis.view (stock_key req.product_id) d) ≡ some b)
              × (req.quantity ≤ℤ b)
              × (redis.view (stock_key req.product_id) d' ≡ some (number (b -ℤ req.quantity))))
    seckill_counts up stamp no' uid req s s' d d' n h =
        let pid = req.product_id in
        let (p, d1, c, sale, b) = seckill-ok stamp no' uid req s s' d d' n h in
        let o = new_order floats no' uid req p in
        let (d2, r, w, same, end) = buy-ok stamp o s s' d1 d' n b in
        let (m, at, covers, now, others) = deduct_redis_ok redis pid req.quantity d1 d2 r in
        let (d3, set) = up.set_up (result_key no') (text "PENDING") d2 in
        let views = redis.set_ok (result_key no') (text "PENDING") d2 d3 set in
        let last : d' ≡ d3 = ground (arith, end, set) in
        let (free, taken, same_views) = taken_by uid pid s d d1 up c in
        (
          free,
          rw last (views (lock_key uid pid) ∙ (others (lock_key uid pid) refl ∙ taken)),
          rw last (views (result_key no') ∙ (rw (eq_refl no') refl)),
          (
            m,
            subst (λ v. number_at v ≡ some m) (same_views (stock_key pid) refl) at,
            covers,
            rw last (views (stock_key pid) ∙ now),
          ),
        )
