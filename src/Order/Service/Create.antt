-- ===== src/Order/Service/Create.antt =====
-- `CreateOrder` of internal/order/service.go: what an accepted order has done, and the lock that a
-- refused one leaves behind.
use distributed_software_hom.Prelude.{
  ℕ, suc, String, ◌≡◌, ◌≢◌, inl, inr, none, [], ◌∷◌, ◌++◌, arith, ◌∙◌, sym, ap,
}
use distributed_software_hom.Result.{Error, ok, err, duplicate_order, Result-cases, Call-cases}
use distributed_software_hom.Redis.{Redis, IsRedisUp, lock_key}
use distributed_software_hom.Event.{Stamp}
use distributed_software_hom.Inventory.{Inventory, can_deduct, lock_units}
use distributed_software_hom.Inventory.Deduct.{HasDeducted, deduct_outcome}
use distributed_software_hom.Product.{Product}
use distributed_software_hom.Order.{Order, CreateOrderRequest, create_tx}
use distributed_software_hom.Order.Store.{Floats}
use distributed_software_hom.Order.Seckill.{claim, product_on_sale, new_order, seckill}
use distributed_software_hom.Order.Seckill.Claim.{claim-up}
use distributed_software_hom.Order.Seckill.Refused.{seckill_duplicate}
use distributed_software_hom.Order.Service.{Monolith, reserve_and_create, create_order}

module _ {F S : Type 0} (mono : Monolith F S) where
  open mono use {store, inventories, transactions}

  -- The units are locked and the order is there.
  abbrev pub ReservedAndCreated : Order F → Order F → S → S → Type 0
  ReservedAndCreated o o' s s' =
      (i : ℕ) × (o' ≡ record o { id = i })
      × HasDeducted inventories o.product_id o.quantity s s'
      × (store.orders.rows s' ≡ store.orders.rows s ++ o' ∷ [])

  reserve_and_create-ok :
      (o o' : Order F) (s s' : S)
      → reserve_and_create mono o s ≡ ok (o', s')
      → ReservedAndCreated o o' s s'
  unfolding reserve_and_create create_tx
  reserve_and_create-ok o o' s s' h = elim (deduct_outcome inventories o.product_id o.quantity s) [
    | inl (e, r) ↦ ground arith
    | inr (t, v, n, r, u) ↦ elim (Result-cases (store.orders.create o t)) [
      | inr (e, w) ↦ ground arith
      | inl (c, w) ↦
          let w' : store.orders.create o t ≡ ok (c.0, s') = ground arith in
          let made : record o { id = c.0 } ≡ o' = ground arith in
          let g = can_deduct o.product_id o.quantity v in
          let f = λ (x : Inventory). lock_units o.quantity x in
          (
            c.0,
            sym made,
            (
              v,
              (
                mono.orders_apart.create_apart o t c.0 s' w'
                    ∙ inventories.update_rows g f s (suc n) t u,
                λ z. ground (arith, inventories.update_count g f s (suc n) t u),
              ),
            ),
            store.orders.create_rows o t c.0 s' w'
                ∙ (ap (λ l. l ++ record o { id = c.0 } ∷ [])
                      (mono.inventories_apart.update_apart g f s (suc n) t u)
                    ∙ ap (λ x. store.orders.rows s ++ x ∷ []) made),
          )
    ]
  ]

  module _ {D : Type 0} (redis : Redis D) (floats : Floats F) where
    -- An accepted order of a product on sale has locked its units, once, and is in the table with the
    -- status pending and the price of its quantity; both or neither are committed.
    pub create_order_ok :
        (order_no : String) (uid : ℕ) (req : CreateOrderRequest) (o : Order F) (s s' : S) (d d' : D)
        → create_order mono redis floats order_no uid req s d ≡ (ok o, s', d')
        → (p : Product F) × (product_on_sale store req.product_id s ≡ ok p)
          × ReservedAndCreated (new_order floats order_no uid req p) o s s'
    unfolding create_order
    create_order_ok order_no uid req o s s' d d' h =
        elim (Call-cases (claim store redis uid req.product_id s d)) [
          | inr (e, d1, r) ↦ ground arith
          | inl (u, d1, r) ↦ elim (Result-cases (product_on_sale store req.product_id s)) [
            | inr (e, w) ↦ ground arith
            | inl (p, w) ↦
                let body = reserve_and_create mono (new_order floats order_no uid req p) in
                elim (Result-cases (transactions.transaction body s)) [
                  | inr (e, c) ↦ ground arith
                  | inl (c, t) ↦
                      let t' : transactions.transaction body s ≡ ok (o, s') = ground arith in
                      (
                        p,
                        w,
                        reserve_and_create-ok (new_order floats order_no uid req p) o s s'
                            (transactions.commits body s o s' t'),
                      )
                ]
          ]
        ]

    -- With Redis reachable, an order that is refused because of its product leaves the lock of its
    -- user and product taken: from then on `Seckill` refuses that user as a duplicate, although
    -- no order was made, whatever has become of the database.
    pub create_order_keeps_lock :
        (up : IsRedisUp redis) (order_no : String) (uid : ℕ) (req : CreateOrderRequest) (e : Error)
        (stamp : Stamp) (next_no : String) (s s2 : S) (d : D)
        → redis.view (lock_key uid req.product_id) d ≡ none
        → product_on_sale store req.product_id s ≡ err e
        → (d1 : D) × (create_order mono redis floats order_no uid req s d ≡ (err e, s, d1))
          × (d2 : D) × (seckill store redis floats stamp next_no uid req s2 d1
              ≡ (err duplicate_order, s2, d2))
    unfolding create_order
    create_order_keeps_lock up order_no uid req e stamp next_no s s2 d free refused =
        let (d1, t) = claim-up store redis up uid req.product_id s d in
        elim t [
          | inr (c, held, views) ↦ absurd (held free)
          | inl (c, was_free, taken, others) ↦
              let still : redis.view (lock_key uid req.product_id) d1 ≢ none = λ z. ground arith in
              let (d2, again, views) =
                seckill_duplicate store redis up floats stamp next_no uid req s2 d1 still in
              (d1, ground arith, d2, again)
        ]

    -- An order that is refused leaves the database as it was.
    pub create_order_failed :
        (order_no : String) (uid : ℕ) (req : CreateOrderRequest) (s : S) (d : D) (e : Error)
        → (create_order mono redis floats order_no uid req s d).0 ≡ err e
        → (create_order mono redis floats order_no uid req s d).1 ≡ s
    unfolding create_order
    create_order_failed order_no uid req s d e h =
        elim (Call-cases (claim store redis uid req.product_id s d)) [
          | inr (e1, d1, r) ↦ ground (arith, r)
          | inl (u, d1, r) ↦ elim (Result-cases (product_on_sale store req.product_id s)) [
            | inr (e2, w) ↦ ground (arith, r, w)
            | inl (p, w) ↦
                let body = reserve_and_create mono (new_order floats order_no uid req p) in
                elim (Result-cases (transactions.transaction body s)) [
                  | inr (e3, c) ↦ ground (arith, r, w, c)
                  | inl (c, t) ↦ ground (arith, h, r, w, t)
                ]
          ]
        ]
