-- ===== src/Order/Handler/Owner.antt =====
-- internal/order/handler.go: who reads and who cancels an order, and what a refused request leaves.
use distributed_software_hom.Prelude.{
  ℕ, String, ◌==◌, ◌≡◌, ◌≢◌, ◌⊎◌, inl, inr, refl, sym, ◌∙◌, Option, none, some, arith,
}
use distributed_software_hom.Result.{
  Error, order_not_found, not_order_owner, order_not_pending, Result-cases,
}
use distributed_software_hom.Http.Number.{parse_uint}
use distributed_software_hom.Order.{Order, Status, with_status, get_order_by_id}
use distributed_software_hom.Order.Service.{Monolith, get_order, cancel_order}
use distributed_software_hom.Order.Service.Cancel.{
  CancelledBy, IsOrderWithId, cancel_order_ok, cancel_order_failed,
}
use distributed_software_hom.Http.{Reply}
use distributed_software_hom.Order.Handler.{
  get_code, cancel_code, got, cancelled_by, handle_get_order, handle_cancel_order,
}

get_code-refuses : (e : Error) → get_code e ≢ 200
get_code-refuses order_not_found h = ground arith
get_code-refuses not_order_owner h = ground arith
get_code-refuses e h = ground arith

cancel_code-refuses : (e : Error) → cancel_code e ≢ 200
cancel_code-refuses order_not_found h = ground arith
cancel_code-refuses not_order_owner h = ground arith
cancel_code-refuses order_not_pending h = ground arith
cancel_code-refuses e h = ground arith

module _ {F S : Type 0} (mono : Monolith F S) where
  -- The request of a known user with a number.
  abbrev pub IsRequestOf : Option ℕ → String → ℕ → ℕ → Type 0
  IsRequestOf user text uid id = (user ≡ some uid) × (parse_uint text ≡ some id)

  got-owner :
      (uid : ℕ) (n : Option ℕ) (s : S) (o : Order F)
      → (got mono uid n s).content ≡ some o
      → (id : ℕ) × (n ≡ some id) × IsOrderWithId mono id o s × (o.user_id ≡ uid)
  unfolding get_order get_order_by_id
  got-owner uid none s o h = ground arith
  got-owner uid (some id) s o h =
      elim (Result-cases (mono.store.orders.first (λ x. x.id == id) s)) [
        | inr (e, missing) ↦ ground (arith, h, missing)
        | inl (x, found) ↦
            let stored = mono.store.orders.first_ok (λ x. x.id == id) s x found in
            let same : x ≡ o = ground (arith, h, found) in
            let mine : x.user_id ≡ uid = ground (arith, h, found) in
            (id, refl, ground (arith, stored, same), ground (arith, mine, same))
      ]

  -- An order is shown to its owner only, as the table holds it: the request is of a known user, names
  -- the id of the order, and the user is the one who placed it.
  pub handle_get_order_owner :
      (user : Option ℕ) (text : String) (s : S) (o : Order F)
      → (handle_get_order mono user text s).content ≡ some o
      → (uid : ℕ) × (id : ℕ) × IsRequestOf user text uid id
        × IsOrderWithId mono id o s
        × (o.user_id ≡ uid)
  unfolding handle_get_order
  handle_get_order_owner none text s o h = ground arith
  handle_get_order_owner (some uid) text s o h =
      let (id, parsed, found, mine) = got-owner uid (parse_uint text) s o h in
      (uid, id, (refl, parsed), found, mine)

  cancelled_by-cases :
      (uid : ℕ) (n : Option ℕ) (s : S)
      → ((id : ℕ) × (o : Order F) × (n ≡ some id)
          × ((cancelled_by mono uid n s).0.content ≡ some (with_status Status.cancelled o))
          × CancelledBy mono uid id o s (cancelled_by mono uid n s).1)
        ⊎ (((cancelled_by mono uid n s).0.code ≢ 200) × ((cancelled_by mono uid n s).1 ≡ s))
  cancelled_by-cases uid none s = inr (λ e. ground arith, refl)
  cancelled_by-cases uid (some id) s = elim (Result-cases (cancel_order mono uid id s).0) [
    | inl (x, done) ↦
        let s' = (cancel_order mono uid id s).1 in
        let (o, is, by) = cancel_order_ok mono uid id x s s' (ground (arith, done)) in
        inl (id, o, refl, ground (arith, done, is), by)
    | inr (e, failed) ↦
        let refused : (cancelled_by mono uid (some id) s).0.code ≡ cancel_code e =
          ground (arith, failed) in
        inr (
          λ is. cancel_code-refuses e (sym refused ∙ is),
          cancel_order_failed mono uid id s e failed,
        )
  ]

  -- What a request to cancel has done whose reply is a success.
  abbrev pub CancelledFor : Option ℕ → String → S → Reply (Order F) → S → Type 0
  CancelledFor user text s reply s' =
      (uid : ℕ) × (id : ℕ) × (o : Order F) × IsRequestOf user text uid id
      × (reply.content ≡ some (with_status Status.cancelled o))
      × CancelledBy mono uid id o s s'

  -- A request to cancel either is of the user who placed a pending order, who is answered with the
  -- cancelled order while its units return to the stock; or it gets another code than 200 and leaves
  -- the database as it was.
  pub handle_cancel_order_cases :
      (user : Option ℕ) (text : String) (s : S)
      → CancelledFor user text s
          (handle_cancel_order mono user text s).0
          (handle_cancel_order mono user text s).1
        ⊎ (((handle_cancel_order mono user text s).0.code ≢ 200)
            × ((handle_cancel_order mono user text s).1 ≡ s))
  unfolding handle_cancel_order
  handle_cancel_order_cases none text s = inr (λ e. ground arith, refl)
  handle_cancel_order_cases (some uid) text s = elim (cancelled_by-cases uid (parse_uint text) s) [
    | inl (id, o, parsed, answer, by) ↦ inl (uid, id, o, (refl, parsed), answer, by)
    | inr (refused, same) ↦ inr (refused, same)
  ]
