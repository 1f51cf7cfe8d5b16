-- ===== src/Order/Events/Polled.antt =====
-- internal/order/event_handler.go with GetSeckillResult of internal/order/seckill_service.go: what a client
-- that polls sees once its payment went through.
use distributed_software_hom.Prelude.{
  String, ◌≡◌, ◌∙◌, refl, ap, inl, inr, none, some, find?, eq_refl, if◌then◌else◌, arith,
}
use distributed_software_hom.Result.{ok, Result-cases}
use distributed_software_hom.Database.{IsUp}
use distributed_software_hom.Redis.{Redis, IsRedisUp, Value, text, result_key}
use distributed_software_hom.Event.{PaymentResultEvent, Stamp, order_completed}
use distributed_software_hom.Order.{Order, Status, by_order_no, with_status, get_order_by_order_no}
use distributed_software_hom.Order.Store.{OrderStore}
use distributed_software_hom.Order.Seckill.Poll.{get_seckill_result, outcome_of, polled}
use distributed_software_hom.Order.Events.{run_advance, completed_payload, handle_payment_success}
use distributed_software_hom.Order.Events.Rows.{advanced_row}

module _ {F S D : Type 0} (store : OrderStore F S) (redis : Redis D) where
  open store use {orders}

  -- While the answer in Redis, if there is one, agrees with the status in the database, a poll gives
  -- that answer, whether Redis answers or fails.
  pub poll_agrees :
      (n : String) (o : Order F) (s : S) (d : D)
      → IsUp orders s
      → find? (by_order_no n) (orders.rows s) ≡ some o
      → ((v : Value) → redis.view (result_key n) d ≡ some v → v ≡ outcome_of o.status)
      → get_seckill_result orders redis n s d ≡ ok (outcome_of o.status)
  unfolding get_seckill_result get_order_by_order_no
  poll_agrees n o s d up stored agrees = elim (Result-cases (redis.get (result_key n) d)) [
    | inl (v, got) ↦
        rw (got, get_seckill_result) (ap ok (agrees v (redis.get_ok (result_key n) d v got)))
    | inr (e, failed) ↦
        rw (failed, get_seckill_result) (ap polled (up.first_found (by_order_no n) o stored))
  ]

  pub set_view :
      IsRedisUp redis
      → (n : String) (v : Value) (d : D)
      → redis.view (result_key n) (redis.set (result_key n) v d).1 ≡ some v
  set_view up n v d =
      let (d', set) = up.set_up (result_key n) v d in
      ap (λ c. redis.view (result_key n) c.1) set
      ∙ redis.set_ok (result_key n) v d d' set (result_key n)
      ∙ ap (λ b. if b then some v else redis.view (result_key n) d) (eq_refl n)

  -- PAYMENT_SUCCESS is handled: the order is paid, and the answer in Redis says so.
  module _ (stamp : Stamp) (evt : PaymentResultEvent F) (o : Order F) (s s' : S) (d : D)
      (read : get_order_by_order_no orders evt.order_no s ≡ ok o)
      (moved : run_advance store evt.order_no Status.paid order_completed
          (completed_payload stamp evt.order_no o)
          s
        ≡ ok (tt, s')) where
    abbrev pub answered : D
    answered = (redis.set (result_key evt.order_no) (text "SUCCESS") d).1

    pub payment_success_ended : handle_payment_success store redis stamp evt s d ≡ (s', answered)
    unfolding handle_payment_success
    payment_success_ended = rw (read, handle_payment_success) (rw moved refl)

    pub paid_row :
        find? (by_order_no evt.order_no) (orders.rows s') ≡ some (with_status Status.paid o)
    unfolding get_order_by_order_no
    paid_row =
        advanced_row store evt.order_no Status.paid order_completed
          (completed_payload stamp evt.order_no o) o s s'
          (orders.first_ok (by_order_no evt.order_no) s o read) moved

    pub poll_answered :
        IsRedisUp redis
        → IsUp orders s'
        → get_seckill_result orders redis evt.order_no s' answered ≡ ok (text "SUCCESS")
    poll_answered redis_up up =
        let seen = set_view redis_up evt.order_no (text "SUCCESS") d in
        poll_agrees evt.order_no (with_status Status.paid o) s' answered up paid_row
          (λ v there. ground (arith, seen, there))

  -- With Redis and the database reachable, once PAYMENT_SUCCESS was handled for an order, a client that
  -- polls with its number is told SUCCESS, and is told the same when the key in Redis has expired.
  pub poll_after_payment :
      IsRedisUp redis
      → (stamp : Stamp) (evt : PaymentResultEvent F) (o : Order F) (s s' : S) (d e : D)
      → get_order_by_order_no orders evt.order_no s ≡ ok o
      → run_advance store evt.order_no Status.paid order_completed
          (completed_payload stamp evt.order_no o)
          s
        ≡ ok (tt, s')
      → IsUp orders s'
      → redis.view (result_key evt.order_no) e ≡ none
      → ((handle_payment_success store redis stamp evt s d).0 ≡ s')
        × (get_seckill_result orders redis evt.order_no s'
              (handle_payment_success store redis stamp evt s d).1
            ≡ ok (text "SUCCESS"))
        × (get_seckill_result orders redis evt.order_no s' e ≡ ok (text "SUCCESS"))
  poll_after_payment redis_up stamp evt o s s' d e read moved up expired =
      let n = evt.order_no in
      let ended = payment_success_ended stamp evt o s s' d read moved in
      (
        ap (λ c. c.0) ended,
        ap (λ c. get_seckill_result orders redis n s' c.1) ended
            ∙ poll_answered stamp evt o s s' d read moved redis_up up,
        poll_agrees n (with_status Status.paid o) s' e up (paid_row stamp evt o s s' d read moved)
            (λ v there. absurd (ground (arith, expired, there))),
      )
