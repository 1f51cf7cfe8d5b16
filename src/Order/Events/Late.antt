-- ===== src/Order/Events/Late.antt =====
-- What internal/order/event_handler.go does to an order for which a failed payment comes late.
use distributed_software_hom.Prelude.{◌≡◌, some, find?}
use distributed_software_hom.Result.{ok}
use distributed_software_hom.Event.{PaymentResultEvent, Stamp, order_cancelled}
use distributed_software_hom.Redis.{Redis}
use distributed_software_hom.Order.{Order, Status, by_order_no, with_status, get_order_by_order_no}
use distributed_software_hom.Order.Store.{OrderStore}
use distributed_software_hom.Order.Events.{run_advance, cancelled_payload, handle_payment_failed}
use distributed_software_hom.Order.Events.Rows.{advanced_row}

module _ {F S D : Type 0} (store : OrderStore F S) (redis : Redis D) where
  open store use {orders}

  -- Where its transaction succeeds, PAYMENT_FAILED cancels the order whatever its status was, so
  -- also an order that is paid already.
  pub payment_failed_overrides :
      (stamp : Stamp) (evt : PaymentResultEvent F) (o : Order F) (s s' : S) (d : D)
      → get_order_by_order_no orders evt.order_no s ≡ ok o
      → run_advance store evt.order_no Status.cancelled order_cancelled
          (cancelled_payload stamp evt.order_no o o.product_id "payment_failed")
          s
        ≡ ok (tt, s')
      → find?
          (by_order_no evt.order_no)
          (orders.rows (handle_payment_failed store redis stamp evt s d).0)
        ≡ some (with_status Status.cancelled o)
  unfolding handle_payment_failed get_order_by_order_no
  payment_failed_overrides stamp evt o s s' d r w =
      rw (r, handle_payment_failed)
        (rw w (
          advanced_row store evt.order_no Status.cancelled order_cancelled
            (cancelled_payload stamp evt.order_no o o.product_id "payment_failed") o s s'
            (orders.first_ok (by_order_no evt.order_no) s o r) w))
