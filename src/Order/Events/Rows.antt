-- ===== src/Order/Events/Rows.antt =====
-- The order row that internal/order/event_handler.go has moved on.
use distributed_software_hom.Prelude.{String, Bool, ◌≡◌, refl, arith}
use distributed_software_hom.Result.{ok}
use distributed_software_hom.Database.Rows.{find?-map_where, find?-passes}
use distributed_software_hom.Event.{EventType, Payload}
use distributed_software_hom.Order.{Order, Status, by_order_no, with_status}
use distributed_software_hom.Order.Store.{OrderStore}
use distributed_software_hom.Order.Events.{run_advance}
use distributed_software_hom.Order.Events.Advance.{IsOrderOf, run_advance-Advanced}

module _ {F S : Type 0} (store : OrderStore F S) where
  open store use {orders}

  pub advanced_row :
      (order_no : String) (status : Status) (event_type : EventType) (payload : Payload F)
      (o : Order F) (s s' : S)
      → IsOrderOf store order_no o s
      → run_advance store order_no status event_type payload s ≡ ok (tt, s')
      → IsOrderOf store order_no (with_status status o) s'
  advanced_row order_no status event_type payload o s s' found moved =
      let p : Order F → Bool = by_order_no order_no in
      let f = λ (x : Order F). with_status status x in
      let (i, rows, events) =
        run_advance-Advanced store order_no status event_type payload s s' tt moved in
      rw rows (
        ground (
          arith,
          find?-map_where p p f (λ x. refl) (orders.rows s),
          find?-passes p (orders.rows s) o found,
        ))
