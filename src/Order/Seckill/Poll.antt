-- ===== src/Order/Seckill/Poll.antt =====
-- internal/order/seckill_service.go, GetSeckillResult: what a client that polls for its order sees.
use distributed_software_hom.Prelude.{String}
use distributed_software_hom.Result.{Result, ok, err, record_not_found}
use distributed_software_hom.Redis.{Redis, Value, text, result_key}
use distributed_software_hom.Order.{
  Status, paid, cancelled, Order, order_schema, get_order_by_order_no,
}
use distributed_software_hom.Database.{Table}

abbrev pub outcome_of : Status → Value
outcome_of paid = text "SUCCESS"
outcome_of cancelled = text "FAILED"
outcome_of _ = text "PENDING"

-- An unknown order number is one that is not stored yet.
abbrev pub polled : {F : Type 0} → Result (Order F) → Result Value
polled (ok o) = ok (outcome_of o.status)
polled (err record_not_found) = ok (text "PENDING")
polled (err e) = err e

module _ {F S D : Type 0} (orders : Table S (Order F) order_schema) (redis : Redis D) where
  unfoldable pub get_seckill_result : String → S → D → Result Value
  get_seckill_result order_no s d = elim (redis.get (result_key order_no) d) [
    | ok status ↦ ok status
    | err _ ↦ polled (get_order_by_order_no orders order_no s)
  ]
