-- ===== src/Order/Store.antt =====
-- The database of the order service, and the floats that it computes with.
use distributed_software_hom.Prelude.Int.{ℤ}
use distributed_software_hom.Database.{Table, IsApart, Transactions}
use distributed_software_hom.Outbox.{OutboxEvent, outbox_schema}
use distributed_software_hom.Product.{Product, product_schema}
use distributed_software_hom.Order.{Order, order_schema}

-- `*` on `float64`, and the conversion `float64(n)`.
pub record Floats (F : Type 0) : Type 0 where
  pub times : F → F → F
  pub of_int : ℤ → F

pub record OrderStore (F S : Type 0) : Type 0 where
  pub orders : Table S (Order F) order_schema
  pub outbox : Table S (OutboxEvent F) outbox_schema
  pub products : Table S (Product F) product_schema
  pub transactions : Transactions S (Unit {0})
  pub orders_apart : IsApart orders outbox
  pub outbox_apart : IsApart outbox orders
