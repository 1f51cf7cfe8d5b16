-- ===== src/Tests/World.antt =====
-- A concrete database and a concrete Redis, on which the tests run. Prices are whole numbers.
use distributed_software_hom.Prelude.{
  ℕ, ◌*◌, refl, ◌==◌, ◌&&◌, ltb, List, [], ◌∷◌, none, some, if◌then◌else◌,
}
use distributed_software_hom.Prelude.Int.{pos, pos_part}
use distributed_software_hom.Database.{Table, IsApart, IsUp}
use distributed_software_hom.Database.Memory
use distributed_software_hom.Redis.{number, text, lock_key, stock_key}
use distributed_software_hom.Redis.Memory.{Store}
use distributed_software_hom.Event.{Stamp}
use distributed_software_hom.Outbox.{OutboxEvent, outbox_schema}
use distributed_software_hom.Inventory.{Inventory, inventory_schema}
use distributed_software_hom.Inventory.Events.{InventoryStore}
use distributed_software_hom.Product.{Product, product_schema}
use distributed_software_hom.Order.{Order, order_schema, pending, CreateOrderRequest}
use distributed_software_hom.Order.Store.{Floats, OrderStore}
use distributed_software_hom.Order.Service.{Monolith}
use distributed_software_hom.Payment.{Payment, payment_schema, PaymentStore, Probabilities}
use distributed_software_hom.User.{User, user_schema}

pub record World : Type 0 where
  pub orders : List (Order ℕ)
  pub outbox : List (OutboxEvent ℕ)
  pub products : List (Product ℕ)
  pub inventories : List Inventory
  pub payments : List (Payment ℕ)
  pub users : List User

abbrev pub orders : Table World (Order ℕ) order_schema
orders = Memory.table order_schema (λ w. w.orders) (λ l w. record w { orders = l }) (λ l w. refl)

abbrev pub outbox : Table World (OutboxEvent ℕ) outbox_schema
outbox = Memory.table outbox_schema (λ w. w.outbox) (λ l w. record w { outbox = l }) (λ l w. refl)

abbrev pub products : Table World (Product ℕ) product_schema
products =
    Memory.table product_schema (λ w. w.products) (λ l w. record w { products = l }) (λ l w. refl)

abbrev pub inventories : Table World Inventory inventory_schema
inventories =
    Memory.table inventory_schema (λ w. w.inventories) (λ l w. record w { inventories = l })
      (λ l w. refl)

abbrev pub payments : Table World (Payment ℕ) payment_schema
payments =
    Memory.table payment_schema (λ w. w.payments) (λ l w. record w { payments = l }) (λ l w. refl)

abbrev pub users : Table World User user_schema
users = Memory.table user_schema (λ w. w.users) (λ l w. record w { users = l }) (λ l w. refl)

abbrev pub orders_outbox : IsApart orders outbox
unfolding Memory.table
orders_outbox =
    Memory.apart order_schema outbox_schema (λ w. w.orders) (λ l w. record w { orders = l })
      (λ l w. refl) outbox (λ l s. refl)

abbrev pub outbox_orders : IsApart outbox orders
unfolding Memory.table
outbox_orders =
    Memory.apart outbox_schema order_schema (λ w. w.outbox) (λ l w. record w { outbox = l })
      (λ l w. refl) orders (λ l s. refl)

abbrev pub orders_inventories : IsApart orders inventories
unfolding Memory.table
orders_inventories =
    Memory.apart order_schema inventory_schema (λ w. w.orders) (λ l w. record w { orders = l })
      (λ l w. refl) inventories (λ l s. refl)

abbrev pub inventories_orders : IsApart inventories orders
unfolding Memory.table
inventories_orders =
    Memory.apart inventory_schema order_schema (λ w. w.inventories)
      (λ l w. record w { inventories = l }) (λ l w. refl) orders (λ l s. refl)

abbrev pub inventories_outbox : IsApart inventories outbox
unfolding Memory.table
inventories_outbox =
    Memory.apart inventory_schema outbox_schema (λ w. w.inventories)
      (λ l w. record w { inventories = l }) (λ l w. refl) outbox (λ l s. refl)

abbrev pub outbox_inventories : IsApart outbox inventories
unfolding Memory.table
outbox_inventories =
    Memory.apart outbox_schema inventory_schema (λ w. w.outbox) (λ l w. record w { outbox = l })
      (λ l w. refl) inventories (λ l s. refl)

abbrev pub payments_outbox : IsApart payments outbox
unfolding Memory.table
payments_outbox =
    Memory.apart payment_schema outbox_schema (λ w. w.payments) (λ l w. record w { payments = l })
      (λ l w. refl) outbox (λ l s. refl)

abbrev pub outbox_payments : IsApart outbox payments
unfolding Memory.table
outbox_payments =
    Memory.apart outbox_schema payment_schema (λ w. w.outbox) (λ l w. record w { outbox = l })
      (λ l w. refl) payments (λ l s. refl)

pub inventories-IsUp : (w : World) → IsUp inventories w
inventories-IsUp w =
    Memory.table-IsUp inventory_schema (λ w. w.inventories) (λ l w. record w { inventories = l })
      (λ l w. refl) w

abbrev pub order_store : OrderStore ℕ World
order_store = record {
  orders = orders;
  outbox = outbox;
  products = products;
  transactions = Memory.alone;
  orders_apart = orders_outbox;
  outbox_apart = outbox_orders;
}

abbrev pub mono : Monolith ℕ World
mono = record {
  store = order_store;
  inventories = inventories;
  transactions = Memory.alone;
  inventories_apart = inventories_orders;
  orders_apart = orders_inventories;
}

abbrev pub inventory_store : InventoryStore ℕ World
inventory_store = record {
  inventories = inventories;
  outbox = outbox;
  transactions = Memory.alone;
  inventories_apart = inventories_outbox;
  outbox_apart = outbox_inventories;
}

abbrev pub payment_store : PaymentStore ℕ World
payment_store = record {
  payments = payments;
  outbox = outbox;
  transactions = Memory.alone;
  payments_apart = payments_outbox;
  outbox_apart = outbox_payments;
}

abbrev pub floats : Floats ℕ
floats = record { times = λ a b. a * b; of_int = pos_part }

abbrev pub rates : Probabilities ℕ
rates = record { less = ltb; zero = 0; one = 100 }

abbrev pub stamp : Stamp
stamp = record { uuid = "e1"; now = 1000 }

-- Product 5 is on sale at 20, product 6 is not.
abbrev pub lamp : Product ℕ
lamp = record {
  id = 5;
  name = "lamp";
  description = "";
  price = 20;
  category = "home";
  image_url = "";
  status = 1;
}

abbrev pub chair : Product ℕ
chair = record {
  id = 6;
  name = "chair";
  description = "";
  price = 90;
  category = "home";
  image_url = "";
  status = 0;
}

-- Ten lamps, of which seven are available and three are locked.
abbrev pub lamps : Inventory
lamps = record {
  id = 1;
  product_id = 5;
  total = pos 10;
  available = pos 7;
  locked = pos 3;
  version = 4;
}

-- User 8 has ordered three lamps.
abbrev pub order8 : Order ℕ
order8 = record {
  id = 1;
  order_no = "N8";
  user_id = 8;
  product_id = 5;
  quantity = pos 3;
  total_price = 60;
  status = pending;
}

abbrev pub world : World
world = record {
  orders = order8 ∷ [];
  outbox = [];
  products = lamp ∷ chair ∷ [];
  inventories = lamps ∷ [];
  payments = [];
  users = [];
}

abbrev pub two_lamps : CreateOrderRequest
two_lamps = record { product_id = 5; quantity = pos 2 }

abbrev pub a_chair : CreateOrderRequest
a_chair = record { product_id = 6; quantity = pos 1 }

abbrev pub nine_lamps : CreateOrderRequest
nine_lamps = record { product_id = 5; quantity = pos 9 }

-- The counter of lamps is at 7, and user 8 holds a lock.
abbrev pub cache : Store
cache (stock_key p) = if p == 5 then some (number (pos 7)) else none
cache (lock_key u p) = if u == 8 && p == 5 then some (text "1") else none
cache _ = none
