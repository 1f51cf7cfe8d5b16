-- ===== src/Startup.antt =====
-- The entry points cmd/{server,order-service,inventory-service,payment-service}/main.go, up to the
-- call that serves requests. What the libraries answer is an argument; the construction of services
-- and handlers has no effect, and Redis need not be reachable (NewRedisClient only warns).
pub mod Ready
use distributed_software_hom.Prelude.{
  ℕ, String, ◌≡◌, refl, Bool, true, false, Option, none, some, List, [], ◌∷◌, ◌*◌, if◌then◌else◌,
}
use distributed_software_hom.Prelude.Int.{ℤ, pos, pos_part, ltb_ℤ}
use distributed_software_hom.Prelude.Word.{wrap64}
use distributed_software_hom.Result.{Result, ok, err}
use distributed_software_hom.Config.{Config, ConsumerGroup, dsn, replica_dsns}
use distributed_software_hom.Payment.{Probabilities}
use distributed_software_hom.Payment.Rate.{configured_rate}
use distributed_software_hom.Registry.{Naming}
use distributed_software_hom.Registry.Bootstrap.{Started, bootstrap_service, without_client}
use distributed_software_hom.Saga.Consumers.{
  Service, order_service, inventory_service, payment_service, Handling, by_inventory_event,
  by_payment_event, handler_of, put_first, consumers_of,
}
use distributed_software_hom.Server.{
  Entry, server_routes, order_service_routes, inventory_service_routes,
}
use distributed_software_hom.Snowflake.{Node, new_node}

-- The call after whose error log.Fatalf ends a program.
pub data Stage : Type 0 where
  load_config open_database migrate snowflake_node kafka_producer : Stage

pub data Start (A : Type 0) : Type 0 where
  exits : Stage → Start A
  goes_on : A → Start A

infixl 5 ◌>>=◌
unfoldable pub ◌>>=◌ : {A B : Type 0} → Start A → (A → Start B) → Start B
exits at >>= f = exits at
goes_on a >>= f = f a

-- `if err != nil { log.Fatalf(…) }`
unfoldable pub or_exit : {A : Type 0} → Stage → Result A → Start A
or_exit at (ok a) = goes_on a
or_exit at (err e) = exits at

-- The models of AutoMigrate.
pub data Model : Type 0 where
  user product inventory order payment outbox_event : Model

-- What the libraries answer. `new_postgres` takes the connection string and those of the replicas.
pub record Externals (F : Type 0) : Type 0 where
  pub load : String → Result (Config F)
  pub new_postgres : String → List String → Result (Unit {0})
  pub auto_migrate : List Model → Result (Unit {0})
  pub new_producer : List String → String → Result (Unit {0})
  pub connects : List String → ConsumerGroup → Bool

-- A program when it begins to serve: its id node, its relay by the interval in nanoseconds, its
-- consumers and its routes.
pub record Running : Type 0 where
  pub node : Option Node
  pub relay : Option ℤ
  pub consumers : List (ConsumerGroup × Handling)
  pub routes : List Entry

-- 500*time.Millisecond, or `time.Duration(cfg.Outbox.IntervalMs) * time.Millisecond`
abbrev pub default_interval : ℤ
default_interval = pos 500000000

unfoldable pub relay_interval : ℤ → ℤ
relay_interval ms =
    if ltb_ℤ (pos 0) ms then wrap64 (pos (pos_part ms * 1000000)) else default_interval

module _ {F : Type 0} (calls : Externals F) where
  unfoldable pub order_service_main : Start Running
  order_service_main = or_exit load_config (calls.load "config/config.yaml") >>= λ cfg.
      or_exit open_database (calls.new_postgres (dsn cfg.database) (replica_dsns cfg.database))
      >>= λ _.
          or_exit migrate (calls.auto_migrate (user ∷ product ∷ order ∷ outbox_event ∷ [])) >>= λ _.
          or_exit snowflake_node (new_node cfg.snowflake_node_id) >>= λ node.
          or_exit kafka_producer (calls.new_producer cfg.kafka.brokers cfg.kafka.produce_topic)
          >>= λ _. goes_on (record {
            node = some node;
            relay = some (relay_interval cfg.outbox_interval_ms);
            consumers =
                consumers_of (calls.connects cfg.kafka.brokers) order_service
                  cfg.kafka.consumer_groups;
            routes = order_service_routes;
          })

  -- Neither the inventory nor the payment service has replicas or an id node.
  unfoldable pub inventory_service_main : Start Running
  inventory_service_main = or_exit load_config (calls.load "config/config.yaml") >>= λ cfg.
      or_exit open_database (calls.new_postgres (dsn cfg.database) []) >>= λ _.
      or_exit migrate (calls.auto_migrate (inventory ∷ outbox_event ∷ [])) >>= λ _.
      or_exit kafka_producer (calls.new_producer cfg.kafka.brokers cfg.kafka.produce_topic) >>= λ _.
      goes_on (record {
        node = none;
        relay = some (relay_interval cfg.outbox_interval_ms);
        consumers =
            consumers_of (calls.connects cfg.kafka.brokers) inventory_service
              cfg.kafka.consumer_groups;
        routes = inventory_service_routes;
      })

  unfoldable pub payment_service_main : Start Running
  payment_service_main = or_exit load_config (calls.load "config/config.yaml") >>= λ cfg.
      or_exit open_database (calls.new_postgres (dsn cfg.database) []) >>= λ _.
      or_exit migrate (calls.auto_migrate (payment ∷ outbox_event ∷ [])) >>= λ _.
      or_exit kafka_producer (calls.new_producer cfg.kafka.brokers cfg.kafka.produce_topic) >>= λ _.
      goes_on (record {
        node = none;
        relay = some (relay_interval cfg.outbox_interval_ms);
        consumers =
            consumers_of (calls.connects cfg.kafka.brokers) payment_service
              cfg.kafka.consumer_groups;
        routes = [];
      })

  -- The two consumers of the single process.
  abbrev pub own_groups : List ConsumerGroup
  own_groups =
      record { group_id = "order-inv-group"; topic = "inventory-events" }
      ∷ record { group_id = "order-pay-group"; topic = "payment-events" }
      ∷ []

  -- Without a producer the single process has neither a relay nor consumers.
  abbrev pub with_producer : Config F → Node → Result (Unit {0}) → Running
  with_producer cfg node (err e) = record {
    node = some node;
    relay = none;
    consumers = [];
    routes = server_routes;
  }
  with_producer cfg node (ok _) = record {
    node = some node;
    relay = some default_interval;
    consumers = consumers_of (calls.connects cfg.kafka.brokers) order_service own_groups;
    routes = server_routes;
  }

  unfoldable pub server_main : Start Running
  server_main = or_exit load_config (calls.load "config/config.yaml") >>= λ cfg.
      or_exit open_database (calls.new_postgres (dsn cfg.database) (replica_dsns cfg.database))
      >>= λ _.
          or_exit migrate
            (calls.auto_migrate (user ∷ product ∷ inventory ∷ order ∷ outbox_event ∷ []))
          >>= λ _. or_exit snowflake_node (new_node cfg.snowflake_node_id) >>= λ node.
              goes_on
                (with_producer cfg node (calls.new_producer cfg.kafka.brokers cfg.kafka.topic))
