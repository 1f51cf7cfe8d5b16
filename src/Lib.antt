-- ===== src/Lib.antt =====
-- The flash-sale backend (flash-sale/): a shop whose purchases run either in one process
-- (cmd/server) or as a saga of an order, an inventory and a payment service, which exchange events
-- through outbox tables and Kafka.
--
-- The parts, and the files that model them; paths are those within flash-sale/:
--   * Order.Seckill: internal/order/seckill_service.go. `seckill` is Seckill: it takes the lock of a
--     user and product in Redis (`claim`), checks the product, lowers the counter in Redis
--     (`deduct_redis`), and stores the order and the event ORDER_CREATED in one transaction
--     (`place`); each later failure gives back what was taken. Order.Seckill.Poll is
--     GetSeckillResult, Order.Seckill.Handler is internal/order/seckill_handler.go.
--   * Order.Events: internal/order/event_handler.go, the steps of the saga in the order service.
--   * Order.Service: internal/order/service.go, orders that share a database with the stock;
--     Order.Handler is internal/order/handler.go.
--   * Order, Order.Store: internal/order/{model,repository}.go and the tables of the service.
--   * Inventory: internal/inventory/{model,repository,service}.go. `deduct` is Deduct with its
--     optimistic lock; Inventory.SetTotal is SetInventory; Inventory.RedisStock the counter in
--     Redis, and Inventory.RedisStock.Race the commands of many buyers that interleave on it;
--     Inventory.Events is internal/inventory/event_handler.go (Inventory.Events.Redelivered an
--     event that arrives twice), Inventory.Handler handler.go.
--   * Payment: internal/payment/{model,service}.go. Payment.Rate is the success rate as
--     cmd/payment-service/main.go reads it from the configuration and from Nacos.
--   * Product, Product.Cached, Product.Handler:
--     internal/product/{model,repository,service,cached_service,handler}.go.
--   * User, User.Handler: internal/user/{model,repository,service,handler}.go. User.Auth is
--     internal/middleware/auth.go with the tokens of a login.
--   * Http, Http.Number, Http.Paging: pkg/response/response.go, what the handlers use of strconv, and
--     the paged queries.
--   * Server: the routes of cmd/{server,order-service,inventory-service}/main.go, and the middleware
--     before them; Server.Audience is about who reaches a handler.
--   * Saga: the three services of cmd/{order,inventory,payment}-service with their databases and
--     Redis. A step is a purchase, an event that reaches a consumer, the mark of a relay, a change of
--     Redis, or an administrator's deduction or new total in the inventory service; a published
--     event may be consumed at any later time, in any order and repeatedly.
--     The order service's POST /orders and PUT /orders/:id/cancel are left out: they change the
--     inventory table, which its database does not have, and fail.
--     Saga.Spec is what the saga promises apart from how the services store it: a transition
--     system on the published events, the orders and the payments. Saga.Steps relates the two.
--     Saga.Stock and Saga.Balance are about the stock in such runs, Saga.Completed about a
--     purchase that reaches its end and Saga.Compensated about one that is undone, by the
--     deliveries of Saga.Deliveries, whose first ones are in Saga.Paid. Saga.Consumers: which handlers
--     the services start for which topics; Saga.Consumers.Claims is about the claims of
--     Kafka as runs, Saga.Consumers.Lost about an event whose transaction fails.
--   * Config: pkg/config/config.go. Startup: cmd/{server,order-service,inventory-service,
--     payment-service}/main.go up to the call that serves; Startup.Ready is about a program that
--     has started.
--   * Kafka: pkg/kafka/consumer.go. sarama gives the claims and keeps the marks. The claims of one
--     process follow each other; those that run side by side are the steps of Saga in some order.
--   * Gateway: cmd/gateway/main.go with the configuration of pkg/config. Gateway.Match is about the
--     routes, Gateway.Pools the instances by service, Gateway.Proxy a request that
--     comes to the handler of NoRoute, Gateway.Rules what Sentinel is told. The gateway's own
--     GET /health and GET /gateway/instances are left out.
--   * Registry: pkg/registry/{nacos,bootstrap}.go.
--   * Event, Outbox, Outbox.Relay: pkg/event/types.go and pkg/outbox/{model,relay}.go.
--     Outbox.Relay.Drained is about the loop of the relay, over the ticks of its ticker.
--   * Snowflake: pkg/snowflake/snowflake.go.
--   * Database, Redis: interfaces for gorm with its database and for go-redis, which the program
--     only calls, with the documented effect of the calls as laws. Database.Memory and
--     Redis.Memory are concrete values of them, on which Tests runs the model.
--   * Prelude, Result: numbers, lists, and Go's pairs of a value and an error.
--
-- An operation takes the state of the database, of Redis or of both, and returns its result with
-- the new state. `float64` is a type parameter with the operations that the code uses. Go's `int`
-- is an integer; what the program itself computes with it (SetInventory, the ids, the offset of a
-- page) wraps around at 64 bits, what the database and Redis compute does not. What other
-- transactions do between a read and a write is an argument of `deduct` and `set_inventory`.
-- Random draws, times and generated identifiers are arguments.
-- `deduct_from` recurs on the rounds left, three as in the code; `generate` recurs on the readings
-- of the clock, and is shown to end when the clock moves on. The loops of the relay and of a
-- consumer recur on the ticks and on the claims until their context is done.
--
-- `sort.Slice`, the verdicts of Sentinel, the library of tokens and the naming client of Nacos are
-- interfaces or arguments with their documented behaviour as laws. A number in a path or a query is
-- read by recursion on its text.
--
-- Not modelled: the Kafka producer and the choice of claims, the passing on of calls to the SDK of Nacos, its configuration
-- client, the reading of the configuration, the set-up of connections and what else the entry
-- points call, since these are libraries; log lines, texts of messages, lifetimes of keys and row
-- timestamps.
pub mod Prelude
pub mod Result
pub mod Database
pub mod Redis
pub mod Event
pub mod Outbox
pub mod Inventory
pub mod Kafka
pub mod Product
pub mod Order
pub mod Payment
pub mod User
pub mod Http
pub mod Gateway
pub mod Snowflake
pub mod Server
pub mod Registry
pub mod Config
pub mod Saga
pub mod Startup
mod Tests
