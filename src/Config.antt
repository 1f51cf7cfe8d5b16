-- ===== src/Config.antt =====
-- pkg/config/config.go: the configuration of the programs, and the connection strings that
-- pkg/database gets. `F` stands for `float64`; the parts for Nacos and the gateway are in
-- Registry.Bootstrap and Gateway.
use distributed_software_hom.Prelude.{
  ℕ, zero, suc, ◌/◌, ◌%◌, ◌+◌, String, List, [], ◌∷◌, map, none, some, ltb, str_eq, str_append,
  get_elem?, if◌then◌else◌,
}
use distributed_software_hom.Prelude.Int.{ℤ, pos, negsuc}
use distributed_software_hom.Registry.Bootstrap.{NacosConfig}
use distributed_software_hom.Gateway.{GatewayConfig}

pub record ReplicaConfig : Type 0 where
  pub host : String
  pub port : ℤ
  pub user : String
  pub password : String

pub record DatabaseConfig : Type 0 where
  pub driver : String
  pub host : String
  pub port : ℤ
  pub user : String
  pub password : String
  pub db_name : String
  pub ssl_mode : String
  pub timezone : String
  pub replicas : List ReplicaConfig

pub record RedisConfig : Type 0 where
  pub host : String
  pub port : ℤ
  pub password : String
  pub db : ℤ

pub record JwtConfig : Type 0 where
  pub secret : String
  pub expire_hours : ℤ

pub record ConsumerGroup : Type 0 where
  pub group_id : String
  pub topic : String

pub record KafkaConfig : Type 0 where
  pub brokers : List String
  pub topic : String
  pub produce_topic : String
  pub consumer_groups : List ConsumerGroup

-- ServerConfig, SnowflakeConfig, OutboxConfig and PaymentConfig have one field each.
pub record Config (F : Type 0) : Type 0 where
  pub server_port : ℕ
  pub database : DatabaseConfig
  pub jwt : JwtConfig
  pub redis : RedisConfig
  pub snowflake_node_id : ℤ
  pub kafka : KafkaConfig
  pub outbox_interval_ms : ℤ
  pub payment_success_rate : F
  pub nacos : NacosConfig
  pub gateway : GatewayConfig F

-- `%d`
abbrev digit_text : ℕ → String
digit_text d =
    elim (get_elem? {A = String} ("0" ∷ "1" ∷ "2" ∷ "3" ∷ "4" ∷ "5" ∷ "6" ∷ "7" ∷ "8" ∷ "9" ∷ [])
      d) [ none ↦ "" | some t ↦ t ]

-- The fuel is more than the number, and so more than its digits.
decimal_from : ℕ → ℕ → String
decimal_from zero n = ""
decimal_from (suc fuel) n =
    let front = decimal_from fuel (n / 10) in
    if ltb n 10 then digit_text n else str_append front (digit_text (n % 10))

unfoldable pub decimal : ℤ → String
unfolding decimal_from
decimal (pos n) = decimal_from (n + 1) n
decimal (negsuc n) = str_append "-" (decimal_from (n + 2) (n + 1))

-- "postgres://%s:%s@%s:%d/%s?sslmode=%s"
unfoldable pub postgres_url : String → String → String → ℤ → String → String → String
unfolding decimal
postgres_url user password host port db_name ssl_mode = str_append "postgres://" (
    str_append user (
      str_append ":" (
        str_append password (
          str_append "@" (
            str_append host (
              str_append ":" (
                str_append (decimal port)
                  (str_append "/" (str_append db_name (str_append "?sslmode=" ssl_mode))))))))))

unfoldable pub dsn : DatabaseConfig → String
unfolding postgres_url
dsn d = postgres_url d.user d.password d.host d.port d.db_name d.ssl_mode

-- `if x == "" { x = y }`
abbrev pub or_default : String → String → String
or_default x y = if str_eq x "" then y else x

unfoldable pub replica_dsns : DatabaseConfig → List String
unfolding postgres_url
replica_dsns d =
    map
      (λ r.
        postgres_url (or_default r.user d.user) (or_default r.password d.password) r.host r.port
          d.db_name d.ssl_mode)
      d.replicas
