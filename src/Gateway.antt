-- ===== src/Gateway.antt =====
-- cmd/gateway/main.go: the gateway's routes, its pools of instances, and the rules that it loads into
-- Sentinel. The configuration is that of pkg/config/config.go. A map from service names is a list of
-- pairs with different names.
pub mod Match
pub mod Proxy
pub mod Pools
pub mod Rules
use distributed_software_hom.Prelude.{
  IsDescending, ℕ, String, Bool, ◌&&◌, ◌*◌, Option, none, some, ◌≡◌, ◌≤◌, ◌<◌, ◌↔◌, List, [], ◌∷◌,
  map, All, length, find?, filter, get_elem?, str_eq, starts_with, str_append, len, if◌then◌else◌,
}
use distributed_software_hom.Prelude.Int.{ℤ, pos, ◌≤ℤ◌, leb_ℤ, pos_part}
use distributed_software_hom.Result.{Result, ok, err}

pub record RouteConfig : Type 0 where
  pub path_prefix : String
  pub service_name : String
  pub resource : String

pub record SentinelConfig (F : Type 0) : Type 0 where
  pub seckill_qps : F
  pub seckill_breaker_error_rate : F
  pub breaker_min_requests : ℕ
  pub breaker_stat_interval_ms : ℕ
  pub breaker_retry_timeout_ms : ℕ
  pub default_qps : F

pub record GatewayConfig (F : Type 0) : Type 0 where
  pub routes : List RouteConfig
  pub sentinel : SentinelConfig F
  pub refresh_sec_ms : ℤ

pub record Route : Type 0 where
  pub prefix : String
  pub service_name : String
  pub resource : String

-- What the gateway reads of Nacos's `model.Instance`.
pub record Instance : Type 0 where
  pub ip : String
  pub port : ℕ
  pub healthy : Bool
  pub enable : Bool

-- `http://<host>:<port>`
pub record Address : Type 0 where
  pub host : String
  pub port : ℕ

abbrev pub address : Instance → Address
address i = record { host = i.ip; port = i.port }

abbrev pub usable : Instance → Bool
usable i = i.healthy && i.enable

-- `set`: what a pool holds afterwards.
unfoldable pub set : List Instance → List Instance
set insts = filter usable insts

-- `pick`: `draw` stands for `rand.Intn`.
unfoldable pub pick : (ℕ → ℕ) → List Instance → Option Address
pick draw [] = none
pick draw (i ∷ is) = elim (get_elem? (i ∷ is) (draw (length (i ∷ is)))) [
  | none ↦ none
  | some j ↦ some (address j)
]

-- `sort.Slice`: the same elements, in the order of the test. Equal ones may come in any order.
pub record Sorter {A : Type 0} (key : A → ℕ) : Type 1 where
  pub sort : List A → List A
  pub sorted : (xs : List A) → IsDescending key (sort xs)
  pub same_elements : (P : A → Type 0) (xs : List A) → All P xs ↔ All P (sort xs)

abbrev pub route_of : RouteConfig → Route
route_of r = record {
  prefix = r.path_prefix;
  service_name = r.service_name;
  resource = if str_eq r.resource "" then str_append "route:" r.service_name else r.resource;
}

abbrev pub prefix_len : Route → ℕ
prefix_len r = len r.prefix

unfoldable pub build_routes : Sorter prefix_len → List RouteConfig → List Route
build_routes sorter rs = sorter.sort (map route_of rs)

unfoldable pub match_route : List Route → String → Option Route
match_route routes path = find? (λ r. starts_with path r.prefix) routes

-- In milliseconds.
unfoldable pub refresh_interval : {F : Type 0} → GatewayConfig F → ℕ
refresh_interval cfg =
    if leb_ℤ cfg.refresh_sec_ms (pos 0) then 5000 else pos_part cfg.refresh_sec_ms
