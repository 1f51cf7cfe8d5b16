-- ===== src/Gateway/Pools.antt =====
-- cmd/gateway/main.go: the pools of healthy instances, by service name, and how Nacos changes them. An
-- answer of Nacos is an argument. The locks make each change one step.
pub mod Ready
use distributed_software_hom.Prelude.{
  ℕ, String, Bool, true, false, ◌≡◌, ◌⊎◌, inl, inr, refl, sym, subst, Option, none, some, List, [],
  ◌∷◌, All, Any, All-weaken, All-in, find?, filter, Bool-cases, Option-cases, str_eq, eq_iff,
  eq_refl, if◌then◌else◌, arith,
}
use distributed_software_hom.Result.{Result, ok, err}
use distributed_software_hom.Database.Rows.{map_where, All-map_where}
use distributed_software_hom.Gateway.{RouteConfig, Route, Instance, usable, set, route_of}
use distributed_software_hom.Gateway.Match.{IsConfigured}

pub record Pool : Type 0 where
  pub service_name : String
  pub instances : List Instance

abbrev pub names : String → Pool → Bool
names n p = str_eq p.service_name n

-- `pools[n] = &instancePool{}`
abbrev pub put_pool : String → List Pool → List Pool
put_pool n [] = record { service_name = n; instances = [] } ∷ []
put_pool n (p ∷ ps) =
    let rest = put_pool n ps in
    if names n p then record { service_name = n; instances = [] } ∷ ps else p ∷ rest

abbrev pub pools_from : List Pool → List RouteConfig → List Pool
pools_from ps [] = ps
pools_from ps (r ∷ rs) = pools_from (put_pool r.service_name ps) rs

-- The pools of `main`.
unfoldable pub make_pools : List RouteConfig → List Pool
make_pools rs = pools_from [] rs

-- `pools[n]`
unfoldable pub pool_of : String → List Pool → Option Pool
pool_of n ps = find? (names n) ps

unfoldable pub set_pool : String → List Instance → List Pool → List Pool
set_pool n insts ps = map_where (names n) (λ p. record p { instances = set insts }) ps

-- `primePool`, with the answer of `SelectInstances`.
unfoldable pub prime_pool : String → Result (List Instance) → List Pool → List Pool
prime_pool n (err e) ps = ps
prime_pool n (ok insts) ps = set_pool n insts ps

-- The callback of `Subscribe`.
unfoldable pub instances_changed : String → Result (List Instance) → List Pool → List Pool
instances_changed n (err e) ps = ps
instances_changed n (ok insts) ps = set_pool n insts ps

abbrev pub polled : Result (List Instance) → Pool → Pool
polled (err e) p = p
polled (ok insts) p = record p { instances = set insts }

-- A tick of `pollLoop`.
unfoldable pub poll_round : (String → Result (List Instance)) → List Pool → List Pool
poll_round answers [] = []
poll_round answers (p ∷ ps) = polled (answers p.service_name) p ∷ poll_round answers ps

pub data Step (ps : List Pool) : List Pool → Type 0 where
  primes : (n : String) (answer : Result (List Instance)) → Step ps (prime_pool n answer ps)
  changes : (n : String) (answer : Result (List Instance)) → Step ps (instances_changed n answer ps)
  polls : (answers : String → Result (List Instance)) → Step ps (poll_round answers ps)

pub data Reach (start_pools : List Pool) : List Pool → Type 0 where
  start : Reach start_pools start_pools
  later : {ps ps' : List Pool} → Reach start_pools ps → Step ps ps' → Reach start_pools ps'

-- Every instance of the pool is healthy and enabled.
abbrev pub IsFit : Pool → Type 0
IsFit p = All (λ i. usable i ≡ true) p.instances

abbrev pub HasPool : List Pool → RouteConfig → Type 0
HasPool ps r = Any (λ p. names r.service_name p ≡ true) ps

-- Each configured service has a pool, and the pools are fit.
abbrev pub IsReady : List RouteConfig → List Pool → Type 0
IsReady rs ps = All (HasPool ps) rs × All IsFit ps
