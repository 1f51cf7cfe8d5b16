-- ===== src/Tests/GatewayTests.antt =====
-- cmd/gateway: runs of the gateway on a configuration of two routes.
use distributed_software_hom.Prelude.{
  IsDescending, ℕ, String, Bool, true, false, ◌≡◌, ◌≢◌, ◌≤◌, ◌⊎◌, ◌↔◌, inl, inr, refl, Option, none,
  some, List, [], ◌∷◌, All, All-weaken, Bool-cases, leb, len, starts_with, str_eq, if◌then◌else◌,
  arith,
}
use distributed_software_hom.Prelude.Int.{pos}
use distributed_software_hom.Result.{ok}
use distributed_software_hom.Gateway.{
  RouteConfig, GatewayConfig, Route, Instance, Address, Sorter, prefix_len, build_routes,
  match_route, set, pick,
}
use distributed_software_hom.Gateway.Match.{IsConfigured, match_route-longest}
use distributed_software_hom.Gateway.Pools.{
  Pool, make_pools, pool_of, set_pool, prime_pool, start, later, primes,
}
use distributed_software_hom.Gateway.Proxy.{Answer, Call, traced_if, handle_proxy, no_route}
use distributed_software_hom.Gateway.Proxy.Dispatch.{
  Outcome, handle_proxy_accounts, no_route-Outcome,
}
use distributed_software_hom.Gateway.Proxy.Unregistered.{no_registry_no_target}
use distributed_software_hom.Gateway.Rules.{
  FloatLiterals, HasRule, IsNamed, flow_rules, flow_rules_exact,
}

-- Insertion sort, as the sort of the tests.
module _ {A : Type 0} (key : A → ℕ) where
  abbrev insert : A → List A → List A
  insert x [] = x ∷ []
  insert x (y ∷ ys) = let rest = insert x ys in if leb (key y) (key x) then x ∷ y ∷ ys else y ∷ rest

  abbrev insertion_sort : List A → List A
  insertion_sort [] = []
  insertion_sort (x ∷ xs) = insert x (insertion_sort xs)

  insert-All : (P : A → Type 0) (x : A) (ys : List A) → P x → All P ys → All P (insert x ys)
  insert-All P x [] p h = (p, tt)
  insert-All P x (y ∷ ys) p h = elim (Bool-cases (leb (key y) (key x))) [
    | inl before ↦ rw before (p, h)
    | inr after ↦ rw after (h.0, insert-All P x ys p h.1)
  ]

  All-insert : (P : A → Type 0) (x : A) (ys : List A) → All P (insert x ys) → P x × All P ys
  All-insert P x [] h = h
  All-insert P x (y ∷ ys) h = elim (Bool-cases (leb (key y) (key x))) [
    | inl before ↦ rw before at h
    | inr after ↦
        let (first, rest) = rw after at h in
        let (p, others) = All-insert P x ys rest in (p, (first, others))
  ]

  insert-IsDescending : (x : A) (ys : List A) → IsDescending key ys → IsDescending key (insert x ys)
  insert-IsDescending x [] h = (tt, tt)
  insert-IsDescending x (y ∷ ys) h = elim (Bool-cases (leb (key y) (key x))) [
    | inl before ↦
        let le : key y ≤ key x = ground (arith, before) in
        rw before ((le, All-weaken _ _ (λ z lower. omega (arith, lower, le)) ys h.0), h)
    | inr after ↦ rw after (
      insert-All (λ z. key z ≤ key y) x ys (ground (arith, after)) h.0,
      insert-IsDescending x ys h.1,
    )
  ]

  sort-IsDescending : (xs : List A) → IsDescending key (insertion_sort xs)
  sort-IsDescending [] = tt
  sort-IsDescending (x ∷ xs) = insert-IsDescending x (insertion_sort xs) (sort-IsDescending xs)

  sort-All : (P : A → Type 0) (xs : List A) → All P xs ↔ All P (insertion_sort xs)
  sort-All P [] = (λ h. h, λ h. h)
  sort-All P (x ∷ xs) =
      let (to, from) = sort-All P xs in
      (
        λ h. insert-All P x (insertion_sort xs) h.0 (to h.1),
        λ h. let (p, rest) = All-insert P x (insertion_sort xs) h in (p, from rest),
      )

abbrev sorter : Sorter prefix_len
sorter = record {
  sort = insertion_sort prefix_len;
  sorted = sort-IsDescending prefix_len;
  same_elements = sort-All prefix_len;
}

-- The shorter prefix comes first.
abbrev configured : List RouteConfig
configured =
    record { path_prefix = "/api"; service_name = "order-service"; resource = "" }
    ∷ record {
      path_prefix = "/api/seckill";
      service_name = "seckill-service";
      resource = "route:seckill";
    }
    ∷ []

abbrev cfg : GatewayConfig ℕ
cfg = record {
  routes = configured;
  sentinel = record {
    seckill_qps = 50;
    seckill_breaker_error_rate = 0;
    breaker_min_requests = 0;
    breaker_stat_interval_ms = 0;
    breaker_retry_timeout_ms = 0;
    default_qps = 0;
  };
  refresh_sec_ms = pos 0;
}

abbrev lits : FloatLiterals ℕ
lits = record { is_zero = λ n. leb n 0; hundred = 100; thousand = 1000; half = 1 }

abbrev routes : List Route
routes = build_routes sorter configured

abbrev seckill_route : Route
seckill_route = record {
  prefix = "/api/seckill";
  service_name = "seckill-service";
  resource = "route:seckill";
}

-- The longer prefix wins, although it stands second in the configuration.
seckill_first : match_route routes "/api/seckill/result" ≡ some seckill_route
unfolding match_route build_routes
seckill_first = refl

abbrev healthy_one : Instance
healthy_one = record { ip = "10.0.0.7"; port = 8081; healthy = true; enable = true }

abbrev sick_one : Instance
sick_one = record { ip = "10.0.0.8"; port = 8081; healthy = false; enable = true }

abbrev primed : List Pool
primed = prime_pool "seckill-service" (ok (sick_one ∷ healthy_one ∷ [])) (make_pools configured)

abbrev first_draw : ℕ → ℕ
first_draw n = 0

abbrev parses : Address → Bool
parses a = true

-- Every instance fails.
abbrev upstream : Address → Option ℕ
upstream a = some 503

abbrev admits : String → Bool
admits name = true

abbrev failed_answer : Answer
failed_answer = record {
  code = 503;
  target = some (record { host = "10.0.0.7"; port = 8081 });
  calls = Call.trace_error ∷ Call.exit ∷ [];
}

match_route-longest_example :
    ((match_route routes "/api/seckill/result" ≡ none)
      × All (λ c. starts_with "/api/seckill/result" c.path_prefix ≡ false) configured)
    ⊎ ((r : Route) × (match_route routes "/api/seckill/result" ≡ some r)
        × IsConfigured configured r
        × (starts_with "/api/seckill/result" r.prefix ≡ true)
        × All
            (λ c.
              starts_with "/api/seckill/result" c.path_prefix ≡ true
              → len c.path_prefix ≤ len r.prefix)
            configured)
match_route-longest_example = match_route-longest sorter configured "/api/seckill/result"

handle_proxy_accounts_example :
    ((admits "route:seckill" ≡ true)
      × (failed_answer.calls ≡ traced_if (leb 500 failed_answer.code)))
    ⊎ ((admits "route:seckill" ≡ false)
        × (failed_answer.code ≡ 503)
        × (failed_answer.target ≡ none)
        × (failed_answer.calls ≡ []))
unfolding handle_proxy pool_of prime_pool set_pool make_pools set pick
handle_proxy_accounts_example =
    handle_proxy_accounts parses upstream first_draw admits seckill_route
      (pool_of "seckill-service" primed) failed_answer refl

no_route-Outcome_example :
    (a : Answer) × (no_route parses upstream first_draw admits routes primed "/api/seckill/result"
      ≡ some a)
    × Outcome parses upstream first_draw admits configured routes primed "/api/seckill/result" a
no_route-Outcome_example =
    no_route-Outcome parses upstream first_draw admits sorter configured primed
      "/api/seckill/result" (λ n. omega arith)
      (later start (primes "seckill-service" (ok (sick_one ∷ healthy_one ∷ []))))

no_registry_no_target_example :
    (a : Answer) × (no_route parses upstream first_draw admits routes
        (make_pools configured)
        "/api/seckill/result"
      ≡ some a)
    × (a.target ≡ none)
    × (a.code ≢ 200)
no_registry_no_target_example =
    no_registry_no_target parses upstream first_draw admits sorter configured "/api/seckill/result"
      (λ n. omega arith)

abbrev unnamed : String
unnamed = "route:order-service"

flow_rules_exact_example : HasRule lits unnamed (flow_rules lits cfg) ↔ (
    (unnamed ≡ "route:seckill")
    ⊎ (unnamed ≡ "route:default")
    ⊎ (IsNamed lits unnamed configured × (str_eq unnamed "" ≡ false)))
flow_rules_exact_example = flow_rules_exact lits cfg unnamed
