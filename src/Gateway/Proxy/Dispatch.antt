-- ===== src/Gateway/Proxy/Dispatch.antt =====
-- cmd/gateway/main.go: what Sentinel sees of a request, and which instance a request reaches.
use distributed_software_hom.Prelude.{
  ℕ, suc, String, Bool, true, false, ◌≡◌, ◌<◌, zero, ◌⊎◌, inl, inr, refl, sym, subst, Option, none,
  some, List, [], ◌∷◌, All, Any, All-at, All-in, length, get_elem?, leb, len, ◌≤◌, Bool-cases,
  starts_with, arith,
}
use distributed_software_hom.Gateway.{
  RouteConfig, Route, Instance, Address, Sorter, prefix_len, route_of, address, usable, pick,
  build_routes, match_route,
}
use distributed_software_hom.Gateway.Match.{IsConfigured, match_route-longest}
use distributed_software_hom.Gateway.Pools.{
  Pool, names, make_pools, pool_of, Reach, IsFit, HasPool, IsReady,
}
use distributed_software_hom.Gateway.Pools.Ready.{Reach-IsReady}
use distributed_software_hom.Gateway.Proxy.{
  Answer, own, traced_if, relayed, forwarded, handle_proxy, no_route,
}

relayed-calls :
    (a : Address) (r : Option ℕ) → (relayed a r).calls ≡ traced_if (leb 500 (relayed a r).code)
relayed-calls a none = refl
relayed-calls a (some code) = refl

get_elem?-in :
    {A : Type 0} (xs : List A) (k : ℕ)
    → k < length xs
    → (x : A) × (get_elem? xs k ≡ some x) × Any (λ y. y ≡ x) xs
get_elem?-in [] k lt = absurd (omega (arith, lt))
get_elem?-in (x ∷ xs) zero lt = (x, refl, inl refl)
get_elem?-in (x ∷ xs) (suc k) lt =
    let (y, found, there) = get_elem?-in xs k (omega (arith, lt)) in (y, found, inr there)

named-pool :
    (n : String) (ps : List Pool)
    → Any (λ p. names n p ≡ true) ps
    → All IsFit ps
    → (p : Pool) × (pool_of n ps ≡ some p) × IsFit p
unfolding pool_of
named-pool n (p ∷ ps) there fit = elim (Bool-cases (names n p)) [
  | inl hit ↦ (p, rw hit refl, fit.0)
  | inr miss ↦ elim there [
    | inl here ↦ absurd (ground (arith, here, miss))
    | inr later_on ↦
        let (q, found, good) = named-pool n ps later_on fit.1 in (q, rw miss found, good)
  ]
]
named-pool n [] there fit = absurd there

-- A configured route has its pool.
configured-pool :
    (rs : List RouteConfig) (ps : List Pool) (r : Route)
    → IsReady rs ps
    → IsConfigured rs r
    → (p : Pool) × (pool_of r.service_name ps ≡ some p) × IsFit p
configured-pool rs ps r (named, fit) configured =
    let (c, has, same) = All-at (HasPool ps) (λ c. route_of c ≡ r) rs named configured in
    named-pool r.service_name ps
      (subst (λ (x : Route). Any (λ p. names x.service_name p ≡ true) ps) same has) fit

module _ (parses : Address → Bool) (upstream : Address → Option ℕ) where
  forwarded-calls :
      (a : Option Address)
      → (forwarded parses upstream a).calls ≡ traced_if (leb 500 (forwarded parses upstream a).code)
  forwarded-calls none = refl
  forwarded-calls (some a) = elim (Bool-cases (parses a)) [
    | inl good ↦ rw good (relayed-calls a (upstream a))
    | inr bad ↦ rw bad refl
  ]

  module _ (draw : ℕ → ℕ) (admits : String → Bool) where
    -- An admitted request leaves its entry once, at last, and an error is counted for it exactly if
    -- its answer has a code from 500 on. A refused request is answered with 503, reaches no instance
    -- and counts for nothing.
    pub handle_proxy_accounts :
        (r : Route) (pool : Option Pool) (a : Answer)
        → handle_proxy parses upstream draw admits r pool ≡ some a
        → ((admits r.resource ≡ true) × (a.calls ≡ traced_if (leb 500 a.code)))
          ⊎ ((admits r.resource ≡ false) × (a.code ≡ 503) × (a.target ≡ none) × (a.calls ≡ []))
    unfolding handle_proxy
    handle_proxy_accounts r none a h = elim (Bool-cases (admits r.resource)) [
      | inl admitted ↦ ground (arith, h, admitted)
      | inr refused ↦ ground (arith, h, refused)
    ]
    handle_proxy_accounts r (some p) a h = elim (Bool-cases (admits r.resource)) [
      | inl admitted ↦
          let same : forwarded parses upstream (pick draw p.instances) ≡ a =
            ground (arith, h, admitted) in
          inl (
            admitted,
            subst (λ (x : Answer). x.calls ≡ traced_if (leb 500 x.code)) same
                (forwarded-calls (pick draw p.instances)),
          )
      | inr refused ↦ ground (arith, h, refused)
    ]

    -- The route that a path gets: a configured one, whose prefix is one of the path and as long as
    -- every other configured prefix of the path.
    abbrev pub IsRouted : List RouteConfig → List Route → String → Route → Type 0
    IsRouted rs routes path r =
        (match_route routes path ≡ some r)
        × IsConfigured rs r
        × (starts_with path r.prefix ≡ true)
        × All (λ c. starts_with path c.path_prefix ≡ true → len c.path_prefix ≤ len r.prefix) rs

    -- How a request for `path` may end, with the routes `routes` of the configuration `rs` and the pools `ps`.
    pub data Outcome (rs : List RouteConfig) (routes : List Route) (ps : List Pool) (path : String)
        (a : Answer) : Type 0 where
      unrouted :
          All (λ c. starts_with path c.path_prefix ≡ false) rs
          → a.code ≡ 404
          → a.target ≡ none
          → Outcome rs routes ps path a
      refused :
          (r : Route)
          → IsRouted rs routes path r
          → admits r.resource ≡ false
          → a.code ≡ 503
          → a.target ≡ none
          → Outcome rs routes ps path a
      empty_pool :
          (r : Route) (p : Pool)
          → IsRouted rs routes path r
          → pool_of r.service_name ps ≡ some p
          → p.instances ≡ []
          → a.code ≡ 502
          → a.target ≡ none
          → Outcome rs routes ps path a
      unparsed :
          (r : Route) (p : Pool) (i : Instance)
          → IsRouted rs routes path r
          → pool_of r.service_name ps ≡ some p
          → Any (λ j. j ≡ i) p.instances
          → parses (address i) ≡ false
          → a.code ≡ 500
          → a.target ≡ none
          → Outcome rs routes ps path a
      asked :
          (r : Route) (p : Pool) (i : Instance)
          → IsRouted rs routes path r
          → pool_of r.service_name ps ≡ some p
          → Any (λ j. j ≡ i) p.instances
          → usable i ≡ true
          → a ≡ relayed (address i) (upstream (address i))
          → Outcome rs routes ps path a

    forwarded-Outcome :
        (rs : List RouteConfig) (routes : List Route) (ps : List Pool) (path : String) (r : Route)
        (p : Pool)
        → ((n : ℕ) → draw (suc n) < suc n)
        → IsRouted rs routes path r
        → pool_of r.service_name ps ≡ some p
        → (is : List Instance) → p.instances ≡ is
        → IsFit p
        → Outcome rs routes ps path (forwarded parses upstream (pick draw is))
    unfolding pick
    forwarded-Outcome rs routes ps path r p fair found pool [] eq fit =
        empty_pool r p found pool eq refl refl
    forwarded-Outcome rs routes ps path r p fair found pool (j ∷ js) eq fit =
        let (i, drawn, there) = get_elem?-in (j ∷ js) (draw (suc (length js))) (fair (length js)) in
        let chosen : pick draw (j ∷ js) ≡ some (address i) = ground (arith, drawn) in
        let here = subst (λ is. Any (λ x. x ≡ i) is) (sym eq) there in
        elim (Bool-cases (parses (address i))) [
          | inl good ↦
              rw (chosen, good)
                (asked r p i found pool here (All-in (λ x. usable x ≡ true) i p.instances fit here)
                  refl)
          | inr bad ↦ rw (chosen, bad) (unparsed r p i found pool here bad refl refl)
        ]

    -- Whatever Nacos has answered so far, a request that none of the gateway's own routes (GET /health
    -- and GET /gateway/instances) takes, and which so comes to the handler of NoRoute, gets an answer (a
    -- route always has its pool): 404 if no configured prefix is one of the path; or else, for a
    -- configured route with the longest such prefix, 503 if Sentinel refuses its resource, 502 if its
    -- service has no instance, 500 if the address of the drawn instance is no URL, and what a healthy
    -- and enabled instance of its service answers otherwise.
    pub no_route-Outcome :
        (sorter : Sorter prefix_len) (rs : List RouteConfig) (ps : List Pool) (path : String)
        → ((n : ℕ) → draw (suc n) < suc n)
        → Reach (make_pools rs) ps
        → (a : Answer) × (no_route parses upstream draw admits (build_routes sorter rs) ps path
            ≡ some a)
          × Outcome rs (build_routes sorter rs) ps path a
    unfolding no_route handle_proxy
    no_route-Outcome sorter rs ps path fair run = elim (match_route-longest sorter rs path) [
      | inl (missing, none_matches) ↦
          (own 404, rw (missing, no_route) refl, unrouted none_matches refl refl)
      | inr (r, found, configured, matches, longest) ↦
          let (p, pool, fit) = configured-pool rs ps r (Reach-IsReady rs ps run) configured in
          elim (Bool-cases (admits r.resource)) [
            | inr no_entry ↦ (
              own 503,
              rw (found, no_route, no_entry, handle_proxy) refl,
              refused r (found, configured, matches, longest) no_entry refl refl,
            )
            | inl entry ↦ (
              forwarded parses upstream (pick draw p.instances),
              rw (found, no_route, entry, pool, handle_proxy) refl,
              forwarded-Outcome rs (build_routes sorter rs) ps path r p fair
                  (found, configured, matches, longest) pool p.instances refl fit,
            )
          ]
    ]
