-- ===== src/Gateway/Proxy/Unregistered.antt =====
-- cmd/gateway/main.go without Nacos (`nacosClient == nil`): the pools stay as `main` made them.
use distributed_software_hom.Prelude.{
  ℕ, suc, String, Bool, ◌≡◌, ◌≢◌, ◌<◌, inl, inr, refl, subst, Option, none, some, List, [], ◌∷◌,
  All, Any, Bool-cases, arith,
}
use distributed_software_hom.Database.Rows.{find?-All}
use distributed_software_hom.Gateway.{RouteConfig, Address, Sorter, prefix_len, build_routes}
use distributed_software_hom.Gateway.Pools.{
  Pool, names, put_pool, pools_from, make_pools, pool_of, start,
}
use distributed_software_hom.Gateway.Proxy.{Answer, no_route}
use distributed_software_hom.Gateway.Proxy.Dispatch.{
  Outcome, unrouted, refused, empty_pool, unparsed, asked, no_route-Outcome,
}

abbrev IsEmpty : Pool → Type 0
IsEmpty p = p.instances ≡ []

put_pool-IsEmpty : (n : String) (ps : List Pool) → All IsEmpty ps → All IsEmpty (put_pool n ps)
put_pool-IsEmpty n [] h = (refl, tt)
put_pool-IsEmpty n (p ∷ ps) h = elim (Bool-cases (names n p)) [
  | inl hit ↦ rw hit (refl, h.1)
  | inr miss ↦ rw miss (h.0, put_pool-IsEmpty n ps h.1)
]

pools_from-IsEmpty :
    (rs : List RouteConfig) (ps : List Pool) → All IsEmpty ps → All IsEmpty (pools_from ps rs)
pools_from-IsEmpty [] ps h = h
pools_from-IsEmpty (r ∷ rs) ps h =
    pools_from-IsEmpty rs (put_pool r.service_name ps) (put_pool-IsEmpty r.service_name ps h)

made-IsEmpty :
    (rs : List RouteConfig) (n : String) (p : Pool) → pool_of n (make_pools rs) ≡ some p → IsEmpty p
unfolding make_pools pool_of
made-IsEmpty rs n p h =
    find?-All IsEmpty (names n) (pools_from [] rs) p (pools_from-IsEmpty rs [] tt) h

module _ (parses : Address → Bool) (upstream : Address → Option ℕ) (draw : ℕ → ℕ)
    (admits : String → Bool) where
  reaches_none :
      (sorter : Sorter prefix_len) (rs : List RouteConfig) (path : String) (a : Answer)
      → Outcome parses upstream draw admits rs (build_routes sorter rs) (make_pools rs) path a
      → (a.target ≡ none) × (a.code ≢ 200)
  reaches_none sorter rs path a (unrouted m c t) = (t, λ e. ground arith)
  reaches_none sorter rs path a (refused r f m c t) = (t, λ e. ground arith)
  reaches_none sorter rs path a (empty_pool r p f m e c t) = (t, λ e. ground arith)
  reaches_none sorter rs path a (unparsed r p i f m there bad c t) = (t, λ e. ground arith)
  reaches_none sorter rs path a (asked r p i f m there fit e) =
      absurd (subst (Any (λ j. j ≡ i)) (made-IsEmpty rs r.service_name p m) there)

  -- Without Nacos every request that none of the gateway's own routes (GET /health and
  -- GET /gateway/instances) takes is answered by the gateway itself, and none with 200: no request
  -- reaches an instance of a service.
  pub no_registry_no_target :
      (sorter : Sorter prefix_len) (rs : List RouteConfig) (path : String)
      → ((n : ℕ) → draw (suc n) < suc n)
      → (a : Answer) × (no_route parses upstream draw admits
            (build_routes sorter rs)
            (make_pools rs)
            path
          ≡ some a)
        × (a.target ≡ none)
        × (a.code ≢ 200)
  no_registry_no_target sorter rs path fair =
      let (a, answered, how) =
        no_route-Outcome parses upstream draw admits sorter rs (make_pools rs) path fair start in
      let (own_answer, failed) = reaches_none sorter rs path a how in
      (a, answered, own_answer, failed)
