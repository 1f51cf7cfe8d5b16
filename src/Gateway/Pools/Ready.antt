-- ===== src/Gateway/Pools/Ready.antt =====
-- cmd/gateway/main.go: whatever Nacos answers, each configured service has a pool, and the pools hold
-- healthy instances only.
use distributed_software_hom.Prelude.{
  String, Bool, true, ◌≡◌, inl, inr, List, [], ◌∷◌, All, Any, All-weaken, Bool-cases, eq_refl,
  eq_iff, str_eq, subst,
}
use distributed_software_hom.Result.{Result, ok, err}
use distributed_software_hom.Database.Rows.{map_where, All-map_where}
use distributed_software_hom.Gateway.{RouteConfig, Instance, usable, set}
use distributed_software_hom.Gateway.Pools.{
  Pool, names, put_pool, pools_from, make_pools, set_pool, prime_pool, instances_changed, polled,
  poll_round, Step, primes, changes, polls, Reach, start, later, IsFit, HasPool, IsReady,
}

polled-names :
    (n : String) (answer : Result (List Instance)) (p : Pool)
    → names n p ≡ true
    → names n (polled answer p) ≡ true
polled-names n (ok insts) p h = h
polled-names n (err e) p h = h

set-usable : (insts : List Instance) → All (λ i. usable i ≡ true) (set insts)
unfolding set
set-usable [] = tt
set-usable (i ∷ insts) = elim (Bool-cases (usable i)) [
  | inl fit ↦ rw fit (fit, set-usable insts)
  | inr unfit ↦ rw unfit (set-usable insts)
]

-- A change of instances keeps the names.
map_where-HasPool :
    (q : Pool → Bool) (insts : List Instance) (ps : List Pool) (r : RouteConfig)
    → HasPool ps r
    → HasPool (map_where q (λ p. record p { instances = insts }) ps) r
map_where-HasPool q insts [] r h = h
map_where-HasPool q insts (p ∷ ps) r (inl here) = elim (Bool-cases (q p)) [
  | inl hit ↦ rw hit (inl here)
  | inr miss ↦ rw miss (inl here)
]
map_where-HasPool q insts (p ∷ ps) r (inr there) = elim (Bool-cases (q p)) [
  | inl hit ↦ rw hit (inr (map_where-HasPool q insts ps r there))
  | inr miss ↦ rw miss (inr (map_where-HasPool q insts ps r there))
]

set_pool-IsReady :
    (rs : List RouteConfig) (n : String) (insts : List Instance) (ps : List Pool)
    → IsReady rs ps
    → IsReady rs (set_pool n insts ps)
unfolding set_pool
set_pool-IsReady rs n insts ps (named, fit) = (
  All-weaken _ _ (map_where-HasPool (names n) (set insts) ps) rs named,
  All-map_where IsFit (names n) (λ p. record p { instances = set insts })
      (λ p _ _. set-usable insts) ps fit,
)

poll_round-HasPool :
    (answers : String → Result (List Instance)) (ps : List Pool) (r : RouteConfig)
    → HasPool ps r
    → HasPool (poll_round answers ps) r
unfolding poll_round
poll_round-HasPool answers [] r h = h
poll_round-HasPool answers (p ∷ ps) r (inr there) = inr (poll_round-HasPool answers ps r there)
poll_round-HasPool answers (p ∷ ps) r (inl here) =
    inl (polled-names r.service_name (answers p.service_name) p here)

polled-IsFit : (answer : Result (List Instance)) (p : Pool) → IsFit p → IsFit (polled answer p)
polled-IsFit (ok insts) p h = set-usable insts
polled-IsFit (err e) p h = h

poll_round-IsFit :
    (answers : String → Result (List Instance)) (ps : List Pool)
    → All IsFit ps
    → All IsFit (poll_round answers ps)
unfolding poll_round
poll_round-IsFit answers [] h = tt
poll_round-IsFit answers (p ∷ ps) h =
    (polled-IsFit (answers p.service_name) p h.0, poll_round-IsFit answers ps h.1)

Step-IsReady :
    (rs : List RouteConfig) (ps ps' : List Pool) → Step ps ps' → IsReady rs ps → IsReady rs ps'
unfolding prime_pool instances_changed
Step-IsReady rs ps _ (primes n (ok insts)) h = set_pool-IsReady rs n insts ps h
Step-IsReady rs ps _ (primes n (err e)) h = h
Step-IsReady rs ps _ (changes n (ok insts)) h = set_pool-IsReady rs n insts ps h
Step-IsReady rs ps _ (changes n (err e)) h = h
Step-IsReady rs ps _ (polls answers) h =
    (All-weaken _ _ (poll_round-HasPool answers ps) rs h.0, poll_round-IsFit answers ps h.1)

put_pool-named : (n : String) (ps : List Pool) → Any (λ p. names n p ≡ true) (put_pool n ps)
put_pool-named n [] = inl (eq_refl n)
put_pool-named n (p ∷ ps) = elim (Bool-cases (names n p)) [
  | inl hit ↦ rw hit (inl (eq_refl n))
  | inr miss ↦ rw miss (inr (put_pool-named n ps))
]

renamed-HasPool :
    (n : String) (p : Pool) (ps : List Pool) (r : RouteConfig)
    → names n p ≡ true
    → HasPool (p ∷ ps) r
    → HasPool (record { service_name = n; instances = [] } ∷ ps) r
renamed-HasPool n p ps r hit (inl here) =
    inl (subst (λ m. str_eq m r.service_name ≡ true) ((eq_iff p.service_name n).0 hit) here)
renamed-HasPool n p ps r hit (inr there) = inr there

put_pool-keeps :
    (n : String) (ps : List Pool) (r : RouteConfig) → HasPool ps r → HasPool (put_pool n ps) r
put_pool-keeps n [] r h = absurd h
put_pool-keeps n (p ∷ ps) r h = elim (Bool-cases (names n p)) [
  | inl hit ↦ rw hit (renamed-HasPool n p ps r hit h)
  | inr miss ↦
      rw miss (elim h [ inl here ↦ inl here | inr there ↦ inr (put_pool-keeps n ps r there) ])
]

put_pool-IsFit : (n : String) (ps : List Pool) → All IsFit ps → All IsFit (put_pool n ps)
put_pool-IsFit n [] h = (tt, tt)
put_pool-IsFit n (p ∷ ps) h = elim (Bool-cases (names n p)) [
  | inl hit ↦ rw hit (tt, h.1)
  | inr miss ↦ rw miss (h.0, put_pool-IsFit n ps h.1)
]

pools_from-keeps :
    (rs : List RouteConfig) (ps : List Pool) (r : RouteConfig)
    → HasPool ps r
    → HasPool (pools_from ps rs) r
pools_from-keeps [] ps r h = h
pools_from-keeps (x ∷ rs) ps r h =
    pools_from-keeps rs (put_pool x.service_name ps) r (put_pool-keeps x.service_name ps r h)

pools_from-IsReady :
    (rs : List RouteConfig) (ps : List Pool) → All IsFit ps → IsReady rs (pools_from ps rs)
pools_from-IsReady [] ps h = (tt, h)
pools_from-IsReady (r ∷ rs) ps h =
    let (named, fit) =
      pools_from-IsReady rs (put_pool r.service_name ps) (put_pool-IsFit r.service_name ps h) in
    (
      (
        pools_from-keeps rs (put_pool r.service_name ps) r (put_pool-named r.service_name ps),
        named,
      ),
      fit,
    )

-- Whatever Nacos answers, in whatever order its callbacks and polls come: each configured service has
-- a pool, and every instance in a pool is healthy and enabled.
pub Reach-IsReady :
    (rs : List RouteConfig) (ps : List Pool) → Reach (make_pools rs) ps → IsReady rs ps
unfolding make_pools
Reach-IsReady rs _ start = pools_from-IsReady rs [] tt
Reach-IsReady rs _ (later {ps} {ps'} before step) =
    Step-IsReady rs ps ps' step (Reach-IsReady rs ps before)
