-- ===== src/Gateway/Proxy.antt =====
-- cmd/gateway/main.go: `handleProxy` and the handler of all paths that are no route of the gateway's
-- own. Sentinel's verdict on a resource, the test of `url.Parse` on an address, and the answer of an
-- instance (no code: the transport failed) are parameters.
pub mod Dispatch
pub mod Unregistered
use distributed_software_hom.Prelude.{
  ℕ, String, Bool, ◌≡◌, Option, none, some, List, [], ◌∷◌, leb, if◌then◌else◌,
}
use distributed_software_hom.Gateway.{Route, Address, pick, match_route}
use distributed_software_hom.Gateway.Pools.{Pool, pool_of}

-- The calls that Sentinel sees after `Entry`.
pub data Call : Type 0 where
  trace_error exit : Call

-- The code of the answer, the instance that was asked, and the calls on Sentinel's entry.
pub record Answer : Type 0 where
  pub code : ℕ
  pub target : Option Address
  pub calls : List Call

-- An answer of the gateway without an entry.
abbrev pub own : ℕ → Answer
own code = record { code = code; target = none; calls = [] }

-- `ModifyResponse` traces a code from 500 on.
abbrev pub traced_if : Bool → List Call
traced_if failing = if failing then trace_error ∷ exit ∷ [] else exit ∷ []

abbrev pub relayed : Address → Option ℕ → Answer
relayed a none = record { code = 502; target = some a; calls = trace_error ∷ exit ∷ [] }
relayed a (some code) = record { code = code; target = some a; calls = traced_if (leb 500 code) }

module _ (parses : Address → Bool) (upstream : Address → Option ℕ) where
  abbrev pub forwarded : Option Address → Answer
  forwarded none = record { code = 502; target = none; calls = trace_error ∷ exit ∷ [] }
  forwarded (some a) =
      if parses a
      then relayed a (upstream a)
      else record { code = 500; target = none; calls = trace_error ∷ exit ∷ [] }

  module _ (draw : ℕ → ℕ) where
    -- `pool.pick()` on no pool is a nil dereference, for which there is no answer here.
    abbrev pub picked : Option Pool → Option Answer
    picked none = none
    picked (some p) = some (forwarded (pick draw p.instances))

    module _ (admits : String → Bool) where
      unfoldable pub handle_proxy : Route → Option Pool → Option Answer
      handle_proxy r pool = if admits r.resource then picked pool else some (own 503)

      -- The handler of `NoRoute`.
      unfoldable pub no_route : List Route → List Pool → String → Option Answer
      no_route routes pools path = elim (match_route routes path) [
        | none ↦ some (own 404)
        | some r ↦ handle_proxy r (pool_of r.service_name pools)
      ]
