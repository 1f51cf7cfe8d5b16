-- ===== src/Gateway/Rules.antt =====
-- cmd/gateway/main.go: the flow and circuit breaker rules that `loadSentinelRules` hands to Sentinel.
-- A field of the configuration that is 0 gets its default; `F` stands for `float64`.
use distributed_software_hom.Prelude.{
  ℕ, String, Bool, false, ◌||◌, ◌==◌, ◌≡◌, ◌⊎◌, inl, inr, sym, subst, List, [], ◌∷◌, Any,
  Bool-cases, str_eq, eq_iff, if◌then◌else◌, ◌↔◌, arith,
}
use distributed_software_hom.Gateway.{RouteConfig, SentinelConfig, GatewayConfig}

-- The test `== 0` and the literals 100, 1000 and 0.5 of `float64`.
pub record FloatLiterals (F : Type 0) : Type 0 where
  pub is_zero : F → Bool
  pub hundred : F
  pub thousand : F
  pub half : F

-- The fields of `flow.Rule` that differ.
pub record FlowRule (F : Type 0) : Type 0 where
  pub resource : String
  pub threshold : F

pub record BreakerRule (F : Type 0) : Type 0 where
  pub resource : String
  pub retry_timeout_ms : ℕ
  pub min_request_amount : ℕ
  pub stat_interval_ms : ℕ
  pub threshold : F

abbrev unless_zero : ℕ → ℕ → ℕ
unless_zero n default_value = if n == 0 then default_value else n

module _ {F : Type 0} (lits : FloatLiterals F) where
  abbrev unless_zero_float : F → F → F
  unless_zero_float x default_value = if lits.is_zero x then default_value else x

  unfoldable pub with_defaults : SentinelConfig F → SentinelConfig F
  with_defaults s = record {
    seckill_qps = unless_zero_float s.seckill_qps lits.hundred;
    seckill_breaker_error_rate = unless_zero_float s.seckill_breaker_error_rate lits.half;
    breaker_min_requests = unless_zero s.breaker_min_requests 10;
    breaker_stat_interval_ms = unless_zero s.breaker_stat_interval_ms 10000;
    breaker_retry_timeout_ms = unless_zero s.breaker_retry_timeout_ms 5000;
    default_qps = unless_zero_float s.default_qps lits.thousand;
  }

  -- The loop over the routes.
  abbrev pub route_rules : F → List RouteConfig → List (FlowRule F)
  route_rules qps [] = []
  route_rules qps (r ∷ rs) =
      let rest = route_rules qps rs in
      if str_eq r.resource "" || str_eq r.resource "route:seckill"
      then rest
      else record { resource = r.resource; threshold = qps } ∷ rest

  unfoldable pub flow_rules : GatewayConfig F → List (FlowRule F)
  flow_rules cfg =
      let s = with_defaults cfg.sentinel in
      record { resource = "route:seckill"; threshold = s.seckill_qps }
      ∷ record { resource = "route:default"; threshold = s.default_qps }
      ∷ route_rules s.default_qps cfg.routes

  unfoldable pub breaker_rules : GatewayConfig F → List (BreakerRule F)
  breaker_rules cfg =
      let s = with_defaults cfg.sentinel in
      record {
        resource = "route:seckill";
        retry_timeout_ms = s.breaker_retry_timeout_ms;
        min_request_amount = s.breaker_min_requests;
        stat_interval_ms = s.breaker_stat_interval_ms;
        threshold = s.seckill_breaker_error_rate;
      }
      ∷ []

  -- Some rule limits the resource.
  abbrev pub HasRule : String → List (FlowRule F) → Type 0
  HasRule name rules = Any (λ r. r.resource ≡ name) rules

  -- A configured route names the resource.
  abbrev pub IsNamed : String → List RouteConfig → Type 0
  IsNamed name rs = Any (λ c. c.resource ≡ name) rs

  named-HasRule :
      (qps : F) (name : String) (rs : List RouteConfig)
      → str_eq name "" ≡ false
      → str_eq name "route:seckill" ≡ false
      → IsNamed name rs
      → HasRule name (route_rules qps rs)
  named-HasRule qps name [] a b h = h
  named-HasRule qps name (r ∷ rs) a b (inl here) =
      let kept : (str_eq r.resource "" || str_eq r.resource "route:seckill") ≡ false =
        rw here (ground (arith, a, b)) in
      rw kept (inl here)
  named-HasRule qps name (r ∷ rs) a b (inr there) =
      elim (Bool-cases (str_eq r.resource "" || str_eq r.resource "route:seckill")) [
        | inl skipped ↦ rw skipped (named-HasRule qps name rs a b there)
        | inr kept ↦ rw kept (inr (named-HasRule qps name rs a b there))
      ]

  rule-IsNamed :
      (qps : F) (name : String) (rs : List RouteConfig)
      → HasRule name (route_rules qps rs)
      → IsNamed name rs × (str_eq name "" ≡ false)
  rule-IsNamed qps name [] h = absurd h
  rule-IsNamed qps name (r ∷ rs) h =
      elim (Bool-cases (str_eq r.resource "" || str_eq r.resource "route:seckill")) [
        | inl skipped ↦
            let (there, full) = rule-IsNamed qps name rs (rw skipped at h) in (inr there, full)
        | inr kept ↦ elim (rw kept at h) [
          | inl here ↦
              let full : str_eq r.resource "" ≡ false = ground (arith, kept) in
              (inl here, subst (λ n. str_eq n "" ≡ false) here full)
          | inr later_on ↦
              let (there, full) = rule-IsNamed qps name rs later_on in (inr there, full)
        ]
      ]

  -- A resource has a flow rule exactly if it is `route:seckill` or `route:default`, or is not empty
  -- and named by a configured route. The default resource of a route that names none is not among them.
  pub flow_rules_exact :
      (cfg : GatewayConfig F) (name : String)
      → HasRule name (flow_rules cfg) ↔ (
          (name ≡ "route:seckill")
          ⊎ (name ≡ "route:default")
          ⊎ (IsNamed name cfg.routes × (str_eq name "" ≡ false)))
  unfolding flow_rules
  flow_rules_exact cfg name =
      let qps = (with_defaults cfg.sentinel).default_qps in
      (
        λ h. elim h [
          | inl seckill ↦ inl (sym seckill)
          | inr (inl default_rule) ↦ inr (inl (sym default_rule))
          | inr (inr there) ↦ inr (inr (rule-IsNamed qps name cfg.routes there))
        ],
        λ h. elim h [
          | inl seckill ↦ inl (sym seckill)
          | inr (inl default_rule) ↦ inr (inl (sym default_rule))
          | inr (inr (named, full)) ↦ elim (Bool-cases (str_eq name "route:seckill")) [
            | inl seckill ↦ inl (sym ((eq_iff name "route:seckill").0 seckill))
            | inr other ↦ inr (inr (named-HasRule qps name cfg.routes full other named))
          ]
        ],
      )
