-- ===== src/Startup/Ready.antt =====
-- What a program of cmd/*/main.go has when it begins to serve.
use distributed_software_hom.Prelude.{
  ◌≡◌, ◌⊎◌, inl, inr, refl, subst, none, some, [], arith, Bool-cases, ◌*◌,
}
use distributed_software_hom.Prelude.Int.{ℤ, pos, negsuc, ◌≤ℤ◌, ltb_ℤ}
use distributed_software_hom.Prelude.Word.{wrap64, wrap64-of_fits}
use distributed_software_hom.Result.{Error, Result, ok, err, Result-cases}
use distributed_software_hom.Config.{Config}
use distributed_software_hom.Snowflake.{Node}
use distributed_software_hom.Startup.{
  Stage, Start, goes_on, ◌>>=◌, or_exit, Externals, Running, relay_interval, default_interval,
  order_service_main, inventory_service_main, payment_service_main, server_main, with_producer,
}

pub data Program : Type 0 where
  single_process order_program inventory_program payment_program : Program

abbrev pub main : {F : Type 0} → Externals F → Program → Start Running
main calls single_process = server_main calls
main calls order_program = order_service_main calls
main calls inventory_program = inventory_service_main calls
main calls payment_program = payment_service_main calls

or_exit-eq-goes_on :
    {A B : Type 0} (at : Stage) (r : Result A) (f : A → Start B) {b : B}
    → (or_exit at r >>= f) ≡ goes_on b
    → (a : A) × (r ≡ ok a) × (f a ≡ goes_on b)
unfolding or_exit ◌>>=◌
or_exit-eq-goes_on at (ok a) f h = (a, refl, h)
or_exit-eq-goes_on at (err e) f h = absurd (ground arith)

relay_interval_pos : (ms : ℤ) → ms ≤ℤ pos 9223372036854 → pos 1 ≤ℤ relay_interval ms
unfolding relay_interval
relay_interval_pos (pos n) h = elim (Bool-cases (ltb_ℤ (pos 0) (pos n))) [
  | inl positive ↦
      let fits : wrap64 (pos (n * 1000000)) ≡ pos (n * 1000000) =
        wrap64-of_fits (pos (n * 1000000)) (omega arith) in
      rw (positive, relay_interval) (rw fits (ground arith))
  | inr other ↦ rw (other, relay_interval) (omega arith)
]
relay_interval_pos (negsuc n) h = elim (Bool-cases (ltb_ℤ (pos 0) (negsuc n))) [
  | inl positive ↦ absurd (ground arith)
  | inr other ↦ rw (other, relay_interval) (omega arith)
]

module _ {F : Type 0} (calls : Externals F) where
  -- A relay with a positive interval; or no relay and no consumers, since there is no producer.
  abbrev pub IsReady : Program → Running → Type 0
  IsReady p r =
      ((i : ℤ) × (r.relay ≡ some i) × (pos 1 ≤ℤ i))
      ⊎ ((p ≡ single_process)
          × (r.relay ≡ none)
          × (r.consumers ≡ [])
          × ((cfg : Config F) × (e : Error) × (calls.load "config/config.yaml" ≡ ok cfg)
              × (calls.new_producer cfg.kafka.brokers cfg.kafka.topic ≡ err e)))

  with_producer-IsReady :
      (cfg : Config F) (node : Node)
      → calls.load "config/config.yaml" ≡ ok cfg
      → IsReady single_process
          (with_producer calls cfg node (calls.new_producer cfg.kafka.brokers cfg.kafka.topic))
  with_producer-IsReady cfg node loaded =
      elim (Result-cases (calls.new_producer cfg.kafka.brokers cfg.kafka.topic)) [
        | inl (u, made) ↦ rw made (inl (default_interval, refl, omega arith))
        | inr (e, failed) ↦ inr (refl, rw failed refl, rw failed refl, (cfg, e, loaded, failed))
      ]

  module _
      (small : (cfg : Config F)
        → calls.load "config/config.yaml" ≡ ok cfg
        → cfg.outbox_interval_ms ≤ℤ pos 9223372036854) where
    configured-IsReady :
        (p : Program) (cfg : Config F)
        → calls.load "config/config.yaml" ≡ ok cfg
        → (r : Running) → r.relay ≡ some (relay_interval cfg.outbox_interval_ms)
        → IsReady p r
    configured-IsReady p cfg loaded r relay = inl (
      relay_interval cfg.outbox_interval_ms,
      relay,
      relay_interval_pos cfg.outbox_interval_ms (small cfg loaded),
    )

    -- With an interval in the configuration whose nanoseconds fit 64 bits: a program that begins to
    -- serve has a relay with a positive interval (its ticker panics at others), or it is the single
    -- process, could not make a producer, and has neither a relay nor consumers.
    pub main-IsReady : (p : Program) (r : Running) → main calls p ≡ goes_on r → IsReady p r
    unfolding server_main order_service_main inventory_service_main payment_service_main
    main-IsReady single_process r h =
        let (cfg, loaded, h1) = or_exit-eq-goes_on _ _ _ h in
        let (u, opened, h2) = or_exit-eq-goes_on _ _ _ h1 in
        let (v, migrated, h3) = or_exit-eq-goes_on _ _ _ h2 in
        let (node, made, h4) = or_exit-eq-goes_on _ _ _ h3 in
        let now = calls.new_producer cfg.kafka.brokers cfg.kafka.topic in
        let same : with_producer calls cfg node now ≡ r = ground arith in
        subst (IsReady single_process) same (with_producer-IsReady cfg node loaded)
    main-IsReady order_program r h =
        let (cfg, loaded, h1) = or_exit-eq-goes_on _ _ _ h in
        let (u, opened, h2) = or_exit-eq-goes_on _ _ _ h1 in
        let (v, migrated, h3) = or_exit-eq-goes_on _ _ _ h2 in
        let (node, made, h4) = or_exit-eq-goes_on _ _ _ h3 in
        let (w, produced, h5) = or_exit-eq-goes_on _ _ _ h4 in
        configured-IsReady order_program cfg loaded r (ground arith)
    main-IsReady inventory_program r h =
        let (cfg, loaded, h1) = or_exit-eq-goes_on _ _ _ h in
        let (u, opened, h2) = or_exit-eq-goes_on _ _ _ h1 in
        let (v, migrated, h3) = or_exit-eq-goes_on _ _ _ h2 in
        let (w, produced, h4) = or_exit-eq-goes_on _ _ _ h3 in
        configured-IsReady inventory_program cfg loaded r (ground arith)
    main-IsReady payment_program r h =
        let (cfg, loaded, h1) = or_exit-eq-goes_on _ _ _ h in
        let (u, opened, h2) = or_exit-eq-goes_on _ _ _ h1 in
        let (v, migrated, h3) = or_exit-eq-goes_on _ _ _ h2 in
        let (w, produced, h4) = or_exit-eq-goes_on _ _ _ h3 in
        configured-IsReady payment_program cfg loaded r (ground arith)
