-- ===== src/Registry/Bootstrap.antt =====
-- pkg/registry/bootstrap.go, and what starting and stopping a process leaves in Nacos.
use distributed_software_hom.Prelude.{
  ℕ, ◌==◌, ◌||◌, ◌≡◌, inl, inr, refl, sym, ap, subst, String, Bool, true, false, str_eq, Option,
  none, some, Bool-cases, if◌then◌else◌, arith,
}
use distributed_software_hom.Result.{Result, ok, err, Result-cases, Call-cases}
use distributed_software_hom.Registry.{
  Options, Client, Naming, new_client, registration, local_ip, registered_as, register, deregister,
}

pub record NacosConfig : Type 0 where
  pub enabled : Bool
  pub host : String
  pub port : ℕ
  pub namespace : String
  pub group : String
  pub service_name : String
  pub instance_ip : String
  pub data_id : String

-- The options of BootstrapService; the port is that of the server.
abbrev pub options_of : NacosConfig → ℕ → Options
options_of c port = record {
  host = c.host;
  port = c.port;
  namespace = c.namespace;
  group = c.group;
  service_name = c.service_name;
  instance_ip = c.instance_ip;
  instance_port = port;
  data_id = c.data_id;
}

-- What BootstrapService returns: the client, if there is one, and whether the function to defer calls
-- Deregister or does nothing.
pub record Started : Type 0 where
  pub client : Option Client
  pub deregisters : Bool

abbrev pub without_client : Started
without_client = record { client = none; deregisters = false }

module _ {N : Type 0} (naming : Naming N) where
  abbrev pub started_with : Result (Unit {0}) × Client × N → Started × N
  started_with (err e, c, n) = (record { client = some c; deregisters = false }, n)
  started_with (ok _, c, n) = (record { client = some c; deregisters = true }, n)

  unfoldable pub bootstrap_service : Bool → Result String → NacosConfig → ℕ → N → Started × N
  bootstrap_service constructs detected cfg port n =
      if cfg.enabled
      then (if str_eq cfg.service_name ""
          then (without_client, n)
          else elim (new_client constructs (options_of cfg port)) [
            | err e ↦ (without_client, n)
            | ok c ↦ started_with (register naming detected c n)
          ])
      else (without_client, n)

  -- The function that BootstrapService returns, at the end of the process.
  abbrev pub stop : Started → N → N
  stop s n = elim s.client [
    | none ↦ n
    | some c ↦ if s.deregisters then (deregister naming c n).2 else n
  ]

  registered_as-ok :
      (c : Client) (o : Options) (call : Result Bool × N) (c' : Client) (n' : N)
      → registered_as naming c o call ≡ (ok tt, c', n')
      → (call ≡ (ok true, n')) × (c' ≡ record { opts = o; registered = true })
  registered_as-ok c o (err e, n) c' n' h = ground arith
  registered_as-ok c o (ok false, n) c' n' h = ground arith
  registered_as-ok c o (ok true, n) c' n' h = (ground arith, ground arith)

  register-lists :
      (detected : Result String) (c c' : Client) (n n' : N)
      → register naming detected c n ≡ (ok tt, c', n')
      → (naming.lists (registration c'.opts) n' ≡ true) × (c'.registered ≡ true)
  unfolding register
  register-lists detected c c' n n' h =
      elim (Bool-cases (str_eq c.opts.service_name "" || c.opts.instance_port == 0)) [
        | inl bad ↦ ground (arith, bad)
        | inr good ↦ elim (Result-cases (local_ip detected c.opts)) [
          | inr (e, unknown) ↦ ground (arith, good, unknown)
          | inl (ip, known) ↦
              let o : Options = record c.opts { instance_ip = ip } in
              let (called, client) =
                registered_as-ok c o (naming.register_instance (registration o) n) c' n'
                  (ground (arith, good, known)) in
              (
                subst (λ (x : Client). naming.lists (registration x.opts) n' ≡ true) (sym client)
                    (naming.register_lists (registration o) n n' called),
                ap (λ (x : Client). x.registered) client,
              )
        ]
      ]

  deregister-removes :
      (c c' : Client) (n n' : N)
      → c.registered ≡ true
      → deregister naming c n ≡ (ok tt, c', n')
      → (naming.lists (registration c.opts) n' ≡ false)
        × (deregister naming c' n' ≡ (ok tt, c', n'))
  unfolding deregister
  deregister-removes c c' n n' is h =
      elim (Call-cases (naming.deregister_instance (registration c.opts) n)) [
        | inr (e, m, failed) ↦ ground (arith, h, is, failed)
        | inl (b, m, done) ↦
            let last : m ≡ n' = ground (arith, h, is, done) in
            let client : c' ≡ record c { registered = false } = ground (arith, h, is, done) in
            (
              subst (λ x. naming.lists (registration c.opts) x ≡ false) last
                  (naming.deregister_removes (registration c.opts) b n m done),
              rw client refl,
            )
      ]

  -- A process that has registered is listed by Nacos under the address that its client remembers; once
  -- it takes itself off, at any later state of Nacos, without an error, that registration is no longer
  -- listed, and taking it off again does nothing.
  pub deregister-register :
      (detected : Result String) (c c' c'' : Client) (n n' m m' : N)
      → register naming detected c n ≡ (ok tt, c', n')
      → deregister naming c' m ≡ (ok tt, c'', m')
      → (naming.lists (registration c'.opts) n' ≡ true)
        × (naming.lists (registration c'.opts) m' ≡ false)
        × (deregister naming c'' m' ≡ (ok tt, c'', m'))
  deregister-register detected c c' c'' n n' m m' h k =
      let (listed, is) = register-lists detected c c' n n' h in
      let (removed, again) = deregister-removes c' c'' m m' is k in (listed, removed, again)
