-- ===== src/Registry.antt =====
-- pkg/registry/{nacos,bootstrap}.go: how a process registers itself with Nacos and takes itself off
-- again. The naming client of the Nacos SDK and `detectLocalIP` are parameters; `N` is the state of
-- Nacos. The configuration client is left out.
pub mod Bootstrap
use distributed_software_hom.Prelude.{
  ℕ, ◌==◌, ◌||◌, ◌≡◌, String, Bool, true, false, str_eq, Option, none, some, if◌then◌else◌,
}
use distributed_software_hom.Result.{Error, Result, ok, err, external}

pub record Options : Type 0 where
  pub host : String
  pub port : ℕ
  pub namespace : String
  pub group : String
  pub service_name : String
  pub instance_ip : String
  pub instance_port : ℕ
  pub data_id : String

-- The state of a client.
pub record Client : Type 0 where
  pub opts : Options
  pub registered : Bool

-- The fields of `vo.RegisterInstanceParam` and of `vo.DeregisterInstanceParam` that differ between
-- processes.
pub record Registration : Type 0 where
  pub ip : String
  pub port : ℕ
  pub service_name : String
  pub group_name : String

-- The naming client: the instances that Nacos lists, and what the calls do to them.
pub record Naming (N : Type 0) : Type 0 where
  pub lists : Registration → N → Bool
  pub register_instance : Registration → N → Result Bool × N
  pub deregister_instance : Registration → N → Result Bool × N
  pub register_lists :
      (r : Registration) (n n' : N) → register_instance r n ≡ (ok true, n') → lists r n' ≡ true
  pub deregister_removes :
      (r : Registration) (b : Bool) (n n' : N)
      → deregister_instance r n ≡ (ok b, n')
      → lists r n' ≡ false

abbrev or_default : String → String → String
or_default s default_text = if str_eq s "" then default_text else s

-- `New`, without the construction of the SDK's clients: `constructs` tells whether they could be made.
unfoldable pub new_client : Bool → Options → Result Client
new_client constructs o =
    if str_eq o.host ""
    then err (external 1)
    else if constructs
    then ok (record {
      opts = record o {
        port = if o.port == 0 then 8848 else o.port;
        group = or_default o.group "DEFAULT_GROUP";
      };
      registered = false;
    })
    else err (external 2)

abbrev pub registration : Options → Registration
registration o = record {
  ip = o.instance_ip;
  port = o.instance_port;
  service_name = o.service_name;
  group_name = o.group;
}

-- The address of this process: the configured one, or the one that was detected.
abbrev pub local_ip : Result String → Options → Result String
local_ip detected o = if str_eq o.instance_ip "" then detected else ok o.instance_ip

module _ {N : Type 0} (naming : Naming N) where
  abbrev pub registered_as : Client → Options → Result Bool × N → Result (Unit {0}) × Client × N
  registered_as c o (err e, n) = (err e, c, n)
  registered_as c o (ok false, n) = (err (external 3), c, n)
  registered_as c o (ok true, n) = (ok tt, record { opts = o; registered = true }, n)

  -- `detected` is what `detectLocalIP` returns.
  unfoldable pub register : Result String → Client → N → Result (Unit {0}) × Client × N
  register detected c n =
      if str_eq c.opts.service_name "" || c.opts.instance_port == 0
      then (err (external 4), c, n)
      else elim (local_ip detected c.opts) [
        | err e ↦ (err e, c, n)
        | ok ip ↦
            let o = record c.opts { instance_ip = ip } in
            registered_as c o (naming.register_instance (registration o) n)
      ]

  abbrev pub dropped : Result Bool → Result (Unit {0})
  dropped (ok b) = ok tt
  dropped (err e) = err e

  unfoldable pub deregister : Client → N → Result (Unit {0}) × Client × N
  deregister c n =
      if c.registered
      then (let (r, n') = naming.deregister_instance (registration c.opts) n in
          (dropped r, record c { registered = false }, n'))
      else (ok tt, c, n)
