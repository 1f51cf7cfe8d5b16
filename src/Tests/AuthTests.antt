-- ===== src/Tests/AuthTests.antt =====
-- The authentication with tokens that name one user, the routes behind it, and pkg/registry with a list of registrations.
use distributed_software_hom.Prelude.{
  [], ◌∷◌, ℕ, ◌<◌, ◌≡◌, ◌↔◌, refl, ap, ◌∙◌, sym, inl, inr, String, Bool, true, false, ◌&&◌, ◌==◌,
  Option, none, some, [], ◌∷◌, str_eq, eq_iff, eq_refl, ==_refl, ltb, if◌then◌else◌, arith,
  Bool-cases, Option-cases,
}
use distributed_software_hom.Prelude.Int.{pos}
use distributed_software_hom.Result.{Result, ok, err, external}
use distributed_software_hom.Database.Memory
use distributed_software_hom.User.{User, LoginRequest, login, find_by_username}
use distributed_software_hom.User.Auth.{
  number, text, Claims, MapClaims, Jwt, next, split_space, generate_token, jwt_auth, admin_required,
}
use distributed_software_hom.User.Auth.Tokens.{
  authorization, context_of, login_authenticates, jwt_auth_signed,
}
use distributed_software_hom.Registry.{Client, Registration, Naming, register, deregister}
use distributed_software_hom.Server.{
  delete, single_process, admin_group, product_delete, find_entry, guard, serve,
}
use distributed_software_hom.Server.Audience.{IsGranted, serve-IsGranted}
use distributed_software_hom.Tests.World.{World, world, users}

-- The claims of the administrator eve, until 100.
abbrev is_eve : Claims → Bool
is_eve c = c.user_id == 8 && (str_eq c.username "eve" && (c.role == 1 && c.exp == 100))

abbrev eve_claims : MapClaims ℕ
eve_claims = record {
  user_id = some (number 8);
  username = some (text "eve");
  role = some (number 1);
}

abbrev has_key : Option String → Bool
has_key none = false
has_key (some k) = str_eq k "secret"

abbrev sign : String → Claims → Result String
sign secret c = if is_eve c && str_eq secret "secret" then ok "token" else err (external 0)

abbrev parse : (Bool → Option String) → String → ℕ → Option (MapClaims ℕ)
parse key token now =
    if str_eq token "token" && (has_key (key true) && ltb now 100) then some eve_claims else none

abbrev IsEveToken : Bool → String → String → Type 0
IsEveToken hmac k token = (hmac ≡ true) × (k ≡ "secret") × (token ≡ "token")

sign_parse :
    (secret : String) (c : Claims) (token : String) (key : Bool → Option String) (now : ℕ)
    → sign secret c ≡ ok token
    → key true ≡ some secret
    → now < c.exp
    → parse key token now
      ≡ some (record {
        user_id = some (number c.user_id);
        username = some (text c.username);
        role = some (number c.role);
      })
sign_parse secret c token key now h k lt = elim (Bool-cases (is_eve c && str_eq secret "secret")) [
  | inr other ↦ absurd (ground (arith, h, other))
  | inl eve ↦
      let is_token : token ≡ "token" = ground (arith, h, eve) in
      let of_eve : is_eve c ≡ true = ground (arith, eve) in
      let same_secret : secret ≡ "secret" = (eq_iff secret "secret").0 (ground (arith, eve)) in
      let name : c.username ≡ "eve" = (eq_iff c.username "eve").0 (ground (arith, of_eve)) in
      let id : c.user_id ≡ 8 = ground (arith, of_eve) in
      let role : c.role ≡ 1 = ground (arith, of_eve) in
      let in_time : ltb now 100 ≡ true = ground (arith, of_eve, lt) in
      let key_known : has_key (key true) ≡ true =
        ap has_key k ∙ ap (λ x. str_eq x "secret") same_secret in
      rw (is_token, key_known, in_time, id, name, role) refl
]

parse_checked :
    (token : String) (key : Bool → Option String) (now : ℕ) (c : MapClaims ℕ)
    → parse key token now ≡ some c
    → (hmac : Bool) × (k : String) × (key hmac ≡ some k) × IsEveToken hmac k token
parse_checked token key now c h = elim (Option-cases (key true)) [
  | inl no_key ↦ absurd (ground (arith, h, no_key))
  | inr (k, there) ↦
      let hit : (str_eq token "token" && (str_eq k "secret" && ltb now 100)) ≡ true =
        ground (arith, h, there) in
      (
        true,
        k,
        there,
        (
          refl,
          (eq_iff k "secret").0 (ground (arith, hit)),
          (eq_iff token "token").0 (ground (arith, hit)),
        ),
      )
]

abbrev jwt : Jwt ℕ
jwt = record {
  sign = sign;
  parse = parse;
  of_nat = λ n. n;
  to_uint = λ n. n;
  to_int16 = pos;
  IsSigned = IsEveToken;
  parse_signed = sign_parse;
  parse_verifies = parse_checked;
  to_uint_exact = λ n lt. refl;
  to_int16_exact = λ n lt. refl;
}

abbrev eve : User
eve = record { id = 8; username = "eve"; password = "hashed"; email = "e@x"; phone = ""; role = 1 }

abbrev eve_world : World
eve_world = record world { users = eve ∷ [] }

abbrev same_password : String → String → Bool
same_password stored given = str_eq stored "hashed"

abbrev eve_login : LoginRequest
eve_login = record { username = "eve"; password = "pw" }

-- Eve logs in at 40 for an hour of 60 units, and comes back at 90.
login_authenticates_example :
    (jwt_auth jwt "secret" (authorization "token") 90 ≡ next (context_of jwt eve))
    × ((admin_required jwt (context_of jwt eve) ≡ next (context_of jwt eve)) ↔ (◌≡◌ {A = ℕ} 1 1))
unfolding login find_by_username generate_token Memory.table Memory.first
login_authenticates_example =
    login_authenticates jwt users same_password "secret" 60 40 90 eve_login eve_world
      (record { token = "token"; user = eve }) refl (omega arith) (omega arith) (omega arith)

jwt_auth_signed_example :
    (token : String) × (split_space (authorization "token") ≡ some ("Bearer", token))
    × IsEveToken true "secret" token
unfolding jwt_auth
jwt_auth_signed_example =
    jwt_auth_signed jwt "secret" (authorization "token") 90 (context_of jwt eve) refl

-- Eve deletes product 5.
serve-IsGranted_example :
    IsGranted jwt "secret" admin_group (authorization "token") 90 (context_of jwt eve)
unfolding serve find_entry guard jwt_auth admin_required
serve-IsGranted_example =
    serve-IsGranted jwt "secret" single_process delete ("api" ∷ "v1" ∷ "products" ∷ "5" ∷ [])
      (authorization "token") 90 (context_of jwt eve) product_delete ("5" ∷ []) refl

-- Nacos as the registrations that it lists.
abbrev Listed : Type 0
Listed = Registration → Bool

abbrev same_registration : Registration → Registration → Bool
same_registration a b =
    str_eq a.ip b.ip
    && (a.port == b.port
        && (str_eq a.service_name b.service_name && str_eq a.group_name b.group_name))

same_refl : (r : Registration) → same_registration r r ≡ true
same_refl r = rw (eq_refl r.ip, ==_refl r.port, eq_refl r.service_name, eq_refl r.group_name) refl

abbrev assign : Registration → Bool → Listed → Listed
assign r b n x = if same_registration r x then b else n x

assigned : (r : Registration) (b : Bool) (n : Listed) → assign r b n r ≡ b
assigned r b n = rw (same_refl r) refl

abbrev naming : Naming Listed
naming = record {
  lists = λ r n. n r;
  register_instance = λ r n. (ok true, assign r true n);
  deregister_instance = λ r n. (ok true, assign r false n);
  register_lists = λ r n n' h. sym (ap (λ (c : Result Bool × Listed). c.1 r) h) ∙ assigned r true n;
  deregister_removes =
      λ r b n n' h. sym (ap (λ (c : Result Bool × Listed). c.1 r) h) ∙ assigned r false n;
}

abbrev order_client : Client
order_client = record {
  opts = record {
    host = "nacos";
    port = 8848;
    namespace = "";
    group = "DEFAULT_GROUP";
    service_name = "order-service";
    instance_ip = "";
    instance_port = 8081;
    data_id = "";
  };
  registered = false;
}

abbrev nothing_listed : Listed
nothing_listed r = false

abbrev registered_call : Result (Unit {0}) × Client × Listed
registered_call = register naming (ok "10.0.0.7") order_client nothing_listed

abbrev deregistered_call : Result (Unit {0}) × Client × Listed
deregistered_call = deregister naming registered_call.1 registered_call.2
