-- ===== src/User/Auth/Tokens.antt =====
-- internal/middleware/auth.go with internal/user/service.go: the tokens of the logins are accepted, and
-- no others.
use distributed_software_hom.Prelude.{
  ℕ, ◌+◌, ◌<◌, ◌^◌, ◌==◌, ◌≡◌, ◌↔◌, refl, ap, sym, subst, eq_iff, ◌∙◌, inl, inr, String, Bool, true,
  false, str_eq, Option, none, some, Bool-cases, Option-cases, arith,
}
use distributed_software_hom.Prelude.Int.{ℤ, pos, negsuc}
use distributed_software_hom.Result.{ok}
use distributed_software_hom.Database.{Table}
use distributed_software_hom.User.{User, user_schema, LoginRequest, LoginResponse, login}
use distributed_software_hom.User.Accounts.{login_ok}
use distributed_software_hom.User.Auth.{
  MapClaims, Jwt, number, text, Context, next, split_space, hmac_key, generate_token, claimed,
  bearer, jwt_auth, admin_required, is_one,
}

-- The header that a client sends with a token.
abbrev pub authorization : String → String
authorization token = String.◌∷◌ "B" (
    String.◌∷◌ "e"
      (String.◌∷◌ "a" (String.◌∷◌ "r" (String.◌∷◌ "e" (String.◌∷◌ "r" (String.◌∷◌ " " token))))))

module _ {F : Type 0} (jwt : Jwt F) where
  -- What the authentication keeps of a user.
  abbrev pub context_of : User → Context F
  context_of u = record {
    user_id = some u.id;
    username = some (text u.username);
    role = some (number (jwt.of_nat u.role));
  }

  -- A token that was generated for a user is accepted until it expires.
  token_accepted :
      (secret : String) (expire now later : ℕ) (u : User) (token : String)
      → generate_token jwt secret expire now u ≡ ok token
      → u.id < 2 ^ 53
      → later < now + expire
      → jwt_auth jwt secret (authorization token) later ≡ next (context_of u)
  unfolding generate_token jwt_auth
  token_accepted secret expire now later u token signed small early =
      let parsed = jwt.parse_signed secret _ token (hmac_key secret) later signed refl early in
      ap (claimed jwt) parsed
      ∙ ap (λ n. next (record (context_of u) { user_id = some n })) (jwt.to_uint_exact u.id small)

  -- An account of the table logs in, and is known by its id to the handlers behind the authentication
  -- until the token expires, and passes as an administrator exactly if its role is 1. Its id is below
  -- 2 ^ 53, which a JSON number holds exactly, and its role is an `int16`.
  pub login_authenticates :
      {S : Type 0} (users : Table S User user_schema) (same : String → String → Bool)
      (secret : String) (expire now later : ℕ) (req : LoginRequest) (s : S) (r : LoginResponse)
      → login users same (generate_token jwt secret expire now) req s ≡ ok r
      → r.user.id < 2 ^ 53
      → r.user.role < 2 ^ 15
      → later < now + expire
      → (jwt_auth jwt secret (authorization r.token) later ≡ next (context_of r.user))
        × ((admin_required jwt (context_of r.user) ≡ next (context_of r.user)) ↔ (r.user.role ≡ 1))
  unfolding admin_required
  login_authenticates users same secret expire now later req s r h small role early =
      let (found, matches, signed) =
        login_ok users same (generate_token jwt secret expire now) req s r h in
      let kept : jwt.to_int16 (jwt.of_nat r.user.role) ≡ pos r.user.role =
        jwt.to_int16_exact r.user.role role in
      (
        token_accepted secret expire now later r.user r.token signed small early,
        rw kept (elim (Bool-cases (r.user.role == 1)) [
          | inl admin ↦ rw admin (λ _. ground (arith, admin), λ _. refl)
          | inr other ↦ rw other (λ k. ground (arith, k), λ k. ground (arith, k, other))
        ]),
      )

  verified_key :
      (secret token : String) (hmac : Bool) (k : String)
      → hmac_key secret hmac ≡ some k
      → jwt.IsSigned hmac k token
      → jwt.IsSigned true secret token
  verified_key secret token true k same signed =
      let key : secret ≡ k = ground (arith, same) in
      subst (λ x. jwt.IsSigned true x token) (sym key) signed
  verified_key secret token false k same signed = absurd (ground (arith, same))

  -- The context holds what the claims of a token say.
  abbrev pub IsOfClaims : MapClaims F → Context F → Type 0
  IsOfClaims m c =
      ((x : F) × (m.user_id ≡ some (number x)) × (c.user_id ≡ some (jwt.to_uint x)))
      × (c.username ≡ m.username)
      × (c.role ≡ m.role)

  claimed-IsOfClaims :
      (o : Option (MapClaims F)) (c : Context F)
      → claimed jwt o ≡ next c
      → (m : MapClaims F) × (o ≡ some m) × IsOfClaims m c
  claimed-IsOfClaims none c h = absurd (ground arith)
  claimed-IsOfClaims (some m) c h = elim (Option-cases m.user_id) [
    | inl no_claim ↦ absurd (ground (arith, h, no_claim))
    | inr (text t, there) ↦ absurd (ground (arith, h, there))
    | inr (number x, there) ↦
        let passed : record { user_id = some (jwt.to_uint x); username = m.username; role = m.role }
            ≡ c =
          ground (arith, h, there) in
        (
          m,
          refl,
          (
            (x, there, sym (ap (λ (k : Context F). k.user_id) passed)),
            sym (ap (λ (k : Context F). k.username) passed),
            sym (ap (λ (k : Context F). k.role) passed),
          ),
        )
  ]

  -- The token of a header: after the word Bearer, signed with the secret by an HMAC, and with claims
  -- that the context holds.
  abbrev pub IsTokenOf : String → ℕ → Option (String × String) → Context F → Type 0
  IsTokenOf secret now parts c =
      (token : String) × (parts ≡ some ("Bearer", token))
      × jwt.IsSigned true secret token
      × ((m : MapClaims F) × (jwt.parse (hmac_key secret) token now ≡ some m) × IsOfClaims m c)

  bearer-IsTokenOf :
      (secret : String) (now : ℕ) (parts : Option (String × String)) (c : Context F)
      → bearer jwt secret now parts ≡ next c
      → IsTokenOf secret now parts c
  bearer-IsTokenOf secret now none c h = absurd (ground arith)
  bearer-IsTokenOf secret now (some (scheme, token)) c h =
      elim (Bool-cases (str_eq scheme "Bearer")) [
        | inr other ↦ absurd (ground (arith, h, other))
        | inl is_bearer ↦
            let named : scheme ≡ "Bearer" = (eq_iff scheme "Bearer").0 is_bearer in
            let (m, parsed, held) =
              claimed-IsOfClaims (jwt.parse (hmac_key secret) token now) c
                (ground (arith, h, is_bearer)) in
            let (hmac, k, key, signed) = jwt.parse_verifies token (hmac_key secret) now m parsed in
            (
              token,
              ap (λ x. some (x, token)) named,
              verified_key secret token hmac k key signed,
              (m, parsed, held),
            )
      ]

  pub jwt_auth-IsTokenOf :
      (secret header : String) (now : ℕ) (c : Context F)
      → jwt_auth jwt secret header now ≡ next c
      → IsTokenOf secret now (split_space header) c
  unfolding jwt_auth
  jwt_auth-IsTokenOf secret String.[] now c h = absurd (ground arith)
  jwt_auth-IsTokenOf secret (String.◌∷◌ x xs) now c h =
      bearer-IsTokenOf secret now (split_space (String.◌∷◌ x xs)) c h

  -- A request that passes the authentication carries, after the word Bearer, a token that is signed
  -- with the program's secret by an HMAC: one without a signature, or under another key, is refused.
  pub jwt_auth_signed :
      (secret header : String) (now : ℕ) (c : Context F)
      → jwt_auth jwt secret header now ≡ next c
      → (token : String) × (split_space header ≡ some ("Bearer", token))
        × jwt.IsSigned true secret token
  jwt_auth_signed secret header now c h =
      let (token, parts, signed, claims) = jwt_auth-IsTokenOf secret header now c h in
      (token, parts, signed)

  one-is : (n : ℤ) → is_one jwt n ≡ true → n ≡ pos 1
  one-is (pos n) h = ground (arith, h)
  one-is (negsuc n) h = absurd (ground (arith, h))

  -- The administrator's test passes a context on as it is, and only with the role 1.
  pub admin_required-role :
      (c c' : Context F)
      → admin_required jwt c ≡ next c'
      → (c ≡ c') × ((x : F) × (c'.role ≡ some (number x)) × (jwt.to_int16 x ≡ pos 1))
  unfolding admin_required
  admin_required-role c c' h = elim (Option-cases c.role) [
    | inl no_role ↦ absurd (ground (arith, h, no_role))
    | inr (text t, there) ↦ absurd (ground (arith, h, there))
    | inr (number x, there) ↦ elim (Bool-cases (is_one jwt (jwt.to_int16 x))) [
      | inr other ↦ absurd (ground (arith, h, there, other))
      | inl one ↦
          let same : c ≡ c' = ground (arith, h, there, one) in
          (
            same,
            (x, sym (ap (λ (k : Context F). k.role) same) ∙ there, one-is (jwt.to_int16 x) one),
          )
    ]
  ]
