-- ===== src/User/Auth.antt =====
-- internal/middleware/auth.go, and `generateToken` of internal/user/service.go. Signing and parsing a
-- token are calls of golang-jwt, which a record stands for; a header that is absent is empty.
pub mod Tokens
use distributed_software_hom.Prelude.{
  ℕ, ◌+◌, ◌<◌, ◌^◌, ◌==◌, ◌≡◌, String, Bool, true, false, str_eq, Option, none, some, if◌then◌else◌,
}
use distributed_software_hom.Prelude.Int.{ℤ, pos, negsuc}
use distributed_software_hom.Result.{Result, ok}
use distributed_software_hom.User.{User}
use Prim.Native.Char.{Char, code}

-- A value of `jwt.MapClaims`: a JSON number is a `float64`.
pub data Claim (F : Type 0) : Type 0 where
  number : F → Claim F
  text : String → Claim F

-- The claims that the program writes.
pub record Claims : Type 0 where
  pub user_id : ℕ
  pub username : String
  pub role : ℕ
  pub exp : ℕ
  pub iat : ℕ

-- What a handler finds in the context, and what is read of the claims of a token.
pub record Context (F : Type 0) : Type 0 where
  pub user_id : Option ℕ
  pub username : Option (Claim F)
  pub role : Option (Claim F)

pub record MapClaims (F : Type 0) : Type 0 where
  pub user_id : Option (Claim F)
  pub username : Option (Claim F)
  pub role : Option (Claim F)

-- golang-jwt with HS256, and the conversions of `float64`, which is exact below 2 ^ 53.
pub record Jwt (F : Type 0) : Type 1 where
  -- NewWithClaims(HS256, c).SignedString(secret)
  pub sign : String → Claims → Result String
  -- Parse(token, key) at a time: `key` is told whether the method of the token is an HMAC
  pub parse : (Bool → Option String) → String → ℕ → Option (MapClaims F)
  pub of_nat : ℕ → F
  pub to_uint : F → ℕ
  pub to_int16 : F → ℤ
  -- a token is signed with a key, by an HMAC or not
  pub IsSigned : Bool → String → String → Type 0
  pub parse_signed :
      (secret : String) (c : Claims) (token : String) (key : Bool → Option String) (now : ℕ)
      → sign secret c ≡ ok token
      → key true ≡ some secret
      → now < c.exp
      → parse key token now
        ≡ some (record {
          user_id = some (number (of_nat c.user_id));
          username = some (text c.username);
          role = some (number (of_nat c.role));
        })
  pub parse_verifies :
      (token : String) (key : Bool → Option String) (now : ℕ) (c : MapClaims F)
      → parse key token now ≡ some c
      → (hmac : Bool) × (k : String) × (key hmac ≡ some k) × IsSigned hmac k token
  pub to_uint_exact : (n : ℕ) → n < 2 ^ 53 → to_uint (of_nat n) ≡ n
  pub to_int16_exact : (n : ℕ) → n < 2 ^ 15 → to_int16 (of_nat n) ≡ pos n

-- How a middleware ends: with an answer of a status code, or with the next handler.
pub data Gate (F : Type 0) : Type 0 where
  abort : ℕ → Gate F
  next : Context F → Gate F

abbrev pub in_front : Char → Option (String × String) → Option (String × String)
in_front c none = none
in_front c (some (a, b)) = some (String.◌∷◌ c a, b)

-- `strings.SplitN(s, " ", 2)`, if it gives two parts
abbrev pub split_space : String → Option (String × String)
split_space String.[] = none
split_space (String.◌∷◌ c s) =
    let rest = split_space s in if code c == 32 then some (String.[], s) else in_front c rest

-- The function that JWTAuth gives to Parse.
abbrev pub hmac_key : String → Bool → Option String
hmac_key secret true = some secret
hmac_key secret false = none

module _ {F : Type 0} (jwt : Jwt F) where
  unfoldable pub generate_token : String → ℕ → ℕ → User → Result String
  generate_token secret expire now u = jwt.sign secret (record {
    user_id = u.id;
    username = u.username;
    role = u.role;
    exp = now + expire;
    iat = now;
  })

  abbrev pub claimed : Option (MapClaims F) → Gate F
  claimed none = abort 401
  claimed (some c) = elim c.user_id [
    | none ↦ abort 401
    | some (text t) ↦ abort 401
    | some (number x) ↦
        next (record { user_id = some (jwt.to_uint x); username = c.username; role = c.role })
  ]

  abbrev pub bearer : String → ℕ → Option (String × String) → Gate F
  bearer secret now none = abort 401
  bearer secret now (some (scheme, token)) =
      if str_eq scheme "Bearer" then claimed (jwt.parse (hmac_key secret) token now) else abort 401

  unfoldable pub jwt_auth : String → String → ℕ → Gate F
  jwt_auth secret String.[] now = abort 401
  jwt_auth secret (String.◌∷◌ c s) now = bearer secret now (split_space (String.◌∷◌ c s))

  abbrev pub is_one : ℤ → Bool
  is_one (pos n) = n == 1
  is_one (negsuc n) = false

  unfoldable pub admin_required : Context F → Gate F
  admin_required c = elim c.role [
    | none ↦ abort 403
    | some (text t) ↦ abort 403
    | some (number x) ↦ if is_one (jwt.to_int16 x) then next c else abort 403
  ]
