-- ===== src/User/Handler.antt =====
-- internal/user/handler.go. A path behind the authentication has a user id in its context; without one
-- `userID.(uint)` panics, for which there is no answer here.
use distributed_software_hom.Prelude.{ℕ, String, Bool, Option, none, some}
use distributed_software_hom.Result.{
  Error, Result, ok, err, user_exists, email_exists, invalid_credentials, user_not_found,
}
use distributed_software_hom.Database.{Table}
use distributed_software_hom.Http.{Reply, success, error, bad_request, respond}
use distributed_software_hom.User.{
  User, user_schema, RegisterRequest, LoginRequest, LoginResponse, UpdateProfileRequest, register,
  login, get_profile, update_profile,
}

abbrev pub register_code : Error → ℕ
register_code user_exists = 409
register_code email_exists = 409
register_code e = 500

abbrev pub login_code : Error → ℕ
login_code invalid_credentials = 401
login_code e = 500

abbrev pub profile_code : Error → ℕ
profile_code user_not_found = 404
profile_code e = 500

abbrev pub update_code : Error → ℕ
update_code user_not_found = 404
update_code email_exists = 409
update_code e = 500

-- The answer to a call that changes the database, which an error leaves as it was.
abbrev pub respond_with : {A S : Type 0} → (Error → ℕ) → S → Result (A × S) → Reply A × S
respond_with code s (err e) = (error (code e), s)
respond_with code s (ok (a, s')) = (success a, s')

module _ {S : Type 0} (users : Table S User user_schema) where
  unfoldable pub handle_register :
      (String → Result String) → Option RegisterRequest → S → Reply User × S
  handle_register generate_from_password none s = (bad_request, s)
  handle_register generate_from_password (some req) s =
      respond_with register_code s (register users generate_from_password req s)

  unfoldable pub handle_login :
      (String → String → Bool)
      → (User → Result String)
      → Option LoginRequest
      → S
      → Reply LoginResponse
  handle_login same_password generate_token none s = bad_request
  handle_login same_password generate_token (some req) s =
      respond login_code (login users same_password generate_token req s)

  unfoldable pub handle_get_profile : Option ℕ → S → Option (Reply User)
  handle_get_profile none s = none
  handle_get_profile (some uid) s = some (respond profile_code (get_profile users uid s))

  unfoldable pub handle_update_profile :
      Option ℕ → Option UpdateProfileRequest → S → Option (Reply User × S)
  handle_update_profile user none s = some (bad_request, s)
  handle_update_profile none (some req) s = none
  handle_update_profile (some uid) (some req) s =
      some (respond_with update_code s (update_profile users uid req s))
