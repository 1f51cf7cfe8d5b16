-- ===== src/User.antt =====
-- internal/user/{model,repository,service}.go: accounts. bcrypt and the signing of a token are
-- parameters; timestamps are left out.
pub mod Accounts
pub mod Handler
pub mod Auth
use distributed_software_hom.Prelude.{
  ℕ, String, Bool, true, false, ◌&&◌, ◌||◌, not, ◌==◌, ltb, str_eq, if◌then◌else◌, ◌≡◌,
}
use distributed_software_hom.Result.{
  Error, Result, ok, err, ◌>>=◌, record_not_found, user_exists, email_exists, invalid_credentials,
  user_not_found,
}
use distributed_software_hom.Database.{Schema, Table}

pub record User : Type 0 where
  pub id : ℕ
  pub username : String
  pub password : String
  pub email : String
  pub phone : String
  pub role : ℕ

pub record RegisterRequest : Type 0 where
  pub username : String
  pub password : String
  pub email : String
  pub phone : String

pub record LoginRequest : Type 0 where
  pub username : String
  pub password : String

pub record LoginResponse : Type 0 where
  pub token : String
  pub user : User

pub record UpdateProfileRequest : Type 0 where
  pub email : String
  pub phone : String

-- "username = ?" and "email = ?"
abbrev pub by_username : String → User → Bool
by_username name u = str_eq u.username name

abbrev pub by_email : String → User → Bool
by_email email u = str_eq u.email email

-- `primaryKey`, and `uniqueIndex` on Username and on Email
abbrev pub user_schema : Schema User
user_schema = record {
  id_of = λ u. u.id;
  with_id = λ i u. record u { id = i };
  clash = λ a b. a.id == b.id || (by_username b.username a || by_email b.email a);
}

-- `if errors.Is(err, gorm.ErrRecordNotFound) { return ErrUserNotFound }; return err`
abbrev pub not_found_as_user : {A : Type 0} → Result A → Result A
not_found_as_user (ok a) = ok a
not_found_as_user (err record_not_found) = err user_not_found
not_found_as_user (err e) = err e

-- `if exists { return e }`, behind a check that may fail
abbrev pub unless_exists : Error → Result Bool → Result (Unit {0})
unless_exists e (err f) = err f
unless_exists e (ok true) = err e
unless_exists e (ok false) = ok tt

-- The account that Register inserts; the database sets the default role.
abbrev pub new_user : RegisterRequest → String → User
new_user req hashed = record {
  id = 0;
  username = req.username;
  password = hashed;
  email = req.email;
  phone = req.phone;
  role = 0;
}

module _ {S : Type 0} (users : Table S User user_schema) where
  unfoldable pub find_by_username : String → S → Result User
  find_by_username name s = users.first (by_username name) s

  unfoldable pub find_by_id : ℕ → S → Result User
  find_by_id id s = users.first (λ u. u.id == id) s

  unfoldable pub exists_by_username : String → S → Result Bool
  exists_by_username name s = users.count_rows (by_username name) s >>= λ n. ok (ltb 0 n)

  unfoldable pub exists_by_email : String → S → Result Bool
  exists_by_email email s = users.count_rows (by_email email) s >>= λ n. ok (ltb 0 n)

  unfoldable pub register : (String → Result String) → RegisterRequest → S → Result (User × S)
  register generate_from_password req s =
      unless_exists user_exists (exists_by_username req.username s)
      >>= (λ _. unless_exists email_exists (exists_by_email req.email s))
      >>= (λ _. generate_from_password req.password)
      >>= λ hashed. users.create (new_user req hashed) s >>= λ (i, s').
          ok (record (new_user req hashed) { id = i }, s')

  unfoldable pub login :
      (String → String → Bool) → (User → Result String) → LoginRequest → S → Result LoginResponse
  login same_password generate_token req s =
      not_found_as_user (find_by_username req.username s) >>= λ u.
      if same_password u.password req.password
      then (generate_token u >>= λ token. ok (record { token = token; user = u }))
      else err invalid_credentials

  unfoldable pub get_profile : ℕ → S → Result User
  get_profile id s = not_found_as_user (find_by_id id s)

  -- The new e-mail address, if the request names another one.
  abbrev pub with_email : UpdateProfileRequest → User → S → Result User
  with_email req u s =
      if not (str_eq req.email "") && not (str_eq req.email u.email)
      then (unless_exists email_exists (exists_by_email req.email s) >>= λ _.
          ok (record u { email = req.email }))
      else ok u

  unfoldable pub update_profile : ℕ → UpdateProfileRequest → S → Result (User × S)
  update_profile id req s =
      not_found_as_user (find_by_id id s) >>= (λ u. with_email req u s) >>= λ u. users.save u s
