-- ===== src/User/Accounts.antt =====
-- internal/user/service.go: what a registration, a login and a change of a profile that succeed
-- have done.
use distributed_software_hom.Prelude.{
  ℕ, String, Bool, true, false, ◌≡◌, ◌∙◌, ap, sym, some, [], ◌∷◌, ◌++◌, find?, count, arith, ltb,
  not, ◌&&◌, ◌==◌, str_eq, ◌⊎◌, inl, inr, Bool-cases,
}
use distributed_software_hom.Result.{
  Error, Result, ok, err, ◌>>=◌, >>=-eq-ok, user_exists, email_exists,
}
use distributed_software_hom.Database.{Table}
use distributed_software_hom.User.{
  User, RegisterRequest, LoginRequest, LoginResponse, UpdateProfileRequest, user_schema,
  by_username, by_email, not_found_as_user, unless_exists, find_by_id, find_by_username,
  exists_by_username, exists_by_email, new_user, register, login, with_email, update_profile,
}

not_found-eq-ok : {A : Type 0} (r : Result A) {a : A} → not_found_as_user r ≡ ok a → r ≡ ok a
not_found-eq-ok (ok a) h = h
not_found-eq-ok (err e) h = ground arith

unless_exists-eq-ok :
    (e : Error) (r : Result Bool) {u : Unit {0}} → unless_exists e r ≡ ok u → r ≡ ok false
unless_exists-eq-ok e (ok b) h = ground arith
unless_exists-eq-ok e (err f) h = ground arith

module _ {S : Type 0} (users : Table S User user_schema) where
  no_username :
      (name : String) (s : S)
      → exists_by_username users name s ≡ ok false
      → count (by_username name) (users.rows s) ≡ 0
  unfolding exists_by_username
  no_username name s h =
      let (n, counted, none_there) =
        >>=-eq-ok (users.count_rows (by_username name) s) (λ n. ok (ltb 0 n)) h in
      sym (users.count_ok (by_username name) s n counted) ∙ ground arith

  no_email :
      (email : String) (s : S)
      → exists_by_email users email s ≡ ok false
      → count (by_email email) (users.rows s) ≡ 0
  unfolding exists_by_email
  no_email email s h =
      let (n, counted, none_there) =
        >>=-eq-ok (users.count_rows (by_email email) s) (λ n. ok (ltb 0 n)) h in
      sym (users.count_ok (by_email email) s n counted) ∙ ground arith

  inserted_row :
      (v : User) (s : S) (u : User) (s' : S)
      → ◌>>=◌ {B = User × S} (users.create v s) (λ (i, t). ok (record v { id = i }, t)) ≡ ok (u, s')
      → (i : ℕ) × (u ≡ record v { id = i }) × (users.rows s' ≡ users.rows s ++ u ∷ [])
  inserted_row v s u s' h =
      let ((i, t), inserted, answer) =
        >>=-eq-ok (users.create v s) (λ (i, t). ok (record v { id = i }, t)) h in
      let same : u ≡ record v { id = i } = ground arith in
      let inserted' : users.create v s ≡ ok (i, s') = ground arith in
      (i, same, users.create_rows v s i s' inserted' ∙ ap (λ w. users.rows s ++ w ∷ []) (sym same))

  -- A registration that succeeds found no account with its name or its e-mail address, and added
  -- exactly one, which has the fields of the request, the hashed password and the role 0.
  pub register_ok :
      (hash : String → Result String) (req : RegisterRequest) (s : S) (u : User) (s' : S)
      → register users hash req s ≡ ok (u, s')
      → (count (by_username req.username) (users.rows s) ≡ 0)
        × (count (by_email req.email) (users.rows s) ≡ 0)
        × ((hashed : String) × (i : ℕ) × (hash req.password ≡ ok hashed)
            × (u ≡ record (new_user req hashed) { id = i })
            × (users.rows s' ≡ users.rows s ++ u ∷ []))
  unfolding register
  register_ok hash req s u s' h =
      let free = unless_exists user_exists (exists_by_username users req.username s) in
      let (hashed, hashing, made) =
        >>=-eq-ok
          (free >>= (λ _. unless_exists email_exists (exists_by_email users req.email s)) >>= λ _.
            hash req.password)
          _ h in
      let (_, checks, hashing') =
        >>=-eq-ok (free >>= λ _. unless_exists email_exists (exists_by_email users req.email s)) _
          hashing in
      let (_, name_free, email_free) = >>=-eq-ok free _ checks in
      let (i, same, added) = inserted_row (new_user req hashed) s u s' made in
      (
        no_username req.username s (unless_exists-eq-ok user_exists _ name_free),
        no_email req.email s (unless_exists-eq-ok email_exists _ email_free),
        (hashed, i, hashing', same, added),
      )

  -- A login that succeeds found the account of the name, whose stored password the given one
  -- matches, and answers with that account and a token signed for it.
  pub login_ok :
      (same : String → String → Bool) (sign : User → Result String) (req : LoginRequest) (s : S)
      (r : LoginResponse)
      → login users same sign req s ≡ ok r
      → (find? (by_username req.username) (users.rows s) ≡ some r.user)
        × (same r.user.password req.password ≡ true)
        × (sign r.user ≡ ok r.token)
  unfolding login find_by_username
  login_ok same sign req s r h =
      let (u, found, rest) =
        >>=-eq-ok (not_found_as_user (find_by_username users req.username s)) _ h in
      let stored = users.first_ok (by_username req.username) s u (not_found-eq-ok _ found) in
      elim (Bool-cases (same u.password req.password)) [
        | inl matches ↦
            let answer_of : String → LoginResponse = λ token. record { token = token; user = u } in
            let chain : (sign u >>= λ token. ok (answer_of token)) ≡ ok r = ground arith in
            let (token, signed, answer) =
              >>=-eq-ok (sign u) (λ token. ok (answer_of token)) chain in
            (ground arith, ground arith, ground arith)
        | inr differs ↦ ground arith
      ]

  with_email-eq-ok :
      (req : UpdateProfileRequest) (u v : User) (s : S)
      → with_email users req u s ≡ ok v
      → (v ≡ u)
        ⊎ (v ≡ record u { email = req.email }) × (count (by_email req.email) (users.rows s) ≡ 0)
  with_email-eq-ok req u v s h =
      elim (Bool-cases (not (str_eq req.email "") && not (str_eq req.email u.email))) [
        | inl new ↦
            let check = unless_exists email_exists (exists_by_email users req.email s) in
            let chain : (check >>= λ _. ok (record u { email = req.email })) ≡ ok v =
              ground arith in
            let (_, free, same) =
              >>=-eq-ok check (λ _. ok (record u { email = req.email })) chain in
            inr (ground arith, no_email req.email s (unless_exists-eq-ok email_exists _ free))
        | inr kept ↦ inl (ground arith)
      ]

  -- A change of profile that succeeds leaves everything of the stored account but its e-mail
  -- address as it was, the phone number too, whatever phone number the request names. A new e-mail
  -- address is the one of the request, and no account had it.
  pub update_profile_ok :
      (id : ℕ) (req : UpdateProfileRequest) (s : S) (u : User) (s' : S)
      → update_profile users id req s ≡ ok (u, s')
      → (old : User) × (find? (λ r. r.id == id) (users.rows s) ≡ some old)
        × (u.phone ≡ old.phone)
        × (u.username ≡ old.username)
        × (u.password ≡ old.password)
        × (u.role ≡ old.role)
        × ((u.email ≡ old.email)
            ⊎ (u.email ≡ req.email) × (count (by_email req.email) (users.rows s) ≡ 0))
  unfolding update_profile find_by_id
  update_profile_ok id req s u s' h =
      let (v, changed, saved) =
        >>=-eq-ok (not_found_as_user (find_by_id users id s) >>= λ u. with_email users req u s) _
          h in
      let (old, found, mailed) = >>=-eq-ok (not_found_as_user (find_by_id users id s)) _ changed in
      let stored = users.first_ok (λ r. r.id == id) s old (not_found-eq-ok _ found) in
      let same : (i : ℕ) × (u ≡ record v { id = i }) = elim (Bool-cases (v.id == 0)) [
        | inl new ↦ let (i, kept, _) = users.save_new v s u s' (ground arith) saved in (i, kept)
        | inr known ↦ elim (Bool-cases (count (λ q. q.id == v.id) (users.rows s) == 0)) [
          | inl gone ↦
              let (kept, _) =
                users.save_absent v s u s' (λ z. ground arith) (ground (arith, gone)) saved in
              (v.id, kept)
          | inr there ↦
              let (kept, _) =
                users.save_old v s u s' (λ z. ground arith) (λ z. ground (arith, there, z)) saved in
              (v.id, kept)
        ]
      ] in
      elim (with_email-eq-ok req old v s mailed) [
        | inl kept ↦ (
          old,
          stored,
          ground arith,
          ground arith,
          ground arith,
          ground arith,
          inl (ground arith),
        )
        | inr (new, free) ↦ (
          old,
          stored,
          ground arith,
          ground arith,
          ground arith,
          ground arith,
          inr (ground arith, free),
        )
      ]
