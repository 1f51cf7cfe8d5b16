-- ===== src/Server/Audience.antt =====
-- Who reaches which handler of cmd/server, cmd/order-service and cmd/inventory-service.
use distributed_software_hom.Prelude.{
  ℕ, String, Bool, true, false, ◌&&◌, ◌≡◌, ◌∙◌, refl, sym, ap, subst, inl, inr, some, Option-cases,
  List, [], ◌∷◌, arith,
}
use distributed_software_hom.Prelude.Int.{pos}
use distributed_software_hom.User.Auth.{
  number, Context, Gate, abort, next, Jwt, split_space, jwt_auth,
}
use distributed_software_hom.User.Auth.Tokens.{IsTokenOf, jwt_auth-IsTokenOf, admin_required-role}
use distributed_software_hom.Server.{
  Service, single_process, order_service, inventory_service, routes_of, Method, Group, public_group,
  auth_group, admin_group, Endpoint, user_register, user_login, user_profile, user_update,
  product_list, product_get, product_create, product_update, product_delete, inventory_get,
  inventory_set, inventory_deduct, order_create, order_list, order_get, order_cancel, seckill_buy,
  seckill_result, Entry, match_entry, find_entry, admitted, guard, then_admin, behind, serve,
}

-- Who may call a handler: everyone, a user, or an administrator.
abbrev pub audience : Endpoint → Group
audience user_register = public_group
audience user_login = public_group
audience product_list = public_group
audience product_get = public_group
audience inventory_get = public_group
audience product_create = admin_group
audience product_update = admin_group
audience product_delete = admin_group
audience inventory_set = admin_group
audience inventory_deduct = admin_group
audience user_profile = auth_group
audience user_update = auth_group
audience order_create = auth_group
audience order_list = auth_group
audience order_get = auth_group
audience order_cancel = auth_group
audience seckill_buy = auth_group
audience seckill_result = auth_group

abbrev pub same_group : Group → Group → Bool
same_group public_group public_group = true
same_group auth_group auth_group = true
same_group admin_group admin_group = true
same_group g h = false

-- Every route stands in the group of its audience.
abbrev pub is_guarded : List Entry → Bool
is_guarded [] = true
is_guarded (e ∷ es) = same_group (audience e.endpoint) e.group && is_guarded es

routes_guarded : (v : Service) → is_guarded (routes_of v) ≡ true
routes_guarded single_process = refl
routes_guarded order_service = refl
routes_guarded inventory_service = refl

same_group-eq : (g h : Group) → same_group g h ≡ true → g ≡ h
same_group-eq public_group public_group e = refl
same_group-eq auth_group auth_group e = refl
same_group-eq admin_group admin_group e = refl
same_group-eq public_group auth_group e = ground arith
same_group-eq public_group admin_group e = ground arith
same_group-eq auth_group public_group e = ground arith
same_group-eq auth_group admin_group e = ground arith
same_group-eq admin_group public_group e = ground arith
same_group-eq admin_group auth_group e = ground arith

find_entry-audience :
    (es : List Entry) (m : Method) (path : List String) (e : Entry) (ps : List String)
    → is_guarded es ≡ true
    → find_entry es m path ≡ some (e, ps)
    → e.group ≡ audience e.endpoint
unfolding find_entry
find_entry-audience [] m path e ps h found = absurd (ground (arith, found))
find_entry-audience (x ∷ es) m path e ps h found = elim (Option-cases (match_entry m path x)) [
  | inl miss ↦
      find_entry-audience es m path e ps (ground (arith, h)) (rw (miss, find_entry) at found)
  | inr (qs, hit) ↦
      let same : x ≡ e = ground (arith, found, hit) in
      let fits : audience x.endpoint ≡ x.group =
        same_group-eq (audience x.endpoint) x.group (ground (arith, h)) in
      subst (λ (y : Entry). y.group ≡ audience y.endpoint) same (sym fits)
]

module _ {F : Type 0} (jwt : Jwt F) (secret : String) where
  -- The request carries a token that is signed with the program's secret, and the context holds the
  -- user id and the role of its claims.
  abbrev pub IsKnown : String → ℕ → Context F → Type 0
  IsKnown header now c = IsTokenOf jwt secret now (split_space header) c

  -- What the middleware has made sure of for an audience.
  abbrev pub IsGranted : Group → String → ℕ → Context F → Type 0
  IsGranted public_group header now c = Unit
  IsGranted auth_group header now c = IsKnown header now c
  IsGranted admin_group header now c =
      IsKnown header now c × ((x : F) × (c.role ≡ some (number x)) × (jwt.to_int16 x ≡ pos 1))

  then_admin-IsGranted :
      (header : String) (now : ℕ) (g : Gate F) (c : Context F)
      → jwt_auth jwt secret header now ≡ g
      → then_admin jwt secret g ≡ next c
      → IsGranted admin_group header now c
  then_admin-IsGranted header now (abort code) c is h = absurd (ground (arith, h))
  then_admin-IsGranted header now (next k) c is h =
      let (same, role) = admin_required-role jwt k c h in
      (jwt_auth-IsTokenOf jwt secret header now c (is ∙ ap next same), role)

  guard-IsGranted :
      (g : Group) (header : String) (now : ℕ) (c : Context F)
      → guard jwt secret g header now ≡ next c
      → IsGranted g header now c
  unfolding guard
  guard-IsGranted public_group header now c h = tt
  guard-IsGranted auth_group header now c h = jwt_auth-IsTokenOf jwt secret header now c h
  guard-IsGranted admin_group header now c h =
      then_admin-IsGranted header now (jwt_auth jwt secret header now) c refl h

  behind-IsGranted :
      (g : Group) (header : String) (now : ℕ) (gate : Gate F) (e e' : Endpoint)
      (ps ps' : List String) (c : Context F)
      → ((k : Context F) → gate ≡ next k → IsGranted g header now k)
      → g ≡ audience e
      → behind jwt secret gate e ps ≡ admitted c e' ps'
      → IsGranted (audience e') header now c
  behind-IsGranted g header now (abort code) e e' ps ps' c granted fits h =
      absurd (ground (arith, h))
  behind-IsGranted g header now (next k) e e' ps ps' c granted fits h =
      let same : k ≡ c = ground (arith, h) in
      let endpoint : e ≡ e' = ground (arith, h) in
      subst (λ x. IsGranted x header now c) (fits ∙ ap audience endpoint) (granted c (ap next same))

  -- Behind routes that stand in the groups of their audience, handlers run for their audience only.
  guarded-IsGranted :
      (routes : List Entry) (m : Method) (path : List String) (header : String) (now : ℕ)
      (c : Context F) (e : Endpoint) (ps : List String)
      → is_guarded routes ≡ true
      → serve jwt secret routes m path header now ≡ admitted c e ps
      → IsGranted (audience e) header now c
  unfolding serve
  guarded-IsGranted routes m path header now c e ps guarded h =
      elim (Option-cases (find_entry routes m path)) [
        | inl none_found ↦ absurd (ground (arith, h, none_found))
        | inr ((x, qs), found) ↦
            behind-IsGranted x.group header now (guard jwt secret x.group header now) x.endpoint e
              qs ps c (guard-IsGranted x.group header now)
              (find_entry-audience routes m path x qs guarded found) (ground (arith, h, found))
      ]

  -- In each of the three programs, a handler for users runs only for a request that carries, after the
  -- word Bearer, a token that is signed with the program's secret, and finds in its context the user
  -- id and the role that the claims of this token say; a handler that changes products or stock runs
  -- only if that role is the administrator's too.
  pub serve-IsGranted :
      (v : Service) (m : Method) (path : List String) (header : String) (now : ℕ) (c : Context F)
      (e : Endpoint) (ps : List String)
      → serve jwt secret (routes_of v) m path header now ≡ admitted c e ps
      → IsGranted (audience e) header now c
  serve-IsGranted v m path header now c e ps h =
      guarded-IsGranted (routes_of v) m path header now c e ps (routes_guarded v) h
