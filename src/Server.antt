-- ===== src/Server.antt =====
-- The HTTP interface of cmd/server/main.go, cmd/order-service/main.go and cmd/inventory-service/main.go:
-- the routes that the handlers register in the groups of the router, and the middleware that stands
-- before each group. gin splits a path at its slashes, which is an argument here; no two of the
-- routes match the same path. gin's redirect of a path with a slash at its end is left out.
pub mod Audience
use distributed_software_hom.Prelude.{
  ℕ, String, Bool, true, false, Option, none, some, List, [], ◌∷◌, ◌++◌, map, str_eq, if◌then◌else◌,
}
use distributed_software_hom.User.Auth.{Context, Gate, abort, next, Jwt, jwt_auth, admin_required}

pub data Method : Type 0 where
  get post put delete : Method

-- A part of a pattern: a text, or `:name`.
pub data Segment : Type 0 where
  lit : String → Segment
  param : Segment

pub data Group : Type 0 where
  public_group auth_group admin_group : Group

-- The handlers that a route may name.
pub data Endpoint : Type 0 where
  user_register user_login user_profile user_update : Endpoint
  product_list product_get product_create product_update product_delete : Endpoint
  inventory_get inventory_set inventory_deduct : Endpoint
  order_create order_list order_get order_cancel : Endpoint
  seckill_buy seckill_result : Endpoint

pub record Entry : Type 0 where
  pub method : Method
  pub pattern : List Segment
  pub group : Group
  pub endpoint : Endpoint

abbrev pub entry : Group → Method → List Segment → Endpoint → Entry
entry g m p e = record { method = m; pattern = p; group = g; endpoint = e }

-- `RegisterRoutes` of each handler, with the groups that `main` gives it.
abbrev pub user_routes : List Entry
user_routes =
    entry public_group post (lit "auth" ∷ lit "register" ∷ []) user_register
    ∷ entry public_group post (lit "auth" ∷ lit "login" ∷ []) user_login
    ∷ entry auth_group get (lit "user" ∷ lit "profile" ∷ []) user_profile
    ∷ entry auth_group put (lit "user" ∷ lit "profile" ∷ []) user_update
    ∷ []

abbrev pub product_routes : List Entry
product_routes =
    entry public_group get (lit "products" ∷ []) product_list
    ∷ entry public_group get (lit "products" ∷ param ∷ []) product_get
    ∷ entry admin_group post (lit "products" ∷ []) product_create
    ∷ entry admin_group put (lit "products" ∷ param ∷ []) product_update
    ∷ entry admin_group delete (lit "products" ∷ param ∷ []) product_delete
    ∷ []

abbrev pub inventory_routes : List Entry
inventory_routes =
    entry public_group get (lit "inventory" ∷ param ∷ []) inventory_get
    ∷ entry admin_group put (lit "inventory" ∷ param ∷ []) inventory_set
    ∷ entry admin_group post (lit "inventory" ∷ param ∷ lit "deduct" ∷ []) inventory_deduct
    ∷ []

abbrev pub order_routes : List Entry
order_routes =
    entry auth_group post (lit "orders" ∷ []) order_create
    ∷ entry auth_group get (lit "orders" ∷ []) order_list
    ∷ entry auth_group get (lit "orders" ∷ param ∷ []) order_get
    ∷ entry auth_group put (lit "orders" ∷ param ∷ lit "cancel" ∷ []) order_cancel
    ∷ []

abbrev pub seckill_routes : List Entry
seckill_routes =
    entry auth_group post (lit "seckill" ∷ []) seckill_buy
    ∷ entry auth_group get (lit "seckill" ∷ lit "result" ∷ []) seckill_result
    ∷ []

-- `r.Group("/api/v1")`
abbrev pub under_api : Entry → Entry
under_api e = record e { pattern = lit "api" ∷ lit "v1" ∷ e.pattern }

-- The single-process server, the order service and the inventory service.
abbrev pub server_routes : List Entry
server_routes =
    map under_api
      (user_routes ++ product_routes ++ inventory_routes ++ order_routes ++ seckill_routes)

abbrev pub order_service_routes : List Entry
order_service_routes =
    map under_api (user_routes ++ product_routes ++ order_routes ++ seckill_routes)

abbrev pub inventory_service_routes : List Entry
inventory_service_routes = map under_api inventory_routes

-- The three programs with an HTTP interface behind the gateway.
pub data Service : Type 0 where
  single_process order_service inventory_service : Service

abbrev pub routes_of : Service → List Entry
routes_of single_process = server_routes
routes_of order_service = order_service_routes
routes_of inventory_service = inventory_service_routes

abbrev pub same_method : Method → Method → Bool
same_method get get = true
same_method post post = true
same_method put put = true
same_method delete delete = true
same_method m n = false

-- The parameters of a path that a pattern matches; a parameter is not empty.
abbrev pub match_path : List Segment → List String → Option (List String)
match_path [] [] = some []
match_path [] (t ∷ ts) = none
match_path (s ∷ ss) [] = none
match_path (lit x ∷ ss) (t ∷ ts) = let rest = match_path ss ts in if str_eq x t then rest else none
match_path (param ∷ ss) (t ∷ ts) =
    let rest = match_path ss ts in
    if str_eq t "" then none else elim rest [ none ↦ none | some ps ↦ some (t ∷ ps) ]

abbrev pub match_entry : Method → List String → Entry → Option (List String)
match_entry m path e = if same_method e.method m then match_path e.pattern path else none

unfoldable pub find_entry : List Entry → Method → List String → Option (Entry × List String)
find_entry [] m path = none
find_entry (e ∷ es) m path = elim (match_entry m path e) [
  | none ↦ find_entry es m path
  | some ps ↦ some (e, ps)
]

-- How a request ends at the router: no route, a refusal by the middleware, or a handler that runs.
pub data Access (F : Type 0) : Type 0 where
  missing : Access F
  refused : ℕ → Access F
  admitted : Context F → Endpoint → List String → Access F

module _ {F : Type 0} (jwt : Jwt F) (secret : String) where
  abbrev pub then_admin : Gate F → Gate F
  then_admin (abort code) = abort code
  then_admin (next c) = admin_required jwt c

  -- The middleware of a group.
  unfoldable pub guard : Group → String → ℕ → Gate F
  guard public_group header now = next (record { user_id = none; username = none; role = none })
  guard auth_group header now = jwt_auth jwt secret header now
  guard admin_group header now = then_admin (jwt_auth jwt secret header now)

  abbrev pub behind : Gate F → Endpoint → List String → Access F
  behind (abort code) e ps = refused code
  behind (next c) e ps = admitted c e ps

  unfoldable pub serve : List Entry → Method → List String → String → ℕ → Access F
  serve routes m path header now = elim (find_entry routes m path) [
    | none ↦ missing
    | some (e, ps) ↦ behind (guard e.group header now) e.endpoint ps
  ]
