-- ===== src/Gateway/Match.antt =====
-- cmd/gateway/main.go: `matchRoute` over the routes of `buildRoutes` is a longest-prefix match.
use distributed_software_hom.Prelude.{
  IsDescending, String, Bool, true, false, ◌≡◌, ◌≤◌, ◌⊎◌, inl, inr, refl, none, some, List, [], ◌∷◌,
  map, All, Any, All-weaken, All-in, find?, Bool-cases, starts_with, len, arith,
}
use distributed_software_hom.Gateway.{
  RouteConfig, Route, Sorter, route_of, prefix_len, build_routes, match_route,
}

-- The route `r` is one of the configured ones.
abbrev pub IsConfigured : List RouteConfig → Route → Type 0
IsConfigured rs r = Any (λ c. route_of c ≡ r) rs

-- The first route of a list in descending order that passes a test is a longest one.
find?-longest :
    (p : Route → Bool) (rs : List Route)
    → IsDescending prefix_len rs
    → ((find? p rs ≡ none) × All (λ r. p r ≡ false) rs)
      ⊎ ((r : Route) × (find? p rs ≡ some r)
          × (p r ≡ true)
          × Any (λ x. x ≡ r) rs
          × All (λ x. p x ≡ true → prefix_len x ≤ prefix_len r) rs)
find?-longest p [] h = inl (refl, tt)
find?-longest p (r ∷ rs) h = elim (Bool-cases (p r)) [
  | inl passing ↦ inr (
    r,
    rw passing refl,
    passing,
    inl refl,
    (λ _. omega arith, All-weaken _ _ (λ x le _. le) rs h.0),
  )
  | inr failing ↦ elim (find?-longest p rs h.1) [
    | inl (missing, none_passes) ↦ inl (rw failing missing, (failing, none_passes))
    | inr (x, found, passes, there, longest) ↦ inr (
      x,
      rw failing found,
      passes,
      inr there,
      (λ passing. absurd (ground (arith, failing, passing)), longest),
    )
  ]
]

All-map :
    {A B : Type 0} (f : A → B) (P : B → Type 0) (xs : List A)
    → All P (map f xs)
    → All (λ x. P (f x)) xs
All-map f P [] h = tt
All-map f P (x ∷ xs) h = (h.0, All-map f P xs h.1)

map-All :
    {A B : Type 0} (f : A → B) (P : B → Type 0) (xs : List A)
    → All (λ x. P (f x)) xs
    → All P (map f xs)
map-All f P [] h = tt
map-All f P (x ∷ xs) h = (h.0, map-All f P xs h.1)

each-Any : {A : Type 0} (xs : List A) → All (λ x. Any (λ y. y ≡ x) xs) xs
each-Any [] = tt
each-Any (x ∷ xs) = (inl refl, All-weaken _ _ (λ y there. inr there) xs (each-Any xs))

Any-IsConfigured :
    (rs : List RouteConfig) (r : Route) → Any (λ x. x ≡ r) (map route_of rs) → IsConfigured rs r
Any-IsConfigured [] r h = h
Any-IsConfigured (c ∷ rs) r (inl here) = inl here
Any-IsConfigured (c ∷ rs) r (inr there) = inr (Any-IsConfigured rs r there)

-- In whatever order the configuration lists the routes: either no configured prefix is one of the
-- path, and no route matches, or a configured route matches whose prefix is one of the path and at
-- least as long as every other configured prefix of the path.
pub match_route-longest :
    (sorter : Sorter prefix_len) (rs : List RouteConfig) (path : String)
    → ((match_route (build_routes sorter rs) path ≡ none)
        × All (λ c. starts_with path c.path_prefix ≡ false) rs)
      ⊎ ((r : Route) × (match_route (build_routes sorter rs) path ≡ some r)
          × IsConfigured rs r
          × (starts_with path r.prefix ≡ true)
          × All (λ c. starts_with path c.path_prefix ≡ true → len c.path_prefix ≤ len r.prefix) rs)
unfolding match_route build_routes
match_route-longest sorter rs path =
    let all = map route_of rs in
    let p : Route → Bool = λ r. starts_with path r.prefix in
    elim (find?-longest p (sorter.sort all) (sorter.sorted all)) [
      | inl (missing, none_passes) ↦
          inl (missing, All-map route_of _ rs ((sorter.same_elements _ all).1 none_passes))
      | inr (r, found, passes, there, longest) ↦ inr (
        r,
        found,
        All-in (IsConfigured rs) r (sorter.sort all)
            ((sorter.same_elements _ all).0
              (All-weaken _ _ (Any-IsConfigured rs) all (each-Any all)))
            there,
        passes,
        All-map route_of _ rs ((sorter.same_elements _ all).1 longest),
      )
    ]
