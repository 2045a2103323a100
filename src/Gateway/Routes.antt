-- ===== src/Gateway/Routes.antt =====
-- What the loop over the routes in `Build` of internal/gateway/build.go installs.
use mathlib.Core.Path.{subst}
use mathlib.Core.Option.{some-injective}
use llm_gateway_platform.Prelude.{
  String, ◌≡◌, refl, sym, ◌∙◌, ap, inl, inr, Bool, true, Option, none, some, List, [], ◌∷◌, map,
  arith, str_eq, eq_iff, All, Bool-cases,
}
use llm_gateway_platform.Prelude.Dict.{Dict, lookup, IsMap, lookup-insert, lookup-cons, lookup-nil}
use llm_gateway_platform.Http.{Fallible, ok, fail, ok-injective}
use llm_gateway_platform.Router.{Target, Route, Router, add_route}
use llm_gateway_platform.Config.{RouteTarget}
use llm_gateway_platform.Gateway.{and_then, is_registered, targets_of, install_routes}

-- A value that a chain returns comes from a value of its first part.
pub and_then-ok :
    {A B : Type 0} (a : Fallible A) (next : A → Fallible B) (b : B)
    → and_then a next ≡ ok b
    → (x : A) × (a ≡ ok x) × (next x ≡ ok b)
and_then-ok (fail e) next b h = cc
and_then-ok (ok x) next b h = (x, refl, h)

abbrev pub target_of : RouteTarget → Target
target_of t = record { provider = t.provider; model = t.model }

abbrev pub AllRegistered : Dict Bool → List Target → Type 0
AllRegistered registered = All (λ (t : Target). is_registered registered t.provider ≡ true)

-- The route made from what the configuration has, and else an older one.
abbrev pub route_or : Option (List RouteTarget) → Option Route → Option Route
route_or none old = old
route_or (some ts) old = some (record { targets = map target_of ts })

module _ (registered : Dict Bool) where
  targets_of-ok :
      (name : String) (ts : List RouteTarget) (made : List Target)
      → targets_of name registered ts ≡ ok made
      → (made ≡ map target_of ts) × AllRegistered registered made
  unfolding targets_of
  targets_of-ok name [] made h = rw (← ok-injective h) (refl, tt)
  targets_of-ok name (t ∷ ts) made h = elim (Bool-cases (is_registered registered t.provider)) [
    | inl known ↦
        let (others, found, same) =
          and_then-ok (targets_of name registered ts) _ made (rw known at h) in
        let (mapped, all) = targets_of-ok name ts others found in
        rw (← ok-injective same) (ap (target_of t ∷◌) mapped, (known, all))
    | inr unknown ↦ let bad = rw unknown at h in cc
  ]

  module _ {F W : Type 0} where
    -- The first turn of the loop, and the rest.
    pub install_routes-cons :
        (name : String) (ts : List RouteTarget) (routes : Dict (List RouteTarget))
        (r r' : Router F W)
        → install_routes registered ((name, ts) ∷ routes) r ≡ ok r'
        → AllRegistered registered (map target_of ts)
          × (install_routes registered routes
                (add_route name (record { targets = map target_of ts }) r)
              ≡ ok r')
    unfolding install_routes
    install_routes-cons name ts routes r r' h =
        let (made, found, rest) = and_then-ok (targets_of name registered ts) _ r' h in
        let (mapped, all) = targets_of-ok name ts made found in rw (← mapped) (all, rest)

    -- The providers, the limiters and the default route stay as they are.
    pub install_routes_keeps :
        (routes : Dict (List RouteTarget)) (r r' : Router F W)
        → install_routes registered routes r ≡ ok r'
        → (r'.providers ≡ r.providers) × (r'.limiters ≡ r.limiters) × (r'.fallback ≡ r.fallback)
    unfolding install_routes add_route
    install_routes_keeps [] r r' h = rw (← ok-injective h) (refl, refl, refl)
    install_routes_keeps ((name, ts) ∷ routes) r r' h =
        install_routes_keeps routes (add_route name (record { targets = map target_of ts }) r) r'
          (install_routes-cons name ts routes r r' h).1

    -- All routes that are installed name registered providers only.
    abbrev pub RoutesRegistered : Router F W → Type 0
    RoutesRegistered r =
        (model : String) (route : Route)
        → lookup model r.routes ≡ some route
        → AllRegistered registered route.targets

    add_route-RoutesRegistered :
        (name : String) (route : Route) (r : Router F W)
        → AllRegistered registered route.targets
        → RoutesRegistered r
        → RoutesRegistered (add_route name route r)
    unfolding add_route
    add_route-RoutesRegistered name route r all old model found h =
        elim (Bool-cases (str_eq name model)) [
          | inl same ↦
              let p = rw (lookup-insert name model route r.routes, same) at h in
              subst (λ (q : Route). AllRegistered registered q.targets) (some-injective _ _ p) all
          | inr differ ↦ old model found (rw (lookup-insert name model route r.routes, differ) at h)
        ]

    pub install_routes-RoutesRegistered :
        (routes : Dict (List RouteTarget)) (r r' : Router F W)
        → install_routes registered routes r ≡ ok r'
        → RoutesRegistered r
        → RoutesRegistered r'
    unfolding install_routes
    install_routes-RoutesRegistered [] r r' h old = subst RoutesRegistered (ok-injective h) old
    install_routes-RoutesRegistered ((name, ts) ∷ routes) r r' h old =
        let (all, rest) = install_routes-cons name ts routes r r' h in
        install_routes-RoutesRegistered routes
          (add_route name (record { targets = map target_of ts }) r) r' rest
          (add_route-RoutesRegistered name (record { targets = map target_of ts }) r all old)

    route_or-cons :
        (model name : String) (ts : List RouteTarget) (routes : Dict (List RouteTarget))
        (r : Router F W)
        → lookup name routes ≡ none
        → route_or
            (lookup model routes)
            (lookup model (add_route name (record { targets = map target_of ts }) r).routes)
          ≡ route_or (lookup model ((name, ts) ∷ routes)) (lookup model r.routes)
    unfolding add_route
    route_or-cons model name ts routes r fresh = ground (
      arith,
      lookup-insert name model (record { targets = map target_of ts }) r.routes,
      lookup-cons name model ts routes,
      eq_iff name model,
      fresh,
    )

    pub install_routes-lookup :
        (model : String) (routes : Dict (List RouteTarget)) (r r' : Router F W)
        → IsMap routes
        → install_routes registered routes r ≡ ok r'
        → lookup model r'.routes ≡ route_or (lookup model routes) (lookup model r.routes)
    unfolding install_routes
    install_routes-lookup model [] r r' m h =
        rw lookup-nil (ap (λ (q : Router F W). lookup model q.routes) (sym (ok-injective h)))
    install_routes-lookup model ((name, ts) ∷ routes) r r' (fresh, m) h =
        let (all, rest) = install_routes-cons name ts routes r r' h in
        let made : Route = record { targets = map target_of ts } in
        install_routes-lookup model routes (add_route name made r) r' m rest
        ∙ route_or-cons model name ts routes r fresh
