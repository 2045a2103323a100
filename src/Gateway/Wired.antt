-- ===== src/Gateway/Wired.antt =====
-- What a router that `Build` of internal/gateway/build.go returns is like.
use mathlib.Core.Path.{subst}
use llm_gateway_platform.Prelude.{
  String, ◌≡◌, refl, sym, ◌∙◌, ap, inl, inr, none, some, List, [], ◌∷◌, arith, All, Bool-cases,
  length, ◌==◌,
}
use llm_gateway_platform.Prelude.Dict.{Dict, lookup, IsMap, lookup-nil}
use llm_gateway_platform.Float.{Float}
use llm_gateway_platform.Provider.{Name}
use llm_gateway_platform.Http.{ok, ok-injective}
use llm_gateway_platform.Adapter.{AllExclusive}
use llm_gateway_platform.Router.{
  Target, Route, Provider, Router, resolve, lookup_provider, lookup_limiter,
}
use llm_gateway_platform.Pricing.{Table}
use llm_gateway_platform.Config.{Config}
use llm_gateway_platform.Gateway.{
  Backends, Wiring, add_backends, after_backends, install_routes, build, price_table,
}
use llm_gateway_platform.Gateway.Routes.{
  and_then-ok, AllRegistered, install_routes_keeps, RoutesRegistered,
  install_routes-RoutesRegistered, install_routes-lookup, route_or,
}
use llm_gateway_platform.Gateway.Registration.{IsWired, ArePlain, add_backends-IsWired}

module _ {F K T W : Type 0} (f : Float F) (b : Backends F K T W) (plainly : ArePlain b) where
  -- A router with no limiter and no default route, whose providers return a response or an error, and whose
  -- routes name registered providers only.
  pub record Wired (cfg : Config F) (r : Router F W) : Type 0 where
    pub routed :
        (model : String)
        → IsMap cfg.routes
        → resolve r model ≡ route_or (lookup model cfg.routes) none
    pub all_registered :
        (model : String) (route : Route)
        → resolve r model ≡ some route
        → All
            (λ (t : Target). (p : Provider F W) × (lookup_provider r t.provider ≡ some p))
            route.targets
    pub exclusive : AllExclusive r
    pub unlimited : (name : Name) → lookup_limiter r name ≡ none

  -- Without a default route the route is the model's own.
  resolve_own :
      (r : Router F W) (model : String)
      → r.fallback.targets ≡ []
      → resolve r model ≡ lookup model r.routes
  unfolding resolve
  resolve_own r model h = ground (arith, h)

  lookup_in_empty : {V : Type 0} (k : String) (d : Dict V) → d ≡ [] → lookup k d ≡ none
  lookup_in_empty k d h = ap (lookup k) h ∙ lookup-nil k

  empty-RoutesRegistered :
      (w : Wiring F W) → w.router.routes ≡ [] → RoutesRegistered w.registered w.router
  empty-RoutesRegistered w h model route found =
      let missing = lookup_in_empty model w.router.routes h in cc

  same_lookup_provider :
      (r r' : Router F W)
      → r'.providers ≡ r.providers
      → (name : Name) → lookup_provider r' name ≡ lookup_provider r name
  unfolding lookup_provider
  same_lookup_provider r r' h name = ap (lookup name) h

  registered_of :
      (w : Wiring F W) (r : Router F W) (targets : List Target)
      → IsWired w
      → r.providers ≡ w.router.providers
      → AllRegistered w.registered targets
      → All (λ (t : Target). (p : Provider F W) × (lookup_provider r t.provider ≡ some p)) targets
  registered_of w r [] old same all = tt
  registered_of w r (t ∷ ts) old same (known, all) =
      let (p, found) = old.complete t.provider known in
      (
        (p, same_lookup_provider w.router r same t.provider ∙ found),
        registered_of w r ts old same all,
      )

  lookup_limiter-none :
      (r : Router F W) (name : Name) → r.limiters ≡ [] → lookup_limiter r name ≡ none
  unfolding lookup_limiter lookup
  lookup_limiter-none r name h = rw h refl

  routes-Wired :
      (cfg : Config F) (w : Wiring F W) (r : Router F W)
      → install_routes w.registered cfg.routes w.router ≡ ok r
      → IsWired w
      → Wired cfg r
  routes-Wired cfg w r installed old =
      let (same, limiters, fallback) =
        install_routes_keeps w.registered cfg.routes w.router r installed in
      let own = λ (model : String). resolve_own r model (rw fallback old.no_default) in
      record {
        routed = λ model map.
            own model
            ∙ install_routes-lookup w.registered model cfg.routes w.router r map installed
            ∙ ap (route_or (lookup model cfg.routes))
                (lookup_in_empty model w.router.routes old.no_route);
        all_registered = λ model route found. registered_of w r route.targets old same (
            install_routes-RoutesRegistered w.registered cfg.routes w.router r installed
              (empty-RoutesRegistered w old.no_route) model route (sym (own model) ∙ found));
        exclusive = λ name p found.
            old.exclusive name p (sym (same_lookup_provider w.router r same name) ∙ found);
        unlimited = λ name. lookup_limiter-none r name (rw limiters old.no_limiter);
      }

  after_backends-Wired :
      (cfg : Config F) (w : Wiring F W) (r : Router F W) (table : Table F)
      → after_backends f b cfg w ≡ ok (r, table)
      → IsWired w
      → Wired cfg r
  unfolding after_backends
  after_backends-Wired cfg w r table h old = elim (Bool-cases (length w.registered == 0)) [
    | inl none_there ↦ let bad = rw none_there at h in cc
    | inr some_there ↦
        let (r', installed, rest) =
          and_then-ok (install_routes w.registered cfg.routes w.router) _ (r, table)
            (rw some_there at h) in
        let (t, made, same) = and_then-ok (price_table f b cfg.pricing) _ (r, table) rest in
        subst (Wired cfg) (ap (λ x. x.0) (ok-injective same)) (routes-Wired cfg w r' installed old)
  ]

  -- Where no error of the codings wraps a *provider.Error, for what `Build` returns without an
  -- error, and routes that are a map: a model resolves to the targets that the configuration lists
  -- for it, and to no route if it lists none; every target's provider is registered; every
  -- registered provider stands under its own name and returns a response that names it or an error,
  -- never both and never none; and no provider has a rate limiter.
  pub build-Wired :
      (cfg : Config F) (r : Router F W) (table : Table F)
      → build f b cfg ≡ ok (r, table)
      → Wired cfg r
  unfolding build
  build-Wired cfg r table h =
      let (w, added, rest) = and_then-ok (add_backends f b cfg) _ (r, table) h in
      after_backends-Wired cfg w r table rest (add_backends-IsWired f b plainly cfg w added)
