-- ===== src/Router/Setup.antt =====
-- The setters of internal/router/router.go, and what the router reads back.
use llm_gateway_platform.Prelude.{
  String, ◌≡◌, Option, none, some, [], ◌∷◌, arith, str_eq, if◌then◌else◌,
}
use llm_gateway_platform.Prelude.Dict.{lookup, lookup-insert}
use llm_gateway_platform.Provider.{Name}
use llm_gateway_platform.Router.{
  Route, Provider, Limiter, Router, register, set_limiter, add_route, set_default_route, resolve,
  lookup_provider, lookup_limiter,
}

module _ {F W : Type 0} (r : Router F W) where
  -- After `Register` a provider is found under its own name, also where another stood there before,
  -- and what is found under other names has not changed.
  pub lookup_provider-register :
      (p : Provider F W) (name : Name)
      → lookup_provider (register p r) name
        ≡ (if str_eq p.name name then some p else lookup_provider r name)
  unfolding lookup_provider register
  lookup_provider-register p name = lookup-insert p.name name p r.providers

  -- After `SetLimiter` the limiter is found under its name, and setting nil takes it away.
  pub lookup_limiter-set :
      (name other : Name) (l : Option (Limiter W))
      → lookup_limiter (set_limiter name l r) other
        ≡ (if str_eq name other then l else lookup_limiter r other)
  unfolding lookup_limiter set_limiter
  lookup_limiter-set name other l = rw lookup-insert (ground arith)

  -- A model that `AddRoute` has given a route resolves to that route, with or without targets; every
  -- other model resolves as before, by its own route first and then by the default route.
  pub resolve-add_route :
      (model other : String) (route : Route)
      → resolve (add_route model route r) other
        ≡ (if str_eq model other then some route else resolve r other)
  unfolding resolve add_route
  resolve-add_route model other route = ground (arith, lookup-insert model other route r.routes)

  -- `SetDefaultRoute` changes how the models resolve that have no route of their own: to the default
  -- route if it has targets, and otherwise to none.
  pub resolve-set_default_route :
      (model : String) (route : Route)
      → lookup model r.routes ≡ none
      → resolve (set_default_route route r) model
        ≡ elim route.targets [ [] ↦ none | _ ∷ _ ↦ some route ]
  unfolding resolve set_default_route
  resolve-set_default_route model route missing = ground (arith, missing)
