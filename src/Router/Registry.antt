-- ===== src/Router/Registry.antt =====
-- The setters of internal/router/router.go as commands on an abstract registry, four functions with
-- no maps and no order: what the router's maps are for.
use llm_gateway_platform.Prelude.{
  String, ◌≡◌, refl, ◌∙◌, ap, Option, none, some, List, [], ◌∷◌, arith, str_eq, if◌then◌else◌,
}
use llm_gateway_platform.Prelude.Dict.{lookup, lookup-insert, lookup-nil}
use llm_gateway_platform.Provider.{Name}
use llm_gateway_platform.Router.{
  Route, Provider, Limiter, Router, new, register, set_limiter, add_route, set_default_route,
  resolve, lookup_provider, lookup_limiter, default_route,
}
use llm_gateway_platform.Router.Setup.{lookup_provider-register, lookup_limiter-set}

-- A call of a setter.
pub data Command (F W : Type 0) : Type 0 where
  put_provider : Provider F W → Command F W
  put_limiter : Name → Option (Limiter W) → Command F W
  put_route : String → Route → Command F W
  put_default : Route → Command F W

-- What the router knows, as functions.
pub record Registry (F W : Type 0) : Type 0 where
  pub provider_of : Name → Option (Provider F W)
  pub limiter_of : Name → Option (Limiter W)
  pub route_of : String → Option Route
  pub default : Option Route

-- A function changed at one string.
abbrev pub updated {ℓ} : {A : Type ℓ} → (String → A) → String → A → String → A
updated f k v j = if str_eq k j then v else f j

abbrev first_route : Option Route → Option Route → Option Route
first_route none fallback = fallback
first_route (some route) fallback = some route

-- The route that serves a model.
abbrev pub route_for : {F W : Type 0} → Registry F W → String → Option Route
route_for a model = first_route (a.route_of model) a.default

module _ {F W : Type 0} where
  -- The command on the registry, and on the router.
  abbrev pub command : Command F W → Registry F W → Registry F W
  command (put_provider p) a = record a { provider_of = updated a.provider_of p.name (some p) }
  command (put_limiter name l) a = record a { limiter_of = updated a.limiter_of name l }
  command (put_route model route) a = record a { route_of = updated a.route_of model (some route) }
  command (put_default route) a = record a { default = default_route route }

  abbrev pub execute : Command F W → Router F W → Router F W
  execute (put_provider p) r = register p r
  execute (put_limiter name l) r = set_limiter name l r
  execute (put_route model route) r = add_route model route r
  execute (put_default route) r = set_default_route route r

  abbrev pub commands : List (Command F W) → Registry F W → Registry F W
  commands [] a = a
  commands (c ∷ cs) a = commands cs (command c a)

  abbrev pub execute_all : List (Command F W) → Router F W → Router F W
  execute_all [] r = r
  execute_all (c ∷ cs) r = execute_all cs (execute c r)

  -- A registry that knows nothing.
  abbrev pub empty : Registry F W
  empty = record {
    provider_of = λ _. none;
    limiter_of = λ _. none;
    route_of = λ _. none;
    default = none;
  }

  -- The router's maps hold what the registry says.
  record Holds (r : Router F W) (a : Registry F W) : Type 0 where
    pub providers : (name : Name) → lookup_provider r name ≡ a.provider_of name
    pub limiters : (name : Name) → lookup_limiter r name ≡ a.limiter_of name
    pub routes : (model : String) → lookup model r.routes ≡ a.route_of model
    pub default : default_route r.fallback ≡ a.default

  new-Holds : Holds new empty
  unfolding new lookup_provider lookup_limiter
  new-Holds = record {
    providers = λ name. lookup-nil name;
    limiters = λ name. rw lookup-nil;
    routes = λ model. lookup-nil model;
    default = refl;
  }

  execute-Holds :
      (c : Command F W) (r : Router F W) (a : Registry F W)
      → Holds r a
      → Holds (execute c r) (command c a)
  unfolding register set_limiter add_route set_default_route lookup_limiter lookup_provider
  execute-Holds (put_provider p) r a h = record {
    providers = λ name.
        lookup_provider-register r p name
        ∙ ap (λ x. if str_eq p.name name then some p else x) (h.providers name);
    limiters = h.limiters;
    routes = h.routes;
    default = h.default;
  }
  execute-Holds (put_limiter name l) r a h = record {
    providers = h.providers;
    limiters = λ other.
        lookup_limiter-set r name other l
        ∙ ap (λ x. if str_eq name other then l else x) (h.limiters other);
    routes = h.routes;
    default = h.default;
  }
  execute-Holds (put_route model route) r a h = record {
    providers = h.providers;
    limiters = h.limiters;
    routes = λ other.
        lookup-insert model other route r.routes
        ∙ ap (λ x. if str_eq model other then some route else x) (h.routes other);
    default = h.default;
  }
  execute-Holds (put_default route) r a h = record {
    providers = h.providers;
    limiters = h.limiters;
    routes = h.routes;
    default = refl;
  }

  execute_all-Holds :
      (cs : List (Command F W)) (r : Router F W) (a : Registry F W)
      → Holds r a
      → Holds (execute_all cs r) (commands cs a)
  execute_all-Holds [] r a h = h
  execute_all-Holds (c ∷ cs) r a h =
      execute_all-Holds cs (execute c r) (command c a) (execute-Holds c r a h)

  resolve-Holds :
      (r : Router F W) (a : Registry F W) (model : String)
      → Holds r a
      → resolve r model ≡ route_for a model
  unfolding resolve
  resolve-Holds r a model h = ground (arith, h.routes model, h.default)

  -- After any sequence of calls of `Register`, `SetLimiter`, `AddRoute` and `SetDefaultRoute` on a new
  -- router, the router finds under every name and for every model what the same commands leave in the
  -- registry: the provider and the limiter, and the route by which the model resolves.
  pub execute_all-commands :
      (cs : List (Command F W)) (name : Name) (model : String)
      → (lookup_provider (execute_all cs new) name ≡ (commands cs empty).provider_of name)
        × (lookup_limiter (execute_all cs new) name ≡ (commands cs empty).limiter_of name)
        × (resolve (execute_all cs new) model ≡ route_for (commands cs empty) model)
  execute_all-commands cs name model =
      let h = execute_all-Holds cs new empty new-Holds in
      (h.providers name, h.limiters name, resolve-Holds _ _ model h)
