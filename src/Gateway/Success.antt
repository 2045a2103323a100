-- ===== src/Gateway/Success.antt =====
-- When `Build` of internal/gateway/build.go succeeds on a configuration that `Load` of
-- internal/config/config.go returned.
use llm_gateway_platform.Prelude.{
  String, ◌≡◌, refl, sym, ◌∙◌, ap, ◌↔◌, inl, inr, Bool, true, false, not, ◌||◌, List, [], ◌∷◌,
  Bool-cases, All, length, ◌==◌,
}
use llm_gateway_platform.Prelude.Dict.{Dict}
use llm_gateway_platform.Float.{Float, IsIeee}
use llm_gateway_platform.Http.{ok}
use llm_gateway_platform.Pricing.{Table, default_table, merge}
use llm_gateway_platform.Router.{Router}
use llm_gateway_platform.Config.{RouteTarget, Config, System, load}
use llm_gateway_platform.Gateway.{
  Backends, Wiring, is_registered, install_routes, to_pricing_table, price_table, after_backends,
  build, add_backends,
}
use llm_gateway_platform.Gateway.Routes.{and_then-ok}
use llm_gateway_platform.Gateway.Order.{
  AllKnown, Entries, install_routes-Entries, install_routes_known,
}
use llm_gateway_platform.Gateway.Rates.{price_table_of_load}
use llm_gateway_platform.Gateway.Enabled.{
  has_anthropic, has_openai, has_bedrock, enabled, add_backends-listed, listed-enabled,
}

module _ {F : Type 0} (cfg : Config F) where
  -- Every target of the list has a backend with credentials.
  abbrev pub AllEnabled : List RouteTarget → Type 0
  AllEnabled = All (λ (t : RouteTarget). enabled cfg t.provider ≡ true)

  -- Some backend has its credentials, and so has that of every target of every route.
  abbrev pub CanBuild : Type 0
  CanBuild =
      ((has_bedrock cfg || (has_openai cfg || has_anthropic cfg)) ≡ true)
      × Entries AllEnabled cfg.routes

  module _ (registered : Dict Bool)
      (known : (name : String) → is_registered registered name ≡ enabled cfg name) where
    known→enabled : (ts : List RouteTarget) → AllKnown registered ts → AllEnabled ts
    known→enabled [] h = tt
    known→enabled (t ∷ ts) (here, h) = (sym (known t.provider) ∙ here, known→enabled ts h)

    enabled→known : (ts : List RouteTarget) → AllEnabled ts → AllKnown registered ts
    enabled→known [] h = tt
    enabled→known (t ∷ ts) (here, h) = (known t.provider ∙ here, enabled→known ts h)

any_of : (x : Bool) → not x ≡ false → x ≡ true
any_of true h = refl
any_of false h = cc

module _ {A B : List RouteTarget → Type 0} (widen : (ts : List RouteTarget) → A ts → B ts) where
  map-Entries : (routes : Dict (List RouteTarget)) → Entries A routes → Entries B routes
  map-Entries [] h = tt
  map-Entries ((name, ts) ∷ routes) (here, h) = (widen ts here, map-Entries routes h)

module _ {F K T W : Type 0} (f : Float F) (b : Backends F K T W) (cfg : Config F) where
  -- `Build` returns a router and the configured prices over the built-in ones.
  abbrev pub Builds : Type 0
  Builds =
      (r : Router F W) × (build f b cfg
        ≡ ok (r, merge (default_table f) (to_pricing_table cfg.pricing [])))

  module _
      (priced : price_table f b cfg.pricing
        ≡ ok (merge (default_table f) (to_pricing_table cfg.pricing []))) where
    builds :
        (w : Wiring F W)
        → add_backends f b cfg ≡ ok w
        → (length w.registered == 0) ≡ false
        → Entries (AllKnown w.registered) cfg.routes
        → Builds
    unfolding build after_backends
    builds w added some_there known =
        let (r, installed) = install_routes_known w.registered cfg.routes w.router known in
        (r, rw (added, some_there, installed, priced) refl)

  built-routes :
      (r : Router F W) (table : Table F) (w : Wiring F W)
      → add_backends f b cfg ≡ ok w
      → build f b cfg ≡ ok (r, table)
      → ((length w.registered == 0) ≡ false) × Entries (AllKnown w.registered) cfg.routes
  unfolding build after_backends
  built-routes r table w added h =
      let started = rw added at h in
      elim (Bool-cases (length w.registered == 0)) [
        | inl none_there ↦ let bad = rw none_there at started in cc
        | inr some_there ↦
            let (r₁, installed, _) =
              and_then-ok (install_routes w.registered cfg.routes w.router) _ (r, table)
                (rw some_there at started) in
            (some_there, install_routes-Entries w.registered cfg.routes w.router r₁ installed)
      ]

  -- A router that `Build` returned has a backend, and one for every target.
  pub built-CanBuild :
      (r : Router F W) (table : Table F) → build f b cfg ≡ ok (r, table) → CanBuild cfg
  built-CanBuild r table h =
      let (w, added, same) = add_backends-listed f b cfg in
      let (known, empty) = listed-enabled cfg in
      let (some_there, routes) = built-routes r table w added h in
      (
        any_of _ (sym (ap (λ x. length x == 0) same ∙ empty) ∙ some_there),
        map-Entries
            (known→enabled cfg w.registered
              (λ name. ap (λ x. is_registered x name) same ∙ known name))
            cfg.routes routes,
      )

  -- Where float64 keeps the laws of IEEE 754 that IsIeee lists, and on a configuration that `Load`
  -- returned: `Build` succeeds exactly when some backend has its credentials, and so has the backend of
  -- every target of every route; the prices are then the configured ones over the built-in ones.
  pub build_iff : (s : System F) → IsIeee f → load f s ≡ ok cfg → Builds ↔ CanBuild cfg
  build_iff s ieee loaded =
      let (w, added, same) = add_backends-listed f b cfg in
      let (known, empty) = listed-enabled cfg in
      (
        λ (r, h). built-CanBuild r _ h,
        λ (any, routes).
            builds (price_table_of_load f b ieee s cfg loaded) w added
              (ap (λ x. length x == 0) same ∙ empty ∙ ap not any)
              (map-Entries
                (enabled→known cfg w.registered
                  (λ name. ap (λ x. is_registered x name) same ∙ known name))
                cfg.routes routes),
      )
