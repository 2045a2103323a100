-- ===== src/Config/Validity.antt =====
-- Which environments `Load` of internal/config/config.go accepts.
use mathlib.Core.Path.{subst}
use llm_gateway_platform.Prelude.{
  String, ◌≡◌, refl, sym, ◌≢◌, ◌↔◌, ◌⊎◌, inl, inr, false, none, List, [], ◌∷◌, arith, str_eq,
  eq_iff, All, Option-cases, Bool-cases,
}
use llm_gateway_platform.Prelude.Dict.{Dict}
use llm_gateway_platform.Float.{Float}
use llm_gateway_platform.Http.{Fallible, ok, fail, ok-injective}
use llm_gateway_platform.Config.{
  RouteTarget, PriceEntry, Routes, Prices, Config, System, get_string, get_routes, get_pricing,
  validate_route, validate_targets, validate_routes, validate_entries, validate_prices,
  validate_level, validate, config_of, after_decode, load,
}

abbrev IsTarget : RouteTarget → Type 0
IsTarget t = (t.provider ≢ "") × (t.model ≢ "")

-- Every route has a target, and every target names a provider and a model.
abbrev IsRoute : List RouteTarget → Type 0
IsRoute targets = (targets ≢ []) × All IsTarget targets

abbrev pub IsRoutes : Routes → Type 0
IsRoutes = All (λ (entry : String × List RouteTarget). IsRoute entry.1)

abbrev pub IsLevel : String → Type 0
IsLevel level = (level ≡ "debug") ⊎ (level ≡ "info") ⊎ (level ≡ "warn") ⊎ (level ≡ "error")

validate_targets_iff :
    (name : String) (ts : List RouteTarget) → (validate_targets name ts ≡ none) ↔ All IsTarget ts
unfolding validate_targets
validate_targets_iff name [] = (λ _. tt, λ _. refl)
validate_targets_iff name (t ∷ ts) =
    ground (arith, validate_targets_iff name ts, eq_iff t.provider "", eq_iff t.model "")

validate_route_iff :
    (name : String) (ts : List RouteTarget) → (validate_route name ts ≡ none) ↔ IsRoute ts
validate_route_iff name [] = (λ h. cc, λ (h, _). absurd (h refl))
validate_route_iff name (t ∷ ts) = (
  λ h. (λ e. cc, (validate_targets_iff name (t ∷ ts)).0 h),
  λ (_, h). (validate_targets_iff name (t ∷ ts)).1 h,
)

validate_routes_iff : (routes : Routes) → (validate_routes routes ≡ none) ↔ IsRoutes routes
unfolding validate_routes
validate_routes_iff [] = (λ _. tt, λ _. refl)
validate_routes_iff ((name, ts) ∷ routes) =
    ground (arith, validate_route_iff name ts, validate_routes_iff routes)

validate_level_iff :
    {F : Type 0} (f : Float F) (level : String) → (validate_level f level ≡ none) ↔ IsLevel level
unfolding validate_level
validate_level_iff f level =
    ground
      (arith, eq_iff level "debug", eq_iff level "info", eq_iff level "warn", eq_iff level "error")

module _ {F : Type 0} (f : Float F) where
  abbrev IsRate : PriceEntry F → Type 0
  IsRate p = (f.lt p.input_per_1m f.zero ≡ false) × (f.lt p.output_per_1m f.zero ≡ false)

  abbrev pub AreRates : Dict (PriceEntry F) → Type 0
  AreRates = All (λ (entry : String × PriceEntry F). IsRate entry.1)

  -- No rate is negative.
  abbrev pub IsPrices : Prices F → Type 0
  IsPrices = All (λ (entry : String × Dict (PriceEntry F)). AreRates entry.1)

  validate_entries_iff :
      (provider : String) (models : Dict (PriceEntry F))
      → (validate_entries f provider models ≡ none) ↔ AreRates models
  unfolding validate_entries
  validate_entries_iff provider [] = (λ _. tt, λ _. refl)
  validate_entries_iff provider ((model, p) ∷ models) =
      ground (arith, validate_entries_iff provider models)

  validate_prices_iff : (prices : Prices F) → (validate_prices f prices ≡ none) ↔ IsPrices prices
  unfolding validate_prices
  validate_prices_iff [] = (λ _. tt, λ _. refl)
  validate_prices_iff ((provider, models) ∷ prices) =
      ground (arith, validate_entries_iff provider models, validate_prices_iff prices)

  module _ (s : System F) where
    get_string_nonempty :
        (key fallback : String)
        → str_eq fallback "" ≡ false
        → str_eq (get_string s key fallback) "" ≡ false
    unfolding get_string
    get_string_nonempty key fallback h = elim (Option-cases (s.lookup_env key)) [
      | inl e ↦ rw (get_string, e) h
      | inr (v, e) ↦ elim (Bool-cases (str_eq v "")) [
        | inl empty ↦ rw (get_string, e, empty) h
        | inr filled ↦ rw (get_string, e, filled) filled
      ]
    ]

    -- The address is never empty, so the first test of `validate` does not fail.
    config_of_valid_iff :
        (routes : Routes) (prices : Prices F)
        → (validate f (config_of f s routes prices) ≡ none)
          ↔ (IsLevel (get_string s "GATEWAY_LOG_LEVEL" "info") × IsRoutes routes × IsPrices prices)
    unfolding config_of validate
    config_of_valid_iff routes prices = ground (
      arith,
      get_string_nonempty "GATEWAY_HTTP_ADDR" ":8080" refl,
      validate_level_iff f (get_string s "GATEWAY_LOG_LEVEL" "info"),
      validate_routes_iff routes,
      validate_prices_iff prices,
    )

    -- `c` is what is built from two decoded maps, all of it in order.
    abbrev pub Loads : Fallible Routes → Fallible (Prices F) → Config F → Type 0
    Loads r p c =
        (routes : Routes) × (prices : Prices F) × (r ≡ ok routes)
        × (p ≡ ok prices)
        × (c ≡ config_of f s routes prices)
        × IsLevel (get_string s "GATEWAY_LOG_LEVEL" "info")
        × IsRoutes routes
        × IsPrices prices

    after_decode_iff :
        (c : Config F) (r : Fallible Routes) (p : Fallible (Prices F))
        → (after_decode f s r p ≡ ok c) ↔ Loads r p c
    unfolding after_decode
    after_decode_iff c (fail e) p = (λ h. cc, λ (_, _, h, _, _, _, _, _). cc)
    after_decode_iff c (ok routes) (fail e) = (λ h. cc, λ (_, _, _, h, _, _, _, _). cc)
    after_decode_iff c (ok routes) (ok prices) =
        elim (Option-cases (validate f (config_of f s routes prices))) [
          | inl e ↦ rw e (
            λ h.
                let (level, fine, rates) = (config_of_valid_iff routes prices).0 e in
                (routes, prices, refl, refl, sym (ok-injective h), level, fine, rates),
            λ (_, _, h, k, q, _, _, _). cc,
          )
          | inr (x, e) ↦ rw e (
            λ h. cc,
            λ (_, _, h, k, _, level, fine, rates).
                let none_found = (config_of_valid_iff routes prices).1 (
                  level,
                  subst IsRoutes (sym (ok-injective h)) fine,
                  subst IsPrices (sym (ok-injective k)) rates,
                ) in
                cc,
          )
        ]

    -- `Load` returns a configuration exactly when both JSON variables decode (or are not set), the log
    -- level is one of the four, every route has a target, no target lacks a provider or a model, and no
    -- rate is negative; it is then the one built from the environment. The address is never the reason
    -- for an error, nor is a timeout.
    pub load_iff :
        (c : Config F)
        → (load f s ≡ ok c)
          ↔ Loads (get_routes s "GATEWAY_ROUTES") (get_pricing s "GATEWAY_PRICING") c
    unfolding load
    load_iff c =
        after_decode_iff c (get_routes s "GATEWAY_ROUTES") (get_pricing s "GATEWAY_PRICING")
