-- ===== src/Main/Startup.antt =====
-- When `run` of cmd/gateway/main.go gets to `Start`.
use llm_gateway_platform.Prelude.{◌≡◌, ◌↔◌, refl, some}
use llm_gateway_platform.Float.{Float, IsIeee}
use llm_gateway_platform.Http.{ok}
use llm_gateway_platform.Config.{Config, System, get_routes, get_pricing, load}
use llm_gateway_platform.Config.Validity.{Loads, load_iff}
use llm_gateway_platform.Pricing.{Table}
use llm_gateway_platform.Router.{Router}
use llm_gateway_platform.Server.Mux.{new}
use llm_gateway_platform.Gateway.{Backends, build}
use llm_gateway_platform.Gateway.Success.{CanBuild, built-CanBuild, build_iff}
use llm_gateway_platform.Main.{Launched, new_logger, launch}
use llm_gateway_platform.Main.Launch.{launch-ok}

module _ {F K T W : Type 0} (f : Float F) (b : Backends F K T W) (s : System F) where
  -- The environment makes a configuration, some backend has its credentials in it, and so has the
  -- backend of every target of every route.
  abbrev pub IsComplete : Type 0
  IsComplete =
      (cfg : Config F) × Loads f s (get_routes s "GATEWAY_ROUTES") (get_pricing s "GATEWAY_PRICING")
        cfg
      × CanBuild cfg

  launched :
      (cfg : Config F) (r : Router F W) (table : Table F)
      → load f s ≡ ok cfg
      → build f b cfg ≡ ok (r, table)
      → launch f b s
        ≡ ok (record { log = new_logger cfg.log_level; server = new cfg r (some table) })
  unfolding launch
  launched cfg r table loaded built = rw (loaded, built) refl

  -- Where float64 keeps the laws of IEEE 754 that IsIeee lists: the process gets to `Start` exactly
  -- when both JSON variables decode (or are not set), the log level is one of the four, every route has
  -- a target, no target lacks a provider or a model, no rate is negative, some backend has its
  -- credentials, and so has the backend of every target of every route.
  pub launch_iff : IsIeee f → ((l : Launched F W) × (launch f b s ≡ ok l)) ↔ IsComplete
  launch_iff ieee = (
    λ (l, reached).
        let (cfg, r, table, loaded, built, _) = launch-ok f b s l reached in
        (cfg, (load_iff f s cfg).0 loaded, built-CanBuild f b cfg r table built),
    λ (cfg, loads, can).
        let loaded = (load_iff f s cfg).1 loads in
        let (r, built) = (build_iff f b cfg s ieee loaded).1 can in
        (_, launched cfg r _ loaded built),
  )
