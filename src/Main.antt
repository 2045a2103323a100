-- ===== src/Main.antt =====
-- cmd/gateway/main.go: the process, from its environment to its exit code. What the log lines say is
-- left out.
pub mod Launch
pub mod Startup
pub mod EndToEnd
use llm_gateway_platform.Prelude.{ℕ, String, ◌≡◌, Option, none, some, str_eq, if◌then◌else◌}
use llm_gateway_platform.Float.{Float}
use llm_gateway_platform.Provider.Errors.{Err}
use llm_gateway_platform.Http.{Fallible, ok, fail}
use llm_gateway_platform.Config.{System, load}
use llm_gateway_platform.Gateway.{Backends, build, and_then}
use llm_gateway_platform.Server.Mux.{Server, new}
use llm_gateway_platform.Server.Lifecycle.{State, Run, returned}

-- slog's levels
pub data Level : Type 0 where
  level_debug : Level
  level_info : Level
  level_warn : Level
  level_error : Level

-- The level of the logger that `newLogger` makes.
unfoldable pub new_logger : String → Level
new_logger level =
    if str_eq level "debug"
    then level_debug
    else if str_eq level "warn"
    then level_warn
    else if str_eq level "error"
    then level_error
    else level_info

-- What `run` has made before it calls `Start`.
pub record Launched (F W : Type 0) : Type 0 where
  pub log : Level
  pub server : Server F W

module _ {F K T W : Type 0} (f : Float F) (b : Backends F K T W) (s : System F) where
  -- `run`, up to `Start`
  unfoldable pub launch : Fallible (Launched F W)
  launch = and_then (load f s) (λ cfg. and_then (build f b cfg) (λ (rtr, pricer).
      ok (record { log = new_logger cfg.log_level; server = new cfg rtr (some pricer) })))

  -- The error with which `run` returns: that of a failed launch, or what `Start` returns.
  pub data Runs : Option Err → Type 0 where
    not_launched : (e : Err) → launch ≡ fail e → Runs (some e)
    stopped :
        (l : Launched F W) (n : ℕ) (end : State) (r : Option Err)
        → launch ≡ ok l
        → Run n end
        → end.caller ≡ returned r
        → Runs r

-- The exit code of `main`.
unfoldable pub exit_code : Option Err → ℕ
exit_code none = 0
exit_code (some e) = 1
