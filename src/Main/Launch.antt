-- ===== src/Main/Launch.antt =====
-- What the process of cmd/gateway/main.go is once it serves, and when it exits with 0.
use mathlib.Core.Path.{subst}
use llm_gateway_platform.Prelude.{
  true, ℕ, String, ◌≡◌, refl, sym, inl, inr, Option, none, some, arith,
}
use llm_gateway_platform.Float.{Float}
use llm_gateway_platform.Provider.Errors.{Err}
use llm_gateway_platform.Runtime.{Env}
use llm_gateway_platform.Http.{ok, ok-injective}
use llm_gateway_platform.Config.{Config, System, config_of, get_routes, get_pricing, load}
use llm_gateway_platform.Config.Validity.{IsLevel, Loads, load_iff}
use llm_gateway_platform.Pricing.{Table}
use llm_gateway_platform.Router.{Router}
use llm_gateway_platform.Gateway.{Backends, build}
use llm_gateway_platform.Gateway.Routes.{and_then-ok}
use llm_gateway_platform.Gateway.Registration.{ArePlain}
use llm_gateway_platform.Gateway.Serving.{built_panics}
use llm_gateway_platform.Server.{ChatCompletionRequest, panic, handle_chat_completions}
use llm_gateway_platform.Server.Panics.{SendsUnwritable}
use llm_gateway_platform.Server.Mux.{
  Handler, health, ready, chat_completions, Server, new, Incoming, handled, find_handler,
  after_find, serve_http,
}
use llm_gateway_platform.Server.Lifecycle.{State, Run, returned}
use llm_gateway_platform.Server.Shutdown.{nil_after_cancel}
use llm_gateway_platform.Main.{
  Level, level_debug, level_info, level_warn, level_error, new_logger, Launched, launch, Runs,
  stopped, exit_code,
}

abbrev pub level_name : Level → String
level_name level_debug = "debug"
level_name level_info = "info"
level_name level_warn = "warn"
level_name level_error = "error"

new_logger_names : (level : String) → IsLevel level → level_name (new_logger level) ≡ level
unfolding new_logger
new_logger_names level (inl e) = rw e
new_logger_names level (inr (inl e)) = rw e
new_logger_names level (inr (inr (inl e))) = rw e
new_logger_names level (inr (inr (inr e))) = rw e

module _ {F W : Type 0} (f : Float F) (env : Env W) (s : Server F W)
    (traced : (req : Option (ChatCompletionRequest F)) (caller : String) (w : W)
      → (handle_chat_completions f env s.router s.pricing req caller w).0 ≡ panic
      → SendsUnwritable f env s.router s.pricing req caller w) where
  after_find_traced :
      (o : Option Handler) (req : Incoming F) (w : W)
      → (after_find f env s o req w).0 ≡ handled panic
      → SendsUnwritable f env s.router s.pricing req.body req.caller w
  after_find_traced none req w h = ground arith
  after_find_traced (some health) req w h = cc
  after_find_traced (some ready) req w h = cc
  after_find_traced (some chat_completions) req w h = traced req.body req.caller w (cc h)

  serve_traced :
      (req : Incoming F) (w : W)
      → (serve_http f env s req w).0 ≡ handled panic
      → SendsUnwritable f env s.router s.pricing req.body req.caller w
  unfolding serve_http
  serve_traced req w = after_find_traced (find_handler s.routes req.method req.path) req w

module _ {F K T W : Type 0} (f : Float F) (b : Backends F K T W) (s : System F) where
  pub launch-ok :
      (l : Launched F W)
      → launch f b s ≡ ok l
      → (cfg : Config F) × (r : Router F W) × (table : Table F) × (load f s ≡ ok cfg)
        × (build f b cfg ≡ ok (r, table))
        × (l ≡ record { log = new_logger cfg.log_level; server = new cfg r (some table) })
  unfolding launch
  launch-ok l h =
      let (cfg, loaded, rest) = and_then-ok (load f s) _ l h in
      let ((r, table), built, same) = and_then-ok (build f b cfg) _ l rest in
      (cfg, r, table, loaded, built, sym (ok-injective same))

  -- The process that serves: its configuration is one that the environment's variables make, its
  -- logger has the level that the configuration names, its server listens where the configuration
  -- says and with its two timeouts, and its mux panics on a request only where `Chat` has failed on it
  -- and the last failure carries a status that is not 0 and has not three digits.
  pub record Serving (l : Launched F W) : Type 0 where
    pub cfg : Config F
    pub loads : Loads f s (get_routes s "GATEWAY_ROUTES") (get_pricing s "GATEWAY_PRICING") cfg
    pub level : level_name l.log ≡ cfg.log_level
    pub addr : l.server.http.addr ≡ cfg.http_addr
    pub read_timeout : l.server.http.read_timeout ≡ cfg.read_timeout
    pub write_timeout : l.server.http.write_timeout ≡ cfg.write_timeout
    pub panics :
        (env : Env W) (req : Incoming F) (w : W)
        → (serve_http f env l.server req w).0 ≡ handled panic
        → SendsUnwritable f env l.server.router l.server.pricing req.body req.caller w

  loaded-IsLevel : (cfg : Config F) → load f s ≡ ok cfg → IsLevel cfg.log_level
  unfolding config_of
  loaded-IsLevel cfg loaded =
      let (routes, prices, decoded, priced, same, level, fine, rates) =
        (load_iff f s cfg).0 loaded in
      subst (λ (c : Config F). IsLevel c.log_level) (sym same) level

  made-Serving :
      (cfg : Config F) (r : Router F W) (table : Table F)
      → ArePlain b
      → load f s ≡ ok cfg
      → build f b cfg ≡ ok (r, table)
      → Serving (record { log = new_logger cfg.log_level; server = new cfg r (some table) })
  unfolding new
  made-Serving cfg r table plainly loaded built = record {
    cfg = cfg;
    loads = (load_iff f s cfg).0 loaded;
    level = new_logger_names cfg.log_level (loaded-IsLevel cfg loaded);
    addr = refl;
    read_timeout = refl;
    write_timeout = refl;
    panics = λ env.
        serve_traced f env (new cfg r (some table))
          (λ req caller w. built_panics f env b cfg r table req caller w plainly built);
  }

  -- Where no error of the codings wraps a *provider.Error: a process that has got to `Start` has a
  -- valid configuration, is set up as the configuration says, and panics on a request only where the
  -- last failure of `Chat` carries a status that is not 0 and has not three digits.
  pub launch-Serving : (l : Launched F W) → ArePlain b → launch f b s ≡ ok l → Serving l
  launch-Serving l plainly h =
      let (cfg, r, table, loaded, built, same) = launch-ok l h in
      subst Serving (sym same) (made-Serving cfg r table plainly loaded built)

  -- The process has been launched, and `Start` has returned nil on a context that is done.
  abbrev pub CleanExit : Type 0
  CleanExit =
      (l : Launched F W) × (n : ℕ) × (end : State) × (launch f b s ≡ ok l)
      × Run n end
      × (end.caller ≡ returned none)
      × (end.ctx_done ≡ true)

  -- The process exits with the code 0 only after its environment was accepted, its backends were
  -- built, and `Start` has returned nil on a context that a signal has ended.
  pub exit_zero : (r : Option Err) → Runs f b s r → exit_code r ≡ 0 → CleanExit
  unfolding exit_code
  exit_zero none (stopped l n end _ launched run last) h =
      (l, n, end, launched, run, last, nil_after_cancel n end run last)
  exit_zero (some e) run h = ground (arith, h)
