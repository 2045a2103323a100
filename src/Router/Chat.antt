-- ===== src/Router/Chat.antt =====
-- `Chat` of internal/router/router.go, in the stages between its calls.
use llm_gateway_platform.Prelude.{
  ℕ, ◌+◌, Bool, true, false, ◌||◌, Option, none, some, List, [], ◌∷◌, is_some, if◌then◌else◌,
}
use llm_gateway_platform.Prelude.Text.{words, quoted}
use llm_gateway_platform.Provider.{ChatRequest, ChatResponse}
use llm_gateway_platform.Provider.Errors.{
  Err, errorf, is_canceled, is_deadline_exceeded, new_http_error,
}
use llm_gateway_platform.Runtime.{Env}
use llm_gateway_platform.Retry.{run}
use llm_gateway_platform.Router.{
  Target, Route, Provider, Limiter, Router, TargetFailure, Outcome, ok, err, bare, route_error,
  record_failure, resolve, lookup_provider, lookup_limiter, clone_for_target,
}

-- The variables that the closure given to `retry.Do` captures and changes.
pub record Captured : Type 0 where
  pub resp : Option ChatResponse
  pub attempts : ℕ

abbrev pub start : Captured
start = record { resp = none; attempts = 0 }

-- The runtime's calls leave the captured variables alone.
abbrev pub with_captured {ℓ} : {W : Type 0} {A : Type ℓ} → A × W → Captured → A × (W × Captured)
with_captured (a, w) c = (a, (w, c))

abbrev pub lift : {W : Type 0} → Env W → Env (W × Captured)
lift env = record {
  ctx_err = λ s. with_captured (env.ctx_err s.0) s.1;
  wait = λ d s. with_captured (env.wait d s.0) s.1;
  int63n = λ n s. with_captured (env.int63n n s.0) s.1;
}

-- How one turn of the loop over the targets ends: `Chat` returns, or goes on to the next target.
pub data Step (W : Type 0) : Type 0 where
  finish : Outcome → W → Step W
  next : List TargetFailure → W → Step W

module _ {F W : Type 0} (env : Env W) (r : Router F W) (req : ChatRequest F) where
  -- The closure given to `retry.Do`.
  unfoldable pub attempt : Provider F W → ChatRequest F → W × Captured → Option Err × (W × Captured)
  attempt p sub (w, c) =
      let (resp, call_err, w') = p.chat sub w in
      (call_err, (w', record { resp = resp; attempts = c.attempts + 1 }))

  module _ (target : Target) (failures : List TargetFailure) where
    -- `return nil, routeErr`, with the error recorded
    abbrev pub fail_with : Err → W → Step W
    fail_with e w =
        finish
          (err (
            route_error
              (record { logical_model = req.model; failures = record_failure target e failures })))
          w

    -- After `retry.Do` has failed with `e`, and `ctx.Err()` been read.
    unfoldable pub after_failure : Err → Option Err × W → Step W
    after_failure e (ctx_err, w) =
        if is_some ctx_err || is_canceled e || is_deadline_exceeded e
        then fail_with e w
        else if r.failover e
        then next (record_failure target e failures) w
        else fail_with e w

    -- After `retry.Do`.
    unfoldable pub after_do : Option Err × (W × Captured) → Step W
    after_do (none, (w, c)) =
        finish (ok (record { response = c.resp; target = target; attempts = c.attempts })) w
    after_do (some e, (w, c)) = after_failure e (env.ctx_err w)

    unfoldable pub call_provider : Provider F W → W → Step W
    call_provider p w =
        after_do (run (lift env) r.retry (attempt p (clone_for_target req target)) (w, start))

    -- After `limiter.Allow()`.
    unfoldable pub after_allow : Provider F W → Bool × W → Step W
    after_allow p (true, w) = call_provider p w
    after_allow p (false, w) =
        next
          (record_failure target
            (new_http_error target.provider 429 "rate_limited" "local rate limit exceeded")
            failures)
          w

    -- After `r.lookup`.
    unfoldable pub after_lookup : Option (Provider F W) → Option (Limiter W) → W → Step W
    after_lookup none l w =
        next
          (record_failure target
            (errorf (words "provider " ∷ quoted target.provider ∷ words " is not registered" ∷ []))
            failures)
          w
    after_lookup (some p) none w = call_provider p w
    after_lookup (some p) (some l) w = after_allow p (l.allow w)

    -- After `ctx.Err()`.
    unfoldable pub after_ctx : Option Err × W → Step W
    after_ctx (some e, w) = finish (err (bare e)) w
    after_ctx (none, w) =
        after_lookup (lookup_provider r target.provider) (lookup_limiter r target.provider) w

    -- One turn of the loop.
    unfoldable pub visit : W → Step W
    visit w = after_ctx (env.ctx_err w)

  -- The loop over the targets.
  unfoldable pub chain : List Target → List TargetFailure → W → Outcome × W
  chain [] failures w =
      (err (route_error (record { logical_model = req.model; failures = failures })), w)
  chain (target ∷ targets) failures w = elim (visit target failures w) [
    | finish outcome w' ↦ (outcome, w')
    | next failures' w' ↦ chain targets failures' w'
  ]

  abbrev pub no_route : Err
  no_route = errorf (words "router: no route for model " ∷ quoted req.model ∷ [])

  -- After `r.resolve`.
  unfoldable pub after_resolve : Option Route → W → Outcome × W
  after_resolve none w = (err (bare no_route), w)
  after_resolve (some route) w = elim route.targets [
    | [] ↦ (err (bare no_route), w)
    | t ∷ ts ↦ chain (t ∷ ts) [] w
  ]

  -- `Chat`
  unfoldable pub chat : W → Outcome × W
  chat w = after_resolve (resolve r req.model) w
