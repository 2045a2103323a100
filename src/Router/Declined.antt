-- ===== src/Router/Declined.antt =====
-- `Chat` of internal/router/router.go on a route whose only target turns the request down for good, and
-- what has happened by then.
use llm_gateway_platform.Prelude.{◌≡◌, refl, ap, false, Option, none, some, List, [], ◌∷◌, arith}
use llm_gateway_platform.Provider.{ChatRequest}
use llm_gateway_platform.Provider.Errors.{Err, is_retryable}
use llm_gateway_platform.Runtime.{Env}
use llm_gateway_platform.Retry.Calls.{Interrupts}
use llm_gateway_platform.Retry.Steady.{run-final}
use llm_gateway_platform.Router.{
  Target, Route, Provider, Router, TargetFailure, Outcome, err, route_error, resolve,
  record_failure, lookup_provider, lookup_limiter, clone_for_target,
}
use llm_gateway_platform.Router.Chat.{
  lift, start, attempt, fail_with, after_failure, after_do, call_provider, after_lookup, after_ctx,
  visit, chain, after_resolve, chat,
}
use llm_gateway_platform.Router.Turn.{lift-Interrupts}

module _ {F W : Type 0} (env : Env W) (r : Router F W) (req : ChatRequest F)
    (live : Interrupts env (λ _. ⊥)) (p : Provider F W) (target : Target) (e : Err) where
  -- The world after a reading of the context.
  abbrev pub read : W → W
  read w = (env.ctx_err w).1

  -- The provider fails with `e` in every world, without an effect.
  abbrev pub TurnsDown : Type 0
  TurnsDown = (w : W) → p.chat (clone_for_target req target) w ≡ (none, some e, w)

  after_failure-final :
      (failures : List TargetFailure) (x : Option Err × W)
      → r.failover e ≡ false
      → after_failure env r req target failures e x ≡ fail_with env r req target failures e x.1
  unfolding after_failure
  after_failure-final failures (c, w) final = ground (arith, final)

  call_provider-final :
      (failures : List TargetFailure) (w : W)
      → TurnsDown
      → is_retryable e ≡ false
      → r.failover e ≡ false
      → call_provider env r req target failures p w
        ≡ fail_with env r req target failures e (read (read w))
  unfolding call_provider attempt after_do
  call_provider-final failures w down once final =
      rw
        (
          run-final (lift env) r.retry (attempt env r req p (clone_for_target req target))
              (lift-Interrupts env (λ _. ⊥) live) e (w, start) (ap (λ x. x.1) (down (read w))) once,
          down (read w),
        )
        (after_failure-final failures (env.ctx_err (read w)) final)

  visit-final :
      (failures : List TargetFailure) (x : Option Err × W)
      → ((e : Err) → x.0 ≡ some e → ⊥)
      → lookup_provider r target.provider ≡ some p
      → lookup_limiter r target.provider ≡ none
      → TurnsDown
      → is_retryable e ≡ false
      → r.failover e ≡ false
      → after_ctx env r req target failures x
        ≡ fail_with env r req target failures e (read (read x.1))
  unfolding after_ctx after_lookup
  visit-final failures (some c, w) never known unlimited down once final = absurd (never c refl)
  visit-final failures (none, w) never known unlimited down once final =
      rw (known, unlimited) (call_provider-final failures w down once final)

  -- The error of a route whose only target has failed.
  abbrev pub declined : Outcome
  declined =
      err
        (route_error (record { logical_model = req.model; failures = record_failure target e [] }))

  -- Where the context is never done: `Chat` on a route whose only target has a provider without a
  -- limiter that turns the request down, with an error that is neither retryable nor failed over,
  -- ends with that error, and nothing has happened but three readings of the context.
  pub chat-declined :
      (route : Route) (w : W)
      → resolve r req.model ≡ some route
      → route.targets ≡ target ∷ []
      → lookup_provider r target.provider ≡ some p
      → lookup_limiter r target.provider ≡ none
      → TurnsDown
      → is_retryable e ≡ false
      → r.failover e ≡ false
      → chat env r req w ≡ (declined, read (read (read w)))
  unfolding chat after_resolve chain visit
  chat-declined route w found sole known unlimited down once final =
      let turn = visit-final [] (env.ctx_err w) (live.at_ctx w) known unlimited down once final in
      rw (found, after_resolve, sole) (rw (turn, chain, visit) refl)
