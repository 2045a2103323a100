-- ===== src/Router/Deadline.antt =====
-- A provider that times out by itself, in internal/router/router.go.
use llm_gateway_platform.Prelude.{
  ℕ, ◌≡◌, refl, sym, ◌∙◌, ap, true, Option, none, some, List, ◌∷◌, arith,
}
use llm_gateway_platform.Provider.{ChatRequest}
use llm_gateway_platform.Provider.Errors.{Err, is_deadline_exceeded}
use llm_gateway_platform.Runtime.{Env}
use llm_gateway_platform.Retry.Calls.{
  Interrupts, Ended, served, interrupted, refused, exhausted, run_ends,
}
use llm_gateway_platform.Router.{
  Target, Provider, Router, TargetFailure, err, route_error, record_failure, lookup_provider,
  lookup_limiter, clone_for_target,
}
use llm_gateway_platform.Router.Chat.{
  Captured, start, lift, Step, attempt, fail_with, after_failure, after_do, call_provider,
  after_lookup, after_ctx, visit, chain,
}
use llm_gateway_platform.Router.Turn.{attempt-Counts, lift-Interrupts}

-- Every call of the provider fails, with an error for which `errors.Is` finds a deadline, such as the
-- one that net/http gives when the client's own timeout passes.
abbrev pub TimesOut : {F W : Type 0} → Provider F W → Type 0
TimesOut {F} {W} p =
    (sub : ChatRequest F) (w : W)
    → (e : Err) × ((p.chat sub w).1 ≡ some e) × (is_deadline_exceeded e ≡ true)

module _ {F W : Type 0} (env : Env W) (r : Router F W) (req : ChatRequest F) (p : Provider F W)
    (target : Target) where
  abbrev call : W × Captured → Option Err × (W × Captured)
  call = attempt env r req p (clone_for_target req target)

  -- The error with which `retry.Do` ends comes from the provider.
  ends_by_deadline :
      (k : ℕ) (s : W × Captured) (result : Option Err)
      → TimesOut p
      → Ended (lift env) r.retry call (λ _. ⊥) k s result
      → (e : Err) × (result ≡ some e) × (is_deadline_exceeded e ≡ true)
  unfolding attempt
  ends_by_deadline k s result fails (served s₀ some_call called) =
      let (e, failed, late) = fails (clone_for_target req target) s₀.0 in
      let bad : some e ≡ none = sym failed ∙ ap (λ x. x.0) called in cc
  ends_by_deadline k s result fails (interrupted e bad) = absurd bad
  ends_by_deadline k s result fails (refused e s₀ some_call called final) =
      let (e', failed, late) = fails (clone_for_target req target) s₀.0 in
      (e', sym (ap (λ x. x.0) called) ∙ failed, late)
  ends_by_deadline k s result fails (exhausted e s₀ all called) =
      let (e', failed, late) = fails (clone_for_target req target) s₀.0 in
      (e', sym (ap (λ x. x.0) called) ∙ failed, late)

  abbrev Stops : List TargetFailure → Step W → Type 0
  Stops failures x =
      (e : Err) × (w : W) × (is_deadline_exceeded e ≡ true)
      × (x ≡ fail_with env r req target failures e w)

  after_failure-Stops :
      (failures : List TargetFailure) (e : Err) (x : Option Err × W)
      → is_deadline_exceeded e ≡ true
      → Stops failures (after_failure env r req target failures e x)
  unfolding after_failure
  after_failure-Stops failures e (ctx_err, w) late = (e, w, late, ground arith)

  after_do-Stops :
      (failures : List TargetFailure) (x : Option Err × (W × Captured))
      → (e : Err) × (x.0 ≡ some e) × (is_deadline_exceeded e ≡ true)
      → Stops failures (after_do env r req target failures x)
  unfolding after_do
  after_do-Stops failures (none, (w, c)) (e, bad, late) = cc
  after_do-Stops failures (some e, (w, c)) (e', same, late) =
      after_failure-Stops failures e (env.ctx_err w) (cc late)

  module _ (never : Interrupts env (λ _. ⊥))
      (registered : lookup_provider r target.provider ≡ some p)
      (unlimited : lookup_limiter r target.provider ≡ none) (fails : TimesOut p) where
    call_provider-Stops :
        (failures : List TargetFailure) (w : W)
        → Stops failures (call_provider env r req target failures p w)
    unfolding call_provider
    call_provider-Stops failures w =
        let (k, few, count, ended) =
          run_ends (lift env) r.retry call (λ _. ⊥) (λ n s. s.1.attempts ≡ n)
            (attempt-Counts env r req p (clone_for_target req target))
            (lift-Interrupts env (λ _. ⊥) never) (w, start) refl in
        after_do-Stops failures _ (ends_by_deadline k _ _ fails ended)

    visit-Stops :
        (failures : List TargetFailure) (x : Option Err × W)
        → ((e : Err) → x.0 ≡ some e → ⊥)
        → Stops failures (after_ctx env r req target failures x)
    unfolding after_ctx after_lookup
    visit-Stops failures (some e, w) live = absurd (live e refl)
    visit-Stops failures (none, w) live =
        rw (registered, unlimited) (call_provider-Stops failures w)

    -- A registered, unlimited provider whose calls all fail by a deadline of its own (the context is
    -- never done) ends the loop over the targets: the targets after it are not tried, whatever the
    -- failover predicate says of the error.
    pub deadline_stops_failover :
        (later : List Target) (failures : List TargetFailure) (w : W)
        → (e : Err) × (is_deadline_exceeded e ≡ true)
          × ((chain env r req (target ∷ later) failures w).0
              ≡ err (
                  route_error (record {
                    logical_model = req.model;
                    failures = record_failure target e failures;
                  })))
    unfolding chain visit
    deadline_stops_failover later failures w =
        let (e, w', late, same) = visit-Stops failures (env.ctx_err w) (never.at_ctx w) in
        (e, late, rw (same, chain))
