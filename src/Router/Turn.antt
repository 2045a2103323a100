-- ===== src/Router/Turn.antt =====
-- One turn of the loop of `Chat` in internal/router/router.go: how it deals with a target.
use mathlib.Core.Path.{subst}
use mathlib.Core.Option.{some-injective}
use llm_gateway_platform.Prelude.{
  ℕ, ◌≤◌, ◌<◌, ◌≡◌, refl, ap, ◌∙◌, inl, inr, Bool, true, false, ◌||◌, Option, none, some, List,
  arith, Bool-cases,
}
use llm_gateway_platform.Provider.{ChatRequest}
use llm_gateway_platform.Provider.Errors.{Err, is_canceled, is_deadline_exceeded, new_http_error}
use llm_gateway_platform.Runtime.{Env}
use llm_gateway_platform.Retry.{attempts_of}
use llm_gateway_platform.Retry.Calls.{
  Counts, Interrupts, Ended, served, interrupted, refused, exhausted, run_ends,
}
use llm_gateway_platform.Router.{
  Target, Provider, Limiter, Router, Result, TargetFailure, ok, err, bare, record_failure,
  lookup_provider, lookup_limiter, clone_for_target,
}
use llm_gateway_platform.Router.Chat.{
  Captured, start, lift, Step, finish, next, attempt, fail_with, after_failure, after_do,
  call_provider, after_allow, after_lookup, after_ctx, visit,
}

-- The retries of one target, seen from the world without the captured variables.
pub lift-Interrupts :
    {W : Type 0} (env : Env W) (C : Err → Type 0) → Interrupts env C → Interrupts (lift env) C
lift-Interrupts env C cuts = record {
  at_ctx = λ s. cuts.at_ctx s.0;
  at_wait = λ d s. cuts.at_wait d s.0;
}

module _ {F W : Type 0} (env : Env W) (r : Router F W) (req : ChatRequest F) where
  -- The captured variable `attempts` counts the calls.
  pub attempt-Counts :
      (p : Provider F W) (sub : ChatRequest F)
      → Counts (lift env) (attempt env r req p sub) (λ n s. s.1.attempts ≡ n)
  unfolding attempt
  attempt-Counts p sub = record {
    at_ctx = λ n s h. h;
    at_wait = λ d n s h. h;
    at_rand = λ b n s h. h;
    at_call = λ n s h. omega (arith, h);
  }

  attempt-reply :
      (p : Provider F W) (sub : ChatRequest F) (w₀ w : W) (c₀ c : Captured)
      → attempt env r req p sub (w₀, c₀) ≡ (none, (w, c))
      → p.chat sub w₀ ≡ (c.resp, none, w)
  unfolding attempt
  attempt-reply p sub w₀ w c₀ c called = λ i. ((called i).1.1.resp, (called i).0, (called i).1.0)

  -- `Chat` may return the result: a registered provider's last call on the target returned nil and
  -- the response, after as many calls as the result says, one at least and `MaxAttempts` at most.
  pub record Serves (result : Result) : Type 0 where
    pub provider : Provider F W
    pub registered : lookup_provider r result.target.provider ≡ some provider
    pub before : W
    pub after : W
    pub replied :
        provider.chat (clone_for_target req result.target) before ≡ (result.response, none, after)
    pub some_attempt : 0 < result.attempts
    pub few_attempts : result.attempts ≤ attempts_of r.retry

  -- Where the error of a failed call comes from: it is what the target's provider returned for the
  -- request with the target's model, or an error of the context.
  pub data Cause (C : Err → Type 0) (f : TargetFailure) : Type 0 where
    returned :
        (p : Provider F W) (before : W)
        → lookup_provider r f.target.provider ≡ some p
        → (p.chat (clone_for_target req f.target) before).1 ≡ some f.error
        → Cause C f
    by_context : C f.error → Cause C f

  -- A failure after which the loop went on to the next target.
  pub data MovedOn (C : Err → Type 0) (f : TargetFailure) : Type 0 where
    unregistered : lookup_provider r f.target.provider ≡ none → MovedOn C f
    limited :
        (l : Limiter W) (before : W)
        → lookup_limiter r f.target.provider ≡ some l
        → (l.allow before).0 ≡ false
        → f.error ≡ new_http_error f.target.provider 429 "rate_limited" "local rate limit exceeded"
        → MovedOn C f
    failed_over :
        Cause C f
        → r.failover f.error ≡ true
        → is_canceled f.error ≡ false
        → is_deadline_exceeded f.error ≡ false
        → MovedOn C f

  -- Why `Chat` returned after a failed call: the context was done, the error comes from a context, or
  -- the failover predicate rejected it.
  pub data Stopping (f : TargetFailure) : Type 0 where
    context_done : (w : W) (e : Err) → (env.ctx_err w).0 ≡ some e → Stopping f
    from_context : is_canceled f.error || is_deadline_exceeded f.error ≡ true → Stopping f
    rejected : r.failover f.error ≡ false → Stopping f

  -- A failure after which `Chat` returned.
  abbrev pub Terminal : (Err → Type 0) → TargetFailure → Type 0
  Terminal C f = Cause C f × Stopping f

  module _ (C : Err → Type 0) (target : Target) (failures : List TargetFailure) where
    -- How a turn of the loop may end.
    pub data Visited : Step W → Type 0 where
      served_by :
          (result : Result) (w : W)
          → result.target ≡ target
          → Serves result
          → Visited (finish (ok result) w)
      cut : (e : Err) (w : W) → C e → Visited (finish (err (bare e)) w)
      ended :
          (e : Err) (w : W)
          → Terminal C (record { target = target; error = e })
          → Visited (fail_with env r req target failures e w)
      moved :
          (e : Err) (w : W)
          → MovedOn C (record { target = target; error = e })
          → Visited (next (record_failure target e failures) w)

    module _ (cuts : Interrupts env C) where
      after_failure-Visited :
          (e : Err) (w₀ : W) (x : Option Err × W)
          → Cause C (record { target = target; error = e })
          → env.ctx_err w₀ ≡ x
          → Visited (after_failure env r req target failures e x)
      unfolding after_failure
      after_failure-Visited e w₀ (some c, w) cause read =
          ended e w (cause, context_done w₀ c (ap (λ x. x.0) read))
      after_failure-Visited e w₀ (none, w) cause read =
          elim (Bool-cases (is_canceled e || is_deadline_exceeded e)) [
            | inl stop ↦ rw stop (ended e w (cause, from_context stop))
            | inr live ↦ rw live (elim (Bool-cases (r.failover e)) [
              | inl on ↦ rw on (moved e w (failed_over cause on (ground arith) (ground arith)))
              | inr off ↦ rw off (ended e w (cause, rejected off))
            ])
          ]

      module _ (p : Provider F W) (registered : lookup_provider r target.provider ≡ some p) where
        -- How `retry.Do` may end.
        abbrev DoEnds : Option Err × (W × Captured) → Type 0
        DoEnds x =
            (k : ℕ) × (k ≤ attempts_of r.retry)
            × (x.1.1.attempts ≡ k)
            × Ended (lift env) r.retry (attempt env r req p (clone_for_target req target)) C k x.1
                x.0

        Cause-Ended :
            (k : ℕ) (s : W × Captured) (result : Option Err) (e : Err)
            → Ended
                (lift env)
                r.retry
                (attempt env r req p (clone_for_target req target))
                C
                k
                s
                result
            → result ≡ some e
            → Cause C (record { target = target; error = e })
        unfolding attempt
        Cause-Ended k s result e (served s₀ some_call called) h = cc
        Cause-Ended k s result e (interrupted e' kind) h =
            by_context (subst C (some-injective _ _ h) kind)
        Cause-Ended k s result e (refused e' s₀ some_call called final) h =
            returned p s₀.0 registered (ap (λ x. x.0) called ∙ h)
        Cause-Ended k s result e (exhausted e' s₀ all called) h =
            returned p s₀.0 registered (ap (λ x. x.0) called ∙ h)

        after_do-Visited :
            (x : Option Err × (W × Captured))
            → DoEnds x
            → Visited (after_do env r req target failures x)
        unfolding after_do
        after_do-Visited (some e, (w, c)) (k, few, count, how) =
            after_failure-Visited e w (env.ctx_err w) (Cause-Ended k (w, c) (some e) e how refl)
              refl
        after_do-Visited (none, (w, c)) (k, few, count, served (w₀, c₀) some_call called) =
            served_by (record { response = c.resp; target = target; attempts = c.attempts }) w refl
              (record {
                provider = p;
                registered = registered;
                before = w₀;
                after = w;
                replied = attempt-reply p (clone_for_target req target) w₀ w c₀ c called;
                some_attempt = omega arith;
                few_attempts = omega arith;
              })

        call_provider-Visited : (w : W) → Visited (call_provider env r req target failures p w)
        unfolding call_provider
        call_provider-Visited w = after_do-Visited _ (
            run_ends (lift env) r.retry (attempt env r req p (clone_for_target req target)) C
              (λ n s. s.1.attempts ≡ n) (attempt-Counts p (clone_for_target req target))
              (lift-Interrupts env C cuts) (w, start) refl)

        after_allow-Visited :
            (l : Limiter W) (w₀ : W) (x : Bool × W)
            → lookup_limiter r target.provider ≡ some l
            → l.allow w₀ ≡ x
            → Visited (after_allow env r req target failures p x)
        unfolding after_allow
        after_allow-Visited l w₀ (true, w) set asked = call_provider-Visited w
        after_allow-Visited l w₀ (false, w) set asked =
            moved _ w (limited l w₀ set (ap (λ x. x.0) asked) refl)

      after_lookup-Visited :
          (q : Option (Provider F W)) (m : Option (Limiter W)) (w : W)
          → lookup_provider r target.provider ≡ q
          → lookup_limiter r target.provider ≡ m
          → Visited (after_lookup env r req target failures q m w)
      unfolding after_lookup
      after_lookup-Visited none m w missing set = moved _ w (unregistered missing)
      after_lookup-Visited (some p) none w registered set = call_provider-Visited p registered w
      after_lookup-Visited (some p) (some l) w registered set =
          after_allow-Visited p registered l w (l.allow w) set refl

      after_ctx-Visited :
          (x : Option Err × W)
          → ((e : Err) → x.0 ≡ some e → C e)
          → Visited (after_ctx env r req target failures x)
      unfolding after_ctx
      after_ctx-Visited (some e, w) kind = cut e w (kind e refl)
      after_ctx-Visited (none, w) kind = after_lookup-Visited _ _ w refl refl

      pub visit-Visited : (w : W) → Visited (visit env r req target failures w)
      unfolding visit
      visit-Visited w = after_ctx-Visited (env.ctx_err w) (cuts.at_ctx w)
