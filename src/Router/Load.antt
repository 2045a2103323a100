-- ===== src/Router/Load.antt =====
-- How often one request makes `Chat` of internal/router/router.go call its backends.
use llm_gateway_platform.Prelude.{
  ℕ, suc, ◌+◌, ◌*◌, ◌≤◌, ◌≡◌, refl, ◌∙◌, Bool, true, false, ◌||◌, Option, none, some, List, [], ◌∷◌,
  length, arith, Bool-cases, inl, inr, is_some,
}
use llm_gateway_platform.Provider.{Name, ChatRequest}
use llm_gateway_platform.Provider.Errors.{Err, is_canceled, is_deadline_exceeded}
use llm_gateway_platform.Runtime.{Env}
use llm_gateway_platform.Retry.{attempts_of}
use llm_gateway_platform.Retry.Calls.{Counts, run_ends}
use llm_gateway_platform.Router.{
  Target, Route, Provider, Limiter, Router, TargetFailure, Outcome, resolve, lookup_provider,
  lookup_limiter, clone_for_target,
}
use llm_gateway_platform.Router.Chat.{
  Captured, start, lift, Step, finish, next, attempt, after_failure, after_do, call_provider,
  after_allow, after_lookup, after_ctx, visit, chain, after_resolve, chat,
}

module _ {F W : Type 0} (env : Env W) (r : Router F W) (req : ChatRequest F) where
  -- A meter of the calls of the registered providers, which nothing else moves.
  pub record Meters (meter : W → ℕ) : Type 0 where
    pub at_ctx : (w : W) → meter (env.ctx_err w).1 ≡ meter w
    pub at_wait : (d : ℕ) (w : W) → meter (env.wait d w).1 ≡ meter w
    pub at_rand : (n : ℕ) (w : W) → meter (env.int63n n w).1 ≡ meter w
    pub at_allow :
        (name : Name) (l : Limiter W) (w : W)
        → lookup_limiter r name ≡ some l
        → meter (l.allow w).1 ≡ meter w
    pub at_call :
        (name : Name) (p : Provider F W) (sub : ChatRequest F) (w : W)
        → lookup_provider r name ≡ some p
        → meter (p.chat sub w).2 ≡ suc (meter w)

  module _ (meter : W → ℕ) (meters : Meters meter) where
    module _ (target : Target) (failures : List TargetFailure) where
      world_of : Step W → W
      world_of (finish o w) = w
      world_of (next fs w) = w

      -- At most `MaxAttempts` calls since the meter read `n`.
      abbrev Within : ℕ → Step W → Type 0
      Within n x = meter (world_of x) ≤ n + attempts_of r.retry

      after_failure-Within :
          (e : Err) (x : Option Err × W) (n : ℕ)
          → meter x.1 ≤ n + attempts_of r.retry
          → Within n (after_failure env r req target failures e x)
      unfolding after_failure world_of
      after_failure-Within e (ctx_err, w) n h =
          elim (Bool-cases (is_some ctx_err || is_canceled e || is_deadline_exceeded e)) [
            | inl t ↦ rw t h
            | inr t ↦ elim (Bool-cases (r.failover e)) [ inl u ↦ rw (t, u) h | inr u ↦ rw (t, u) h ]
          ]

      after_do-Within :
          (x : Option Err × (W × Captured)) (n : ℕ)
          → meter x.1.0 ≤ n + attempts_of r.retry
          → Within n (after_do env r req target failures x)
      unfolding after_do world_of
      after_do-Within (none, (w, c)) n h = h
      after_do-Within (some e, (w, c)) n h =
          after_failure-Within e (env.ctx_err w) n (rw (meters.at_ctx w) h)

      module _ (p : Provider F W) (registered : lookup_provider r target.provider ≡ some p) where
        attempt-Counts-meter :
            (n : ℕ)
            → Counts
                (lift env)
                (attempt env r req p (clone_for_target req target))
                (λ k s. meter s.0 ≡ n + k)
        unfolding attempt
        attempt-Counts-meter n = record {
          at_ctx = λ k s h. meters.at_ctx s.0 ∙ h;
          at_wait = λ d k s h. meters.at_wait d s.0 ∙ h;
          at_rand = λ b k s h. meters.at_rand b s.0 ∙ h;
          at_call = λ k s h. omega (
            arith,
            h,
            meters.at_call target.provider p (clone_for_target req target) s.0 registered,
          );
        }

        call_provider-Within :
            (w : W) (n : ℕ) → meter w ≡ n → Within n (call_provider env r req target failures p w)
        unfolding call_provider
        call_provider-Within w n h =
            let (k, few, count, ended) =
              run_ends (lift env) r.retry (attempt env r req p (clone_for_target req target))
                (λ _. Unit) (λ k s. meter s.0 ≡ n + k) (attempt-Counts-meter n)
                (record { at_ctx = λ _ _ _. tt; at_wait = λ _ _ _ _. tt }) (w, start)
                (omega (arith, h)) in
            after_do-Within _ n (omega (arith, few, count))

        after_allow-Within :
            (x : Bool × W) (n : ℕ)
            → meter x.1 ≡ n
            → Within n (after_allow env r req target failures p x)
        unfolding after_allow world_of
        after_allow-Within (true, w) n h = call_provider-Within w n h
        after_allow-Within (false, w) n h = omega (arith, h)

      after_lookup-Within :
          (q : Option (Provider F W)) (m : Option (Limiter W)) (w : W)
          → lookup_provider r target.provider ≡ q
          → lookup_limiter r target.provider ≡ m
          → Within (meter w) (after_lookup env r req target failures q m w)
      unfolding after_lookup world_of
      after_lookup-Within none m w missing set = omega arith
      after_lookup-Within (some p) none w registered set =
          call_provider-Within p registered w (meter w) refl
      after_lookup-Within (some p) (some l) w registered set =
          after_allow-Within p registered (l.allow w) (meter w)
            (meters.at_allow target.provider l w set)

      after_ctx-Within :
          (x : Option Err × W) → Within (meter x.1) (after_ctx env r req target failures x)
      unfolding after_ctx world_of
      after_ctx-Within (some e, w) = omega arith
      after_ctx-Within (none, w) = after_lookup-Within _ _ w refl refl

      visit-Within : (w : W) → Within (meter w) (visit env r req target failures w)
      unfolding visit
      visit-Within w = rw (meters.at_ctx w) at (after_ctx-Within (env.ctx_err w))

    -- The rest of the loop after a turn.
    continue-meter :
        (t : Target) (ts : List Target) (failures : List TargetFailure) (n : ℕ) (x : Step W)
        → Within t failures n x
        → ((fs : List TargetFailure) (w : W)
            → meter (chain env r req ts fs w).1 ≤ meter w + length ts * attempts_of r.retry)
        → meter
            (elim x as (λ _. Outcome × W) [
              | finish outcome w ↦ (outcome, w)
              | next fs w ↦ chain env r req ts fs w
            ]).1
          ≤ n + length (t ∷ ts) * attempts_of r.retry
    unfolding world_of
    continue-meter t ts failures n (finish outcome w) h rest = grind arith
    continue-meter t ts failures n (next fs w) h rest = let later = rest fs w in grind arith

    chain-meter :
        (ts : List Target) (failures : List TargetFailure) (w : W)
        → meter (chain env r req ts failures w).1 ≤ meter w + length ts * attempts_of r.retry
    unfolding chain
    chain-meter [] failures w = omega arith
    chain-meter (t ∷ ts) failures w =
        continue-meter t ts failures (meter w) (visit env r req t failures w)
          (visit-Within t failures w) (chain-meter ts)

    targets-meter :
        (ts : List Target) (w : W)
        → meter (after_resolve env r req (some (record { targets = ts })) w).1
          ≤ meter w + length ts * attempts_of r.retry
    unfolding after_resolve
    targets-meter [] w = omega arith
    targets-meter (t ∷ ts) w = chain-meter (t ∷ ts) [] w

    -- On a meter that the calls of the registered providers move by one and nothing else moves:
    -- however the calls end, one request for a model with a route makes the backends be called at most
    -- `MaxAttempts` times (1 where that is less) for each target of the route.
    pub chat_calls :
        (route : Route) (w : W)
        → resolve r req.model ≡ some route
        → meter (chat env r req w).1 ≤ meter w + length route.targets * attempts_of r.retry
    unfolding chat
    chat_calls route w found = rw found (targets-meter route.targets w)
