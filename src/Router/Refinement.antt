-- ===== src/Router/Refinement.antt =====
-- `Chat` of internal/router/router.go does what the list of offers says.
use mathlib.Core.Path.{subst}
use mathlib.Core.Option.{some-injective}
use llm_gateway_platform.Prelude.{
  ◌≡◌, refl, ◌∙◌, ap, Bool, true, false, ◌||◌, Option, none, some, List, [], ◌∷◌, Bool-cases, inl,
  inr, if◌then◌else◌,
}
use llm_gateway_platform.Provider.{ChatRequest, ChatResponse}
use llm_gateway_platform.Provider.Errors.{Err, is_canceled, is_deadline_exceeded}
use llm_gateway_platform.Runtime.{Env}
use llm_gateway_platform.Retry.Calls.{Interrupts}
use llm_gateway_platform.Retry.Steady.{run-serves, run-fails}
use llm_gateway_platform.Router.{
  Target, Provider, Limiter, Router, TargetFailure, Outcome, ok, err, route_error, record_failure,
  lookup_provider, lookup_limiter, clone_for_target, resolve, Route,
}
use llm_gateway_platform.Router.Chat.{
  Captured, start, lift, Step, finish, next, attempt, after_failure, after_do, call_provider,
  after_allow, after_lookup, after_ctx, visit, chain, after_resolve, chat,
}
use llm_gateway_platform.Router.Turn.{lift-Interrupts}
use llm_gateway_platform.Router.Offers.{
  Offer, missing, limited, serves, fails, missing_error, limited_error, passes_on, first_served,
  Steady, no_provider, refuses, answers, breaks, AllSteady, targets_of,
}

module _ {F W : Type 0} (env : Env W) (r : Router F W) (req : ChatRequest F)
    (live : Interrupts env (λ _. ⊥)) where
  module _ (target : Target) (failures : List TargetFailure) where
    -- What a turn of the loop over the targets does with an offer, up to the world it leaves.
    abbrev pub Done : Offer → Step W → Type 0
    Done missing x = (w : W) × (x ≡ next (record_failure target (missing_error target) failures) w)
    Done limited x = (w : W) × (x ≡ next (record_failure target (limited_error target) failures) w)
    Done (serves response) x =
        (w : W) × (x
          ≡ finish (ok (record { response = response; target = target; attempts = 1 })) w)
    Done (fails e) x =
        (w : W) × (x ≡ (
          if passes_on r.failover e
          then next (record_failure target e failures) w
          else finish
              (err (
                route_error (record {
                  logical_model = req.model;
                  failures = record_failure target e failures;
                })))
              w))

    after_failure-Done :
        (e : Err) (x : Option Err × W)
        → ((e : Err) → x.0 ≡ some e → ⊥)
        → Done (fails e) (after_failure env r req target failures e x)
    unfolding after_failure
    after_failure-Done e (some c, w) never = absurd (never c refl)
    after_failure-Done e (none, w) never =
        elim (Bool-cases (is_canceled e || is_deadline_exceeded e)) [
          | inl t ↦ (w, rw t)
          | inr t ↦ elim (Bool-cases (r.failover e)) [
            | inl u ↦ (w, rw (t, u))
            | inr u ↦ (w, rw (t, u))
          ]
        ]

    after_do-fails :
        (e : Err) (x : Option Err × (W × Captured))
        → x.0 ≡ some e
        → Done (fails e) (after_do env r req target failures x)
    unfolding after_do
    after_do-fails e (none, (w, c)) h = cc
    after_do-fails e (some e', (w, c)) h =
        subst (λ e''. Done (fails e'') (after_failure env r req target failures e' (env.ctx_err w)))
          (some-injective _ _ h) (after_failure-Done e' (env.ctx_err w) (live.at_ctx w))

    after_do-serves :
        (response : Option ChatResponse) (x : Option Err × (W × Captured))
        → x.0 ≡ none
        → x.1.1.resp ≡ response
        → x.1.1.attempts ≡ 1
        → Done (serves response) (after_do env r req target failures x)
    unfolding after_do
    after_do-serves response (some e, (w, c)) h got once = cc
    after_do-serves response (none, (w, c)) h got once = (w, rw (got, once))

    module _ (p : Provider F W) where
      abbrev call : W × Captured → Option Err × (W × Captured)
      call = attempt env r req p (clone_for_target req target)

      call_provider-serves :
          (response : Option ChatResponse) (w : W)
          → ((w : W)
              → ((p.chat (clone_for_target req target) w).0 ≡ response)
                × ((p.chat (clone_for_target req target) w).1 ≡ none))
          → Done (serves response) (call_provider env r req target failures p w)
      unfolding call_provider attempt
      call_provider-serves response w replies =
          let once =
            run-serves (lift env) r.retry call (lift-Interrupts env (λ _. ⊥) live) (w, start)
              (λ s. (replies s.0).1) in
          rw once (
            after_do-serves response (call ((lift env).ctx_err (w, start)).1) (replies _).1
              (replies _).0 refl)

      call_provider-fails :
          (e : Err) (w : W)
          → ((w : W) → (p.chat (clone_for_target req target) w).1 ≡ some e)
          → Done (fails e) (call_provider env r req target failures p w)
      unfolding call_provider attempt
      call_provider-fails e w broken = after_do-fails e _ (
          run-fails (lift env) r.retry call (lift-Interrupts env (λ _. ⊥) live) e (w, start)
            (λ s. broken s.0))

      after_allow-willing :
          (x : Bool × W)
          → x.0 ≡ true
          → after_allow env r req target failures p x
            ≡ call_provider env r req target failures p x.1
      unfolding after_allow
      after_allow-willing (true, w) h = refl
      after_allow-willing (false, w) h = cc

      after_allow-refuses :
          (x : Bool × W) → x.0 ≡ false → Done limited (after_allow env r req target failures p x)
      unfolding after_allow
      after_allow-refuses (true, w) h = cc
      after_allow-refuses (false, w) h = (w, refl)

      -- A limiter that never refuses lets the provider be called.
      after_lookup-willing :
          (o : Offer) (m : Option (Limiter W)) (w : W)
          → ((w : W) → Done o (call_provider env r req target failures p w))
          → ((l : Limiter W) → m ≡ some l → (w : W) → (l.allow w).0 ≡ true)
          → Done o (after_lookup env r req target failures (some p) m w)
      unfolding after_lookup
      after_lookup-willing o none w called willing = called w
      after_lookup-willing o (some l) w called willing =
          rw (after_allow-willing (l.allow w) (willing l refl w)) (called (l.allow w).1)

    after_lookup-Done :
        (o : Offer) (w : W)
        → Steady r req target o
        → Done o (
            after_lookup env r req target failures
              (lookup_provider r target.provider)
              (lookup_limiter r target.provider)
              w)
    unfolding after_lookup
    after_lookup-Done missing w (no_provider none_there) = (w, rw none_there)
    after_lookup-Done limited w (refuses p l registered set closed) =
        rw (registered, set) (after_allow-refuses p (l.allow w) (closed w))
    after_lookup-Done (serves response) w (answers p _ registered willing replies) = rw registered (
        after_lookup-willing p (serves response) _ w
          (λ w. call_provider-serves p response w replies) willing)
    after_lookup-Done (fails e) w (breaks p _ registered willing broken) =
        rw registered
          (after_lookup-willing p (fails e) _ w (λ w. call_provider-fails p e w broken) willing)

    after_ctx-Done :
        (o : Offer) (x : Option Err × W)
        → Steady r req target o
        → ((e : Err) → x.0 ≡ some e → ⊥)
        → Done o (after_ctx env r req target failures x)
    unfolding after_ctx
    after_ctx-Done o (some e, w) steady never = absurd (never e refl)
    after_ctx-Done o (none, w) steady never = after_lookup-Done o w steady

    pub visit-Done :
        (o : Offer) (w : W) → Steady r req target o → Done o (visit env r req target failures w)
    unfolding visit
    visit-Done o w steady = after_ctx-Done o (env.ctx_err w) steady (live.at_ctx w)

  -- The rest of the loop after a turn.
  abbrev pub continue : List Target → Step W → Outcome × W
  continue targets x = elim x [
    | finish outcome w ↦ (outcome, w)
    | next failures w ↦ chain env r req targets failures w
  ]

  chain-first_served :
      (os : List (Target × Offer)) (failures : List TargetFailure) (w : W)
      → AllSteady r req os
      → (chain env r req (targets_of os) failures w).0
        ≡ first_served r.failover req.model os failures
  unfolding chain first_served
  chain-first_served [] failures w steady = refl
  chain-first_served ((t, missing) ∷ rest) failures w (steady, later) =
      let (w', turn) = visit-Done t failures missing w steady in
      ap (λ x. (continue (targets_of rest) x).0) turn ∙ chain-first_served rest _ w' later
  chain-first_served ((t, limited) ∷ rest) failures w (steady, later) =
      let (w', turn) = visit-Done t failures limited w steady in
      ap (λ x. (continue (targets_of rest) x).0) turn ∙ chain-first_served rest _ w' later
  chain-first_served ((t, serves response) ∷ rest) failures w (steady, later) =
      let (w', turn) = visit-Done t failures (serves response) w steady in
      ap (λ x. (continue (targets_of rest) x).0) turn
  chain-first_served ((t, fails e) ∷ rest) failures w (steady, later) =
      let (w', turn) = visit-Done t failures (fails e) w steady in
      elim (Bool-cases (passes_on r.failover e)) [
        | inl on ↦ rw on (
            ap (λ x. (continue (targets_of rest) x).0) (rw on at turn)
            ∙ chain-first_served rest _ w' later)
        | inr off ↦ rw off (ap (λ x. (continue (targets_of rest) x).0) (rw off at turn))
      ]

  -- While the context is never done: if the model resolves to a route with targets, each of which has
  -- an offer that does not change (no provider, a limiter that always refuses, a response, or an
  -- error), then `Chat` returns what the specification says, the first response or the error of the
  -- route, whatever the retry policy, and whatever the state of the world.
  pub chat-first_served :
      (route : Route) (t : Target) (o : Offer) (os : List (Target × Offer)) (w : W)
      → resolve r req.model ≡ some route
      → route.targets ≡ targets_of ((t, o) ∷ os)
      → AllSteady r req ((t, o) ∷ os)
      → (chat env r req w).0 ≡ first_served r.failover req.model ((t, o) ∷ os) []
  unfolding chat after_resolve
  chat-first_served route t o os w found same steady =
      rw (found, after_resolve, same) (chain-first_served ((t, o) ∷ os) [] w steady)
