-- ===== src/Router/Agreement.antt =====
-- `Chat` of internal/router/router.go reads the router's maps by key alone.
use llm_gateway_platform.Prelude.{
  String, ◌≡◌, refl, ◌∙◌, ap, Bool, true, false, Option, none, some, List, [], ◌∷◌,
}
use llm_gateway_platform.Provider.{Name, ChatRequest}
use llm_gateway_platform.Provider.Errors.{Err}
use llm_gateway_platform.Runtime.{Env}
use llm_gateway_platform.Retry.{run}
use llm_gateway_platform.Router.{
  Target, Route, Provider, Limiter, Router, TargetFailure, Outcome, resolve, lookup_provider,
  lookup_limiter, clone_for_target,
}
use llm_gateway_platform.Router.Chat.{
  Captured, start, lift, Step, finish, next, attempt, after_failure, after_do, call_provider,
  after_allow, after_lookup, after_ctx, visit, chain, after_resolve, chat,
}

-- Two routers that answer every lookup alike, with one retry policy and one failover predicate.
pub record Agree {F W : Type 0} (r r' : Router F W) : Type 0 where
  pub providers : (name : Name) → lookup_provider r name ≡ lookup_provider r' name
  pub limiters : (name : Name) → lookup_limiter r name ≡ lookup_limiter r' name
  pub routes : (model : String) → resolve r model ≡ resolve r' model
  pub retry : r.retry ≡ r'.retry
  pub failover : r.failover ≡ r'.failover

module _ {F W : Type 0} (env : Env W) (req : ChatRequest F) (r r' : Router F W)
    (same : Agree r r') where
  module _ (target : Target) (failures : List TargetFailure) where
    after_failure-Agree :
        (e : Err) (x : Option Err × W)
        → after_failure env r req target failures e x ≡ after_failure env r' req target failures e x
    unfolding after_failure
    after_failure-Agree e (c, w) = rw (ap (λ f. f e) same.failover)

    after_do-Agree :
        (x : Option Err × (W × Captured))
        → after_do env r req target failures x ≡ after_do env r' req target failures x
    unfolding after_do
    after_do-Agree (none, (w, c)) = refl
    after_do-Agree (some e, (w, c)) = after_failure-Agree e (env.ctx_err w)

    call_provider-Agree :
        (p : Provider F W) (w : W)
        → call_provider env r req target failures p w ≡ call_provider env r' req target failures p w
    unfolding call_provider attempt
    call_provider-Agree p w =
        after_do-Agree _
        ∙ ap
            (λ policy. after_do env r' req target failures (
              run (lift env) policy (attempt env r' req p (clone_for_target req target))
                (w, start)))
            same.retry

    after_allow-Agree :
        (p : Provider F W) (x : Bool × W)
        → after_allow env r req target failures p x ≡ after_allow env r' req target failures p x
    unfolding after_allow
    after_allow-Agree p (true, w) = call_provider-Agree p w
    after_allow-Agree p (false, w) = refl

    after_lookup-Agree :
        (q : Option (Provider F W)) (m : Option (Limiter W)) (w : W)
        → after_lookup env r req target failures q m w
          ≡ after_lookup env r' req target failures q m w
    unfolding after_lookup
    after_lookup-Agree none m w = refl
    after_lookup-Agree (some p) none w = call_provider-Agree p w
    after_lookup-Agree (some p) (some l) w = after_allow-Agree p (l.allow w)

    after_ctx-Agree :
        (x : Option Err × W)
        → after_ctx env r req target failures x ≡ after_ctx env r' req target failures x
    unfolding after_ctx
    after_ctx-Agree (some e, w) = refl
    after_ctx-Agree (none, w) = after_lookup-Agree _ _ w ∙ λ i.
        after_lookup env r' req target failures (same.providers target.provider i)
          (same.limiters target.provider i) w

    visit-Agree : (w : W) → visit env r req target failures w ≡ visit env r' req target failures w
    unfolding visit
    visit-Agree w = after_ctx-Agree (env.ctx_err w)

  -- The rest of the loop after a turn.
  continue-Agree :
      (ts : List Target) (x : Step W)
      → ((failures : List TargetFailure) (w : W)
          → chain env r req ts failures w ≡ chain env r' req ts failures w)
      → (elim x as (λ _. Outcome × W) [
        | finish outcome w ↦ (outcome, w)
        | next failures w ↦ chain env r req ts failures w
      ])
        ≡ elim x as (λ _. Outcome × W) [
          | finish outcome w ↦ (outcome, w)
          | next failures w ↦ chain env r' req ts failures w
        ]
  continue-Agree ts (finish outcome w) rest = refl
  continue-Agree ts (next failures w) rest = rest failures w

  chain-Agree :
      (targets : List Target) (failures : List TargetFailure) (w : W)
      → chain env r req targets failures w ≡ chain env r' req targets failures w
  unfolding chain
  chain-Agree [] failures w = refl
  chain-Agree (t ∷ ts) failures w =
      rw (visit-Agree t failures w, chain)
        (continue-Agree ts (visit env r' req t failures w) (chain-Agree ts))

  targets-Agree :
      (targets : List Target) (w : W)
      → after_resolve env r req (some (record { targets = targets })) w
        ≡ after_resolve env r' req (some (record { targets = targets })) w
  unfolding after_resolve
  targets-Agree [] w = refl
  targets-Agree (t ∷ ts) w = chain-Agree (t ∷ ts) [] w

  after_resolve-Agree :
      (o : Option Route) (w : W) → after_resolve env r req o w ≡ after_resolve env r' req o w
  unfolding after_resolve
  after_resolve-Agree none w = refl
  after_resolve-Agree (some route) w = targets-Agree route.targets w

  pub chat-Agree : (w : W) → chat env r req w ≡ chat env r' req w
  unfolding chat
  chat-Agree w =
      after_resolve-Agree (resolve r req.model) w
      ∙ ap (λ o. after_resolve env r' req o w) (same.routes req.model)
