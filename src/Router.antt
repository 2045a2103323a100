-- ===== src/Router.antt =====
-- internal/router/router.go: the routing engine. Logging, and the latency that is only logged, are
-- left out. The maps do not change while a request is routed: `Register` and the other setters are
-- operations of their own, between requests.
pub mod Chat
pub mod Turn
pub mod Failover
pub mod Deadline
pub mod Declined
pub mod Setup
pub mod Limited
pub mod Offers
pub mod Refinement
pub mod Passing
pub mod Registry
pub mod Agreement
pub mod Load
use llm_gateway_platform.Prelude.{
  ℕ, suc, ◌+◌, String, Bool, true, false, not, ◌||◌, Option, none, some, List, [], ◌∷◌, ◌++◌,
  is_some, if◌then◌else◌, length, get_last?,
}
use llm_gateway_platform.Prelude.Dict.{Dict, lookup, insert}
use llm_gateway_platform.Prelude.Text.{Text, words, quoted, number}
use llm_gateway_platform.Provider.{Name, ChatRequest, ChatResponse}
use llm_gateway_platform.Provider.Errors.{
  Err, errorf, is_canceled, is_deadline_exceeded, is_retryable, new_http_error,
}
use llm_gateway_platform.Runtime.{Env}
use llm_gateway_platform.Retry.{Policy, default_policy, run}

pub record Target : Type 0 where
  pub provider : Name
  pub model : String

pub record Route : Type 0 where
  pub targets : List Target

-- The interface `provider.Provider`; a reply is Go's pair of a pointer and an error.
pub record Provider (F W : Type 0) : Type 0 where
  pub name : Name
  pub chat : ChatRequest F → W → Option ChatResponse × Option Err × W

-- What the router asks of a `*ratelimit.Limiter`.
pub record Limiter (W : Type 0) : Type 0 where
  pub allow : W → Bool × W

pub record Router (F W : Type 0) : Type 0 where
  pub providers : Dict (Provider F W)
  pub limiters : Dict (Option (Limiter W))  -- a nil pointer can be set
  pub routes : Dict Route
  pub fallback : Route
  pub retry : Policy
  pub failover : Err → Bool

-- What `Chat` returns on success.
pub record Result : Type 0 where
  pub response : Option ChatResponse
  pub target : Target
  pub attempts : ℕ

pub record TargetFailure : Type 0 where
  pub target : Target
  pub error : Err

pub record RouteError : Type 0 where
  pub logical_model : String
  pub failures : List TargetFailure

-- An error that `Chat` returns.
pub data ChatError : Type 0 where
  bare : Err → ChatError
  route_error : RouteError → ChatError

pub data Outcome : Type 0 where
  ok : Result → Outcome
  err : ChatError → Outcome

-- `(*RouteError).Error`
unfoldable pub route_error_text : RouteError → Text
route_error_text e =
    words "router: all "
    ∷ number (length e.failures)
    ∷ words " target(s) failed for model "
    ∷ quoted e.logical_model
    ∷ []

-- `(*RouteError).Unwrap`
unfoldable pub last_error : RouteError → Option Err
last_error e = elim (get_last? e.failures) [ none ↦ none | some f ↦ some f.error ]

-- `record`, a reserved word here
abbrev pub record_failure : Target → Err → List TargetFailure → List TargetFailure
record_failure t e failures = failures ++ record { target = t; error = e } ∷ []

-- `r.fallback`, if it has targets
abbrev pub default_route : Route → Option Route
default_route route = elim route.targets [ [] ↦ none | _ ∷ _ ↦ some route ]

-- A nil pointer in the map reads as a missing one.
abbrev pub join {ℓ} : {A : Type ℓ} → Option (Option A) → Option A
join none = none
join (some l) = l

-- `cloneForTarget`
unfoldable pub clone_for_target : {F : Type 0} → ChatRequest F → Target → ChatRequest F
clone_for_target req t = record req { model = t.model }

module _ {F W : Type 0} where
  -- `New` with no option
  unfoldable pub new : Router F W
  new = record {
    providers = [];
    limiters = [];
    routes = [];
    fallback = record { targets = [] };
    retry = default_policy;
    failover = is_retryable;
  }

  -- `WithRetryPolicy`, `WithFailoverPredicate`
  abbrev pub with_retry_policy : Policy → Router F W → Router F W
  with_retry_policy p r = record r { retry = p }

  abbrev pub with_failover_predicate : (Err → Bool) → Router F W → Router F W
  with_failover_predicate fn r = record r { failover = fn }

  -- `Register`
  unfoldable pub register : Provider F W → Router F W → Router F W
  register p r = record r { providers = insert p.name p r.providers }

  -- `SetLimiter`
  unfoldable pub set_limiter : Name → Option (Limiter W) → Router F W → Router F W
  set_limiter name l r = record r { limiters = insert name l r.limiters }

  -- `AddRoute`
  unfoldable pub add_route : String → Route → Router F W → Router F W
  add_route logical_model route r = record r { routes = insert logical_model route r.routes }

  -- `SetDefaultRoute`
  unfoldable pub set_default_route : Route → Router F W → Router F W
  set_default_route route r = record r { fallback = route }

  -- `resolve`
  unfoldable pub resolve : Router F W → String → Option Route
  resolve r logical_model = elim (lookup logical_model r.routes) [
    | some route ↦ some route
    | none ↦ default_route r.fallback
  ]

  -- `lookup`, which reads two maps; a missing key reads as nil.
  unfoldable pub lookup_provider : Router F W → Name → Option (Provider F W)
  lookup_provider r name = lookup name r.providers

  unfoldable pub lookup_limiter : Router F W → Name → Option (Limiter W)
  lookup_limiter r name = join (lookup name r.limiters)
