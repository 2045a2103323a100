-- ===== src/Router/Offers.antt =====
-- What `Chat` of internal/router/router.go promises, without retries, tokens and time: the first
-- target that serves the request answers it, and the failures before it are passed over.
use llm_gateway_platform.Prelude.{
  ◌≡◌, Bool, true, false, ◌||◌, ◌&&◌, not, Option, none, some, List, [], ◌∷◌, map, if◌then◌else◌,
  String,
}
use llm_gateway_platform.Prelude.Text.{words, quoted}
use llm_gateway_platform.Provider.{ChatRequest, ChatResponse}
use llm_gateway_platform.Provider.Errors.{
  Err, errorf, is_canceled, is_deadline_exceeded, new_http_error,
}
use llm_gateway_platform.Router.{
  Target, Provider, Limiter, Router, TargetFailure, Outcome, ok, err, route_error, record_failure,
  lookup_provider, lookup_limiter, clone_for_target,
}

-- What a target has for a request: no provider, a limiter that refuses it, a response, or an error.
pub data Offer : Type 0 where
  missing : Offer
  limited : Offer
  serves : Option ChatResponse → Offer
  fails : Err → Offer

-- The error that stands for a target which is not called.
abbrev pub missing_error : Target → Err
missing_error t = errorf (words "provider " ∷ quoted t.provider ∷ words " is not registered" ∷ [])

abbrev pub limited_error : Target → Err
limited_error t = new_http_error t.provider 429 "rate_limited" "local rate limit exceeded"

-- The error of a call after which the next target is tried.
abbrev pub passes_on : (Err → Bool) → Err → Bool
passes_on failover e = not (is_canceled e || is_deadline_exceeded e) && failover e

-- The specification: the targets with their offers, in order.
unfoldable pub first_served :
    (failover : Err → Bool) (model : String) → List (Target × Offer) → List TargetFailure → Outcome
first_served failover model [] failures =
    err (route_error (record { logical_model = model; failures = failures }))
first_served failover model ((t, missing) ∷ rest) failures =
    first_served failover model rest (record_failure t (missing_error t) failures)
first_served failover model ((t, limited) ∷ rest) failures =
    first_served failover model rest (record_failure t (limited_error t) failures)
first_served failover model ((t, serves response) ∷ rest) failures =
    ok (record { response = response; target = t; attempts = 1 })
first_served failover model ((t, fails e) ∷ rest) failures =
    let failures' = record_failure t e failures in
    let later = first_served failover model rest failures' in
    if passes_on failover e
    then later
    else err (route_error (record { logical_model = model; failures = failures' }))

abbrev pub targets_of : List (Target × Offer) → List Target
targets_of os = map (λ o. o.0) os

module _ {F W : Type 0} (r : Router F W) (req : ChatRequest F) where
  -- No limiter of the target's provider ever refuses.
  abbrev pub Unlimited : Target → Type 0
  Unlimited t =
      (l : Limiter W) → lookup_limiter r t.provider ≡ some l → (w : W) → (l.allow w).0 ≡ true

  -- The target has the offer whatever the state of the world.
  pub data Steady (t : Target) : Offer → Type 0 where
    no_provider : lookup_provider r t.provider ≡ none → Steady t missing
    refuses :
        (p : Provider F W) (l : Limiter W)
        → lookup_provider r t.provider ≡ some p
        → lookup_limiter r t.provider ≡ some l
        → ((w : W) → (l.allow w).0 ≡ false)
        → Steady t limited
    answers :
        (p : Provider F W) (response : Option ChatResponse)
        → lookup_provider r t.provider ≡ some p
        → Unlimited t
        → ((w : W)
            → ((p.chat (clone_for_target req t) w).0 ≡ response)
              × ((p.chat (clone_for_target req t) w).1 ≡ none))
        → Steady t (serves response)
    breaks :
        (p : Provider F W) (e : Err)
        → lookup_provider r t.provider ≡ some p
        → Unlimited t
        → ((w : W) → (p.chat (clone_for_target req t) w).1 ≡ some e)
        → Steady t (fails e)

  abbrev pub AllSteady : List (Target × Offer) → Type 0
  AllSteady [] = Unit
  AllSteady ((t, o) ∷ rest) = Steady t o × AllSteady rest
