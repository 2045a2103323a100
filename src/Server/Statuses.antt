-- ===== src/Server/Statuses.antt =====
-- The status with which internal/server/server.go answers a request that every target of its route
-- has failed.
use llm_gateway_platform.Prelude.{String, ◌≡◌, refl, Bool, false, Option, some, List}
use llm_gateway_platform.Float.{Float}
use llm_gateway_platform.Provider.Errors.{Err, as_provider_error, is_canceled, is_deadline_exceeded}
use llm_gateway_platform.Router.{
  Target, Router, RouteError, TargetFailure, route_error, record_failure, last_error,
}
use llm_gateway_platform.Server.{
  error, write_json, status_or, write_other_error, write_chat_error, chat_error_deadline_exceeded,
  chat_error_canceled, chat_error_text,
}

-- The answer to a `*RouteError` is that to its last failure.
pub upstream_answer :
    {F : Type 0} (failed : RouteError) (e : Err)
    → last_error failed ≡ some e
    → is_canceled e ≡ false
    → is_deadline_exceeded e ≡ false
    → write_chat_error {F = F} (route_error failed)
      ≡ write_json
          (status_or (as_provider_error e) 502)
          (error "upstream_error" (chat_error_text (route_error failed)))
unfolding write_chat_error write_other_error chat_error_deadline_exceeded chat_error_canceled
upstream_answer failed e last live early = rw (last, early, live) refl

-- `errors.Is` finds no error of a context.
abbrev IsLive : Err → Type 0
IsLive e = (is_canceled e ≡ false) × (is_deadline_exceeded e ≡ false)

module _ (failover : Err → Bool) (model : String) where
  -- The error of a route whose last target has failed with `e`.
  abbrev pub all_failed : Target → Err → List TargetFailure → RouteError
  all_failed t e failures = record { logical_model = model; failures = record_failure t e failures }
