-- ===== src/Tests/Router.antt =====
-- Requests routed through providers that always succeed or always fail.
use llm_gateway_platform.Prelude.{ℕ, suc, ◌≡◌, refl, String, true, false, none, some, [], ◌∷◌}
use llm_gateway_platform.Prelude.Int.{ℤ, pos}
use llm_gateway_platform.Prelude.Dict.{lookup, insert}
use llm_gateway_platform.Provider.{ChatRequest, ChatResponse, stop}
use llm_gateway_platform.Provider.Errors.{
  Err, new_http_error, new_transport_error, is_retryable, is_canceled, is_deadline_exceeded,
  client_timeout,
}
use llm_gateway_platform.Prelude.Text.{words}
use llm_gateway_platform.Retry.{
  default_policy, capped, jittered, backoff, sleep, after_sleep, after_call, run, do_loop, round,
}
use llm_gateway_platform.Retry
use llm_gateway_platform.Router.{
  Target, Route, Provider, Limiter, Router, ok, err, route_error, record_failure, new, register,
  add_route, resolve, lookup_provider, lookup_limiter, clone_for_target,
}
use llm_gateway_platform.Router.Chat
use llm_gateway_platform.Router.Chat.{
  attempt, after_failure, after_do, call_provider, after_allow, after_lookup, visit, chain,
  after_resolve, chat,
}
use llm_gateway_platform.Router.Failover.{ChatEnds, chat_ends}
use llm_gateway_platform.Router.Deadline.{TimesOut, deadline_stops_failover}
use llm_gateway_platform.Tests.Retry.{quiet, quiet-Interrupts}

unfoldable pub routing : Unit {0}
unfolding chat after_resolve chain visit Chat.after_ctx after_lookup after_allow call_provider
    after_do after_failure attempt resolve lookup_provider lookup_limiter clone_for_target register
    add_route new lookup insert run do_loop round Retry.after_ctx after_call after_sleep backoff
    jittered sleep capped is_retryable is_canceled is_deadline_exceeded new_http_error
    new_transport_error
routing = tt

-- The request's temperature is left out, so its type does not matter.
abbrev pub question : String → ChatRequest ℤ
question model = record {
  model = model;
  system = "";
  messages = record { role = "user"; content = "hi" } ∷ [];
  max_tokens = pos 16;
  temperature = none;
  metadata = [];
}

abbrev pub answer : String → ChatResponse
answer model = record {
  provider = "openai";
  model = model;
  content = "hello";
  finish_reason = stop;
  usage = record { input_tokens = pos 3; output_tokens = pos 1 };
}

-- The world counts the calls of all providers.
abbrev pub working : Provider ℤ ℕ
working = record { name = "openai"; chat = λ req w. (some (answer req.model), none, suc w) }

abbrev failing : Err → Provider ℤ ℕ
failing e = record { name = "anthropic"; chat = λ req w. (none, some e, suc w) }

abbrev pub claude : Target
claude = record { provider = "anthropic"; model = "claude-opus-4-8" }

abbrev pub gpt : Target
gpt = record { provider = "openai"; model = "gpt-4o" }

abbrev pub both : Route
both = record { targets = claude ∷ gpt ∷ [] }

abbrev pub overloaded : Err
overloaded = new_http_error "anthropic" 503 "" "overloaded"

abbrev bad_request : Err
bad_request = new_http_error "anthropic" 400 "" "bad request"

abbrev timed_out : Err
timed_out = new_transport_error "anthropic" (client_timeout (words "Client.Timeout exceeded" ∷ []))

unfoldable pub router_with : Err → Router ℤ ℕ
unfolding new register add_route insert
router_with e = add_route "chat-default" both (register working (register (failing e) new))

-- Three calls of the overloaded provider, then one of the next.
falls_over :
    chat quiet (router_with overloaded) (question "chat-default") 0
    ≡ (ok (record { response = some (answer "gpt-4o"); target = gpt; attempts = 1 }), 4)
unfolding routing router_with
falls_over = refl

-- One call, and no failover.
stops_at_bad_request : chat quiet (router_with bad_request) (question "chat-default") 0 ≡ (
  err (
      route_error (record {
        logical_model = "chat-default";
        failures = record { target = claude; error = bad_request } ∷ [];
      })),
  1,
)
unfolding routing router_with
stops_at_bad_request = refl

abbrev closed : Limiter ℕ
closed = record { allow = λ w. (false, w) }

chat_ends_example :
    ChatEnds quiet
      (router_with overloaded)
      (question "chat-default")
      (λ _. ⊥)
      both.targets
      (chat quiet (router_with overloaded) (question "chat-default") 0).0
unfolding routing router_with
chat_ends_example =
    chat_ends quiet (router_with overloaded) (question "chat-default") (λ _. ⊥) both claude
      (gpt ∷ []) 0 quiet-Interrupts refl refl

failing-TimesOut : TimesOut (failing timed_out)
unfolding routing
failing-TimesOut sub w = (timed_out, refl, refl)

deadline_stops_failover_example :
    (e : Err) × (is_deadline_exceeded e ≡ true)
    × ((chain quiet (router_with timed_out) (question "chat-default") (claude ∷ gpt ∷ []) [] 0).0
        ≡ err (
            route_error
              (record { logical_model = "chat-default"; failures = record_failure claude e [] })))
unfolding routing router_with
deadline_stops_failover_example =
    deadline_stops_failover quiet (router_with timed_out) (question "chat-default")
      (failing timed_out) claude quiet-Interrupts refl refl failing-TimesOut (gpt ∷ []) [] 0
