-- ===== src/Server.antt =====
-- internal/server/server.go: the HTTP handlers; `New` and the routes are in Mux, and `Start` is in
-- Lifecycle. The JSON text of a body is not modelled: a request stands as what `json.Decoder.Decode`
-- makes of it (`none` where it returns an error), and a response as the value that
-- `json.Encoder.Encode` is given.
pub mod Answers
pub mod Panics
pub mod Refusals
pub mod Statuses
pub mod Abandoned
pub mod Mux
pub mod Dispatch
pub mod Lifecycle
pub mod Shutdown
use llm_gateway_platform.Prelude.{
  ℕ, String, Bool, true, false, Option, none, some, List, [], ◌∷◌, str_eq, if◌then◌else◌, ◌==◌,
  ◌&&◌, leb,
}
use llm_gateway_platform.Prelude.Int.{ℤ}
use llm_gateway_platform.Prelude.Text.{Text, plain}
use llm_gateway_platform.Float.{Float}
use llm_gateway_platform.Provider.{Name, FinishReason, Message, ChatRequest, Usage, ChatResponse}
use llm_gateway_platform.Provider.Errors.{
  Err, ErrorInfo, error_text, is_canceled, is_deadline_exceeded, as_provider_error,
}
use llm_gateway_platform.Runtime.{Env}
use llm_gateway_platform.Router.{
  Router, Result, RouteError, ChatError, bare, route_error, Outcome, ok, err, last_error,
  route_error_text,
}
use llm_gateway_platform.Router.Chat.{chat}
use llm_gateway_platform.Pricing.{Table, Cost, cost}

pub record ChatCompletionRequest (F : Type 0) : Type 0 where
  pub model : String
  pub system : String
  pub messages : List Message
  pub max_tokens : ℤ
  pub temperature : Option F

pub record ChatCompletionResponse (F : Type 0) : Type 0 where
  pub provider : Name
  pub model : String
  pub content : String
  pub finish_reason : FinishReason
  pub usage : Usage
  pub attempts : ℕ
  pub cost : Cost F

-- The value of a response's body.
pub data Body (F : Type 0) : Type 0 where
  error : (code : String) (message : Text) → Body F
  completion : ChatCompletionResponse F → Body F
  report : String → Body F  -- {"status": …}; the time that /healthz adds is left out

-- What a handler does: it writes a response, or it panics (and net/http drops the connection).
pub data Reply (F : Type 0) : Type 0 where
  write : ℕ → Body F → Reply F
  panic : Reply F

-- `errors.Is` and `errors.As` on an error of `Router.Chat`; a `*RouteError` unwraps to its last
-- failure.
abbrev on_last {ℓ} : {A : Type ℓ} → (Err → A) → A → Option Err → A
on_last f otherwise none = otherwise
on_last f otherwise (some e) = f e

unfoldable pub chat_error_canceled : ChatError → Bool
unfolding last_error is_canceled
chat_error_canceled (bare e) = is_canceled e
chat_error_canceled (route_error e) = on_last is_canceled false (last_error e)

unfoldable pub chat_error_deadline_exceeded : ChatError → Bool
unfolding last_error is_deadline_exceeded
chat_error_deadline_exceeded (bare e) = is_deadline_exceeded e
chat_error_deadline_exceeded (route_error e) = on_last is_deadline_exceeded false (last_error e)

unfoldable pub chat_error_text : ChatError → Text
unfolding error_text route_error_text
chat_error_text (bare e) = error_text e
chat_error_text (route_error e) = route_error_text e

-- The status of a provider's error, and another where there is none or it is 0.
abbrev pub status_or : Option ErrorInfo → ℕ → ℕ
status_or none otherwise = otherwise
status_or (some i) otherwise = if i.status == 0 then otherwise else i.status

abbrev pub is_empty {ℓ} : {A : Type ℓ} → List A → Bool
is_empty [] = true
is_empty (_ ∷ _) = false

module _ {F : Type 0} where
  -- `writeJSON`; `w.WriteHeader` panics on a status that has not three digits.
  abbrev pub write_json : ℕ → Body F → Reply F
  write_json status body = if leb 100 status && leb status 999 then write status body else panic

  -- `writeError`
  abbrev pub write_error : ℕ → String → Text → Reply F
  write_error status code message = write_json status (error code message)

  -- The `default` case of `writeChatError`; `errors.As` finds no `*RouteError` in a bare error.
  unfoldable pub write_other_error : ChatError → Reply F
  unfolding last_error as_provider_error chat_error_text
  write_other_error (route_error e) =
      write_error (status_or (on_last as_provider_error none (last_error e)) 502) "upstream_error"
        (chat_error_text (route_error e))
  write_other_error (bare e) = write_error 400 "unknown_model" (chat_error_text (bare e))

  -- `writeChatError`
  unfoldable pub write_chat_error : ChatError → Reply F
  unfolding write_other_error chat_error_deadline_exceeded chat_error_canceled
  write_chat_error e =
      if chat_error_deadline_exceeded e
      then write_error 504 "upstream_timeout" (chat_error_text e)
      else if chat_error_canceled e
      then write_error 408 "request_canceled" (chat_error_text e)
      else write_other_error e

  -- `handleHealth`, `handleReady`
  abbrev pub handle_health : Reply F
  handle_health = write 200 (report "ok")

  abbrev pub handle_ready : Reply F
  handle_ready = write 200 (report "ready")

module _ {F W : Type 0} (f : Float F) (env : Env W) (router : Router F W)
    (pricer : Option (Table F)) where
  -- The response to a request that was served.
  unfoldable pub completion_of : ChatResponse → ℕ → ChatCompletionResponse F
  completion_of response attempts = record {
    provider = response.provider;
    model = response.model;
    content = response.content;
    finish_reason = response.finish_reason;
    usage = response.usage;
    attempts = attempts;
    cost = cost f pricer response.provider response.model response.usage;
  }

  -- After `router.Chat`; to read the fields of a nil response is a panic.
  unfoldable pub after_chat : Outcome → Reply F
  unfolding completion_of
  after_chat (err e) = write_chat_error e
  after_chat (ok result) = elim result.response [
    | none ↦ panic
    | some response ↦ write 200 (completion (completion_of response result.attempts))
  ]

  -- The request that the handler gives to the router.
  abbrev pub unified : ChatCompletionRequest F → String → ChatRequest F
  unified req caller = record {
    model = req.model;
    system = req.system;
    messages = req.messages;
    max_tokens = req.max_tokens;
    temperature = req.temperature;
    metadata = ("caller", caller) ∷ [];
  }

  -- `handleChatCompletions`, given the decoded body and the header `X-Gateway-Caller`.
  unfoldable pub handle_chat_completions :
      Option (ChatCompletionRequest F) → String → W → Reply F × W
  handle_chat_completions none caller w =
      (write_error 400 "invalid_request" (plain "request body is not valid JSON"), w)
  handle_chat_completions (some req) caller w =
      if str_eq req.model ""
      then (write_error 400 "invalid_request" (plain "model is required"), w)
      else if is_empty req.messages
      then (write_error 400 "invalid_request" (plain "messages must not be empty"), w)
      else let (outcome, w') = chat env router (unified req caller) w in (after_chat outcome, w')
