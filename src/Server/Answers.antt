-- ===== src/Server/Answers.antt =====
-- How `handleChatCompletions` of internal/server/server.go answers.
use llm_gateway_platform.Prelude.{
  ℕ, String, ◌≡◌, refl, ◌∙◌, ◌≢◌, ◌⊎◌, inl, inr, Option, none, some, [], arith, str_eq, Bool-cases,
  Option-cases, eq_iff,
}
use llm_gateway_platform.Prelude.Text.{Text, plain}
use llm_gateway_platform.Float.{Float}
use llm_gateway_platform.Provider.{ChatResponse}
use llm_gateway_platform.Provider.Errors.{Err}
use llm_gateway_platform.Runtime.{Env}
use llm_gateway_platform.Retry.Calls.{Interrupts}
use llm_gateway_platform.Router.{
  Route, Router, Result, ChatError, bare, route_error, Outcome, ok, err, resolve,
}
use llm_gateway_platform.Router.Chat.{chat}
use llm_gateway_platform.Router.Failover.{ChatEnds, chat_served}
use llm_gateway_platform.Pricing.{Table}
use llm_gateway_platform.Server.{
  ChatCompletionRequest, ChatCompletionResponse, error, completion, write, panic, write_error,
  write_other_error, write_chat_error, completion_of, after_chat, unified, is_empty,
  handle_chat_completions,
}

module _ {F W : Type 0} (f : Float F) (env : Env W) (router : Router F W)
    (pricer : Option (Table F)) where
  -- A request that the handler turns down itself: not decoded, no model, or no messages.
  abbrev pub IsInvalid : Option (ChatCompletionRequest F) → Type 0
  IsInvalid none = Unit
  IsInvalid (some req) = (req.model ≡ "") ⊎ (req.messages ≡ [])

  -- An invalid request gets the status 400 with the code "invalid_request", and nothing else happens:
  -- the router is not asked, and the world stays as it is.
  pub invalid_request :
      (req : Option (ChatCompletionRequest F)) (caller : String) (w : W)
      → IsInvalid req
      → (message : Text) × (handle_chat_completions f env router pricer req caller w
          ≡ (write 400 (error "invalid_request" message), w))
  unfolding handle_chat_completions
  invalid_request none caller w h = (plain "request body is not valid JSON", refl)
  invalid_request (some req) caller w h = elim (Bool-cases (str_eq req.model "")) [
    | inl empty ↦ (plain "model is required", rw empty)
    | inr model ↦ elim h [
      | inl none_given ↦ let bad = (eq_iff req.model "").1 none_given in cc
      | inr none_given ↦ (plain "messages must not be empty", rw model (rw none_given))
    ]
  ]

  -- An error of the router is never answered as a completion.
  error_answer :
      (e : ChatError) (status : ℕ) (c : ChatCompletionResponse F)
      → write_chat_error e ≢ write status (completion c)
  unfolding write_chat_error write_other_error
  error_answer (bare e) status c h = ground arith
  error_answer (route_error e) status c h = ground arith

  -- What a completion in an answer comes from.
  abbrev Completes : Outcome → ℕ → ChatCompletionResponse F → Type 0
  Completes o status c =
      (result : Result) × (response : ChatResponse) × (o ≡ ok result)
      × (result.response ≡ some response)
      × (status ≡ 200)
      × (c ≡ completion_of f env router pricer response result.attempts)

  after_chat-Completes :
      (o : Outcome) (status : ℕ) (c : ChatCompletionResponse F)
      → after_chat f env router pricer o ≡ write status (completion c)
      → Completes o status c
  unfolding after_chat
  after_chat-Completes (err e) status c h = absurd (error_answer e status c h)
  after_chat-Completes (ok result) status c h = elim (Option-cases result.response) [
    | inl missing ↦ let bad : panic ≡ write status (completion c) = rw missing at h in cc
    | inr (response, found) ↦
        let same : write 200
              (completion (completion_of f env router pricer response result.attempts))
            ≡ write status (completion c) =
          rw found at h in
        (result, response, refl, found, ground arith, ground arith)
  ]

  no_completion :
      (status : ℕ) (code : String) (t : Text) (n : ℕ) (c : ChatCompletionResponse F)
      → write_error status code t ≢ write n (completion c)
  no_completion status code t n c h = ground arith

  module _ (C : Err → Type 0) (cuts : Interrupts env C) (req : ChatCompletionRequest F)
      (caller : String) (w : W) where
    -- A request that was answered with a completion was served by a target of the model's route.
    pub record Answered (status : ℕ) (c : ChatCompletionResponse F) : Type 0 where
      pub route : Route
      pub result : Result
      pub response : ChatResponse
      pub routed : resolve router req.model ≡ some route
      pub ended :
          ChatEnds env router (unified f env router pricer req caller) C route.targets (ok result)
      pub replied : result.response ≡ some response
      pub success : status ≡ 200
      pub echoed : c ≡ completion_of f env router pricer response result.attempts

    served-Answered :
        (o : Outcome) (status : ℕ) (c : ChatCompletionResponse F)
        → (chat env router (unified f env router pricer req caller) w).0 ≡ o
        → Completes o status c
        → Answered status c
    served-Answered o status c run (result, response, same, replied, success, echoed) =
        let (route, found, ended) =
          chat_served env router (unified f env router pricer req caller) C w result cuts
            (run ∙ same) in
        record {
          route = route;
          result = result;
          response = response;
          routed = found;
          ended = ended;
          replied = replied;
          success = success;
          echoed = echoed;
        }

    -- An answer that holds a completion has the status 200, and the request was served: its model
    -- resolves to a route, `Chat` ended on it with a response, and the completion is that response,
    -- with the number of calls and with the cost that the pricing table gives it.
    pub completion-Answered :
        (status : ℕ) (c : ChatCompletionResponse F)
        → (handle_chat_completions f env router pricer (some req) caller w).0
          ≡ write status (completion c)
        → Answered status c
    unfolding handle_chat_completions
    completion-Answered status c h = elim (Bool-cases (str_eq req.model "")) [
      | inl t ↦
          absurd
            (no_completion 400 "invalid_request" (plain "model is required") status c (rw t at h))
      | inr t ↦ elim (Bool-cases (is_empty req.messages)) [
        | inl u ↦ absurd (
            no_completion 400 "invalid_request" (plain "messages must not be empty") status c
              (rw (t, u) at h))
        | inr u ↦ served-Answered _ status c refl (after_chat-Completes _ status c (rw (t, u) at h))
      ]
    ]
