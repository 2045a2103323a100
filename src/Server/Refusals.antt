-- ===== src/Server/Refusals.antt =====
-- A request that the adapter of its only target turns down without a call, in
-- internal/server/server.go and internal/router/router.go.
use llm_gateway_platform.Prelude.{String, ◌≡◌, refl, ap, false, Option, none, some, [], ◌∷◌, str_eq}
use llm_gateway_platform.Prelude.Text.{plain}
use llm_gateway_platform.Provider.{ChatRequest}
use llm_gateway_platform.Provider.Errors.{
  Err, errorf, as_provider_error, is_canceled, is_deadline_exceeded, is_retryable,
}
use llm_gateway_platform.Runtime.{Env}
use llm_gateway_platform.Retry.Calls.{Interrupts}
use llm_gateway_platform.Router.{
  Target, Route, Router, ChatError, last_error, route_error, resolve, lookup_provider,
  lookup_limiter, clone_for_target,
}
use llm_gateway_platform.Float.{Float}
use llm_gateway_platform.Pricing.{Table}
use llm_gateway_platform.Prelude.Int.{pos, ltb_ℤ}
use llm_gateway_platform.Anthropic.{WireCodec, Client}
use llm_gateway_platform.Anthropic.Chat as Messages
use llm_gateway_platform.Anthropic.Chat.{as_provider}
use llm_gateway_platform.Server.{
  ChatCompletionRequest, error, write, chat_error_text, after_chat, unified, is_empty,
  handle_chat_completions,
}
use llm_gateway_platform.Router.Declined.{chat-declined}
use llm_gateway_platform.Server.Statuses.{upstream_answer}

module _ {F W : Type 0} (f : Float F) (env : Env W) (r : Router F W)
    (pricer : Option (Table F)) where
  abbrev pub sole_failure : String → Target → Err → ChatError
  sole_failure model target e =
      route_error
        (record { logical_model = model; failures = record { target = target; error = e } ∷ [] })

  -- The error of the Anthropic adapter for a limit that is not positive.
  abbrev pub no_limit : Err
  no_limit = errorf (plain "anthropic: max_tokens must be positive")

  module _ (codec : WireCodec) (c : Client W) where
    messages_refuse :
        (req : ChatRequest F) (target : Target)
        → ltb_ℤ (pos 0) req.max_tokens ≡ false
        → (w : W)
        → (as_provider codec c).chat (clone_for_target req target) w ≡ (none, some no_limit, w)
    unfolding clone_for_target Messages.chat
    messages_refuse req target h w = rw h refl

    -- A request with a model and messages, but a max_tokens that is missing, 0 or negative, for a model
    -- whose only target is a registered Anthropic client without a limiter, where the context is never
    -- done and the failover predicate refuses the adapter's error: the answer is 502 "upstream_error",
    -- though nothing has happened but three readings of the context, and no request was sent.
    pub no_token_limit :
        (req : ChatCompletionRequest F) (caller : String) (w : W) (route : Route) (target : Target)
        → str_eq req.model "" ≡ false
        → is_empty req.messages ≡ false
        → ltb_ℤ (pos 0) req.max_tokens ≡ false
        → Interrupts env (λ _. ⊥)
        → resolve r req.model ≡ some route
        → route.targets ≡ target ∷ []
        → lookup_provider r target.provider ≡ some (as_provider codec c)
        → lookup_limiter r target.provider ≡ none
        → r.failover no_limit ≡ false
        → handle_chat_completions f env r pricer (some req) caller w ≡ (
          write 502
              (error "upstream_error" (chat_error_text (sole_failure req.model target no_limit))),
          (env.ctx_err (env.ctx_err (env.ctx_err w).1).1).1,
        )
    unfolding handle_chat_completions after_chat as_provider_error is_canceled is_deadline_exceeded
        is_retryable last_error
    no_token_limit req caller w route target model messages limit live found sole known unlimited
          final =
        let sub = unified f env r pricer req caller in
        let down =
          chat-declined env r sub live (as_provider codec c) target no_limit route w found sole
            known unlimited (messages_refuse sub target limit) refl final in
        rw (model, messages, down)
          (ap (λ reply. (reply, (env.ctx_err (env.ctx_err (env.ctx_err w).1).1).1))
            (upstream_answer
              (record {
                logical_model = req.model;
                failures = record { target = target; error = no_limit } ∷ [];
              })
              no_limit refl refl refl))
