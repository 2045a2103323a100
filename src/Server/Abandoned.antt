-- ===== src/Server/Abandoned.antt =====
-- A request whose context is done before the router has tried a target, in internal/server/server.go.
use llm_gateway_platform.Prelude.{
  ℕ, String, ◌≡◌, refl, ap, inl, inr, false, Option, none, some, List, [], ◌∷◌, str_eq,
  if◌then◌else◌,
}
use llm_gateway_platform.Float.{Float}
use llm_gateway_platform.Provider.{ChatRequest}
use llm_gateway_platform.Provider.Errors.{Err, is_canceled, is_deadline_exceeded, error_text}
use llm_gateway_platform.Runtime.{Env, IsContextError}
use llm_gateway_platform.Router.{Target, Route, Router, TargetFailure, err, bare, resolve}
use llm_gateway_platform.Router.Chat.{finish, after_ctx, visit, chain, after_resolve, chat}
use llm_gateway_platform.Pricing.{Table}
use llm_gateway_platform.Server.{
  ChatCompletionRequest, error, write, write_chat_error, chat_error_deadline_exceeded,
  chat_error_canceled, chat_error_text, after_chat, unified, is_empty, handle_chat_completions,
}

-- The status and the code for an error of the context.
abbrev pub context_status : Err → ℕ
context_status e = if is_deadline_exceeded e then 504 else 408

abbrev pub context_code : Err → String
context_code e = if is_deadline_exceeded e then "upstream_timeout" else "request_canceled"

context_answer :
    {F : Type 0} (e : Err)
    → IsContextError e
    → write_chat_error {F = F} (bare e)
      ≡ write (context_status e) (error (context_code e) (error_text e))
unfolding write_chat_error chat_error_deadline_exceeded chat_error_canceled chat_error_text
    is_canceled is_deadline_exceeded
context_answer e (inl h) = rw h refl
context_answer e (inr h) = rw h refl

module _ {F W : Type 0} (env : Env W) (r : Router F W) (req : ChatRequest F) where
  after_ctx_done :
      (t : Target) (failures : List TargetFailure) (e : Err) (x : Option Err × W)
      → x.0 ≡ some e
      → after_ctx env r req t failures x ≡ finish (err (bare e)) x.1
  unfolding after_ctx
  after_ctx_done t failures e (none, w) h = cc
  after_ctx_done t failures e (some e', w) h = cc

  chain_done :
      (t : Target) (later : List Target) (failures : List TargetFailure) (e : Err) (w : W)
      → (env.ctx_err w).0 ≡ some e
      → chain env r req (t ∷ later) failures w ≡ (err (bare e), (env.ctx_err w).1)
  unfolding chain visit
  chain_done t later failures e w h =
      rw (after_ctx_done t failures e (env.ctx_err w) h, chain, visit) refl

  chat_done :
      (route : Route) (t : Target) (later : List Target) (e : Err) (w : W)
      → resolve r req.model ≡ some route
      → route.targets ≡ t ∷ later
      → (env.ctx_err w).0 ≡ some e
      → chat env r req w ≡ (err (bare e), (env.ctx_err w).1)
  unfolding chat after_resolve
  chat_done route t later e w found some_target h =
      rw (found, after_resolve, some_target) (chain_done t later [] e w h)

module _ {F W : Type 0} (f : Float F) (env : Env W) (r : Router F W)
    (pricer : Option (Table F)) where
  -- A request with a model and messages, whose model's route has targets, and whose context is done
  -- when the router first reads it: the answer has the status 504 and the code "upstream_timeout"
  -- where the deadline has passed, and 408 and "request_canceled" where it was canceled; and nothing
  -- has happened but that reading: no token was taken and no provider called.
  pub context_done_answer :
      (req : ChatCompletionRequest F) (caller : String) (route : Route) (t : Target)
      (later : List Target) (e : Err) (w : W)
      → str_eq req.model "" ≡ false
      → is_empty req.messages ≡ false
      → resolve r req.model ≡ some route
      → route.targets ≡ t ∷ later
      → (env.ctx_err w).0 ≡ some e
      → IsContextError e
      → handle_chat_completions f env r pricer (some req) caller w
        ≡ (write (context_status e) (error (context_code e) (error_text e)), (env.ctx_err w).1)
  unfolding handle_chat_completions after_chat
  context_done_answer req caller route t later e w model messages found some_target read kind =
      rw
        (
          model,
          messages,
          chat_done env r (unified f env r pricer req caller) route t later e w found some_target
              read,
        )
        (ap (λ reply. (reply, (env.ctx_err w).1)) (context_answer e kind))
