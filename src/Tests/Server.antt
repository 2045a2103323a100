-- ===== src/Tests/Server.antt =====
-- Requests to the chat handler.
use llm_gateway_platform.Prelude.{ℕ, inl, ◌≡◌, refl, String, none, some, [], ◌∷◌}
use llm_gateway_platform.Prelude.Int.{ℤ, pos}
use llm_gateway_platform.Float.Nano.{nano}
use llm_gateway_platform.Server.{
  ChatCompletionRequest, ChatCompletionResponse, completion, write, completion_of, after_chat,
  handle_chat_completions, error,
}
use llm_gateway_platform.Server.Answers.{Answered, completion-Answered}
use llm_gateway_platform.Runtime.{Env}
use llm_gateway_platform.Provider.Errors.{canceled, error_text, is_deadline_exceeded}
use llm_gateway_platform.Server.Abandoned.{context_status, context_code, context_done_answer}
use llm_gateway_platform.Tests.Retry.{quiet, quiet-Interrupts}
use llm_gateway_platform.Tests.Router.{both, claude, gpt, routing, router_with, overloaded, answer}

abbrev pub ask : String → ChatCompletionRequest ℤ
ask model = record {
  model = model;
  system = "";
  messages = record { role = "user"; content = "hi" } ∷ [];
  max_tokens = pos 16;
  temperature = none;
}

-- Overloaded first, then served by the second target, and with no price table.
abbrev served : ChatCompletionResponse ℤ
served = completion_of nano quiet (router_with overloaded) none (answer "gpt-4o") 1

handled :
    (handle_chat_completions nano quiet
      (router_with overloaded)
      none
      (some (ask "chat-default"))
      "team"
      0).0
    ≡ write 200 (completion served)
unfolding handle_chat_completions after_chat routing router_with
handled = refl

completion-Answered_example :
    Answered nano quiet
      (router_with overloaded)
      none
      (λ _. ⊥)
      quiet-Interrupts
      (ask "chat-default")
      "team"
      0
      200
      served
completion-Answered_example =
    completion-Answered nano quiet (router_with overloaded) none (λ _. ⊥) quiet-Interrupts
      (ask "chat-default") "team" 0 200 served handled

-- A caller that has gone.
abbrev gone : Env ℕ
gone = record quiet { ctx_err = λ w. (some canceled, w) }

context_done_answer_example :
    handle_chat_completions nano gone
      (router_with overloaded)
      none
      (some (ask "chat-default"))
      "team"
      7
    ≡ (write (context_status canceled) (error (context_code canceled) (error_text canceled)), 7)
unfolding routing router_with
context_done_answer_example =
    context_done_answer nano gone (router_with overloaded) none (ask "chat-default") "team" both
      claude (gpt ∷ []) canceled 7 refl refl refl refl refl (inl refl)

-- That status is 408.
timed : context_status canceled ≡ 408
unfolding is_deadline_exceeded
timed = refl
