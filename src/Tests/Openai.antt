-- ===== src/Tests/Openai.antt =====
-- Calls of the OpenAI adapter.
use llm_gateway_platform.Prelude.{ℕ, ◌≡◌, refl, none, some, [], ◌∷◌}
use llm_gateway_platform.Prelude.Int.{ℤ, pos}
use llm_gateway_platform.Prelude.Dict.{lookup}
use llm_gateway_platform.Adapter.{CallEnds, IsExclusive}
use llm_gateway_platform.Openai.{CompletionResponse, WireCodec, Client, body_of, map_finish_reason}
use llm_gateway_platform.Openai.Chat.{
  response_of, after_choices, after_decode, after_read, after_perform, after_request, after_marshal,
  chat, as_provider,
}
use llm_gateway_platform.Openai.Contract.{
  Reads, Unsendable, IsSent, completion-CallEnds, completion_call-IsExclusive,
}
use llm_gateway_platform.Http.{IsPlain}
use llm_gateway_platform.Tests.Adapters.{toy_codec, toy_codec-IsPlain, counting, question, hello}

abbrev reply : CompletionResponse
reply = record {
  model = "m";
  choices =
      record {
        message = record { role = "assistant"; content = "hello" };
        finish_reason = "length";
      }
      ∷ [];
  usage = record { prompt_tokens = pos 3; completion_tokens = pos 2 };
}

abbrev pub codec : WireCodec ℤ
codec = toy_codec reply

pub codec-IsPlain : IsPlain codec
codec-IsPlain = toy_codec-IsPlain reply

abbrev client : Client ℕ
client = record { api_key = "k"; base_url = "https://example.org"; http = counting }

answered : chat codec client question 200 ≡ (some (hello "openai"), none, 201)
unfolding chat after_marshal after_request after_perform after_read after_decode after_choices
    response_of map_finish_reason
answered = refl

body : body_of question ≡ record {
  model = "m";
  messages =
      record { role = "system"; content = "be brief" }
      ∷ record { role = "system"; content = "no lists" }
      ∷ record { role = "user"; content = "hi" }
      ∷ [];
  max_tokens = pos 16;
  temperature = none;
  user = "u1";
}
unfolding body_of lookup
body = refl

completion-CallEnds_example :
    CallEnds "openai"
      (Reads codec codec-IsPlain client)
      counting
      (Unsendable codec codec-IsPlain client question)
      (IsSent codec codec-IsPlain client question)
      429
      (chat codec client question 429).0
      (chat codec client question 429).1
      (chat codec client question 429).2
completion-CallEnds_example = completion-CallEnds codec codec-IsPlain client question 429

completion_call-IsExclusive_example : IsExclusive (as_provider codec client)
completion_call-IsExclusive_example = completion_call-IsExclusive codec codec-IsPlain client
