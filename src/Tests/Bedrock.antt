-- ===== src/Tests/Bedrock.antt =====
-- Calls of the Bedrock adapter, with the identity for a signer.
use llm_gateway_platform.Prelude.{ℕ, ◌+◌, ◌≡◌, refl, String, none, some, List, [], ◌∷◌, map}
use llm_gateway_platform.Prelude.Int.{ℤ, pos}
use llm_gateway_platform.Adapter.{IsExclusive}
use llm_gateway_platform.Anthropic
use llm_gateway_platform.Bedrock.{
  InvokeResponse, WireCodec, Part, Signer, Client, body_of, concat_text, map_stop_reason,
}
use llm_gateway_platform.Bedrock.Chat.{
  response_of, after_decode, after_read, after_perform, after_sign, after_request, after_marshal,
  chat, as_provider,
}
use llm_gateway_platform.Bedrock.Contract.{
  IsPlainSigner, Ends, invoke_call-Ends, invoke_call-IsExclusive,
}
use llm_gateway_platform.Bedrock.Mapping.{to_anthropic, part_to_anthropic, claude_adapters_agree}
use llm_gateway_platform.Http.{ok, IsPlain}
use llm_gateway_platform.Tests.Adapters.{toy_codec, toy_codec-IsPlain, counting, question, hello}

abbrev parts : List Part
parts = record { type = "text"; text = "hello" } ∷ []

abbrev reply : InvokeResponse
reply = record {
  stop_reason = "max_tokens";
  content = parts;
  usage = record { input_tokens = pos 3; output_tokens = pos 2 };
}

abbrev pub codec : WireCodec
codec = toy_codec reply

pub codec-IsPlain : IsPlain codec
codec-IsPlain = toy_codec-IsPlain reply

abbrev pub no_op : Signer ℕ
no_op = record { sign = λ q _ _ _ _. ok q }

pub no_op-IsPlainSigner : IsPlainSigner no_op
no_op-IsPlainSigner = record { sign_plain = λ h. cc }

-- To read the clock takes the world a step on.
abbrev client : Client ℕ ℕ
client = record {
  region = "eu-west-1";
  base_url = "https://example.org";
  signer = no_op;
  http = counting;
  now = λ w. (w, w + 1);
}

abbrev pub same : String → String
same t = t

answered : chat codec same client question 199 ≡ (some (hello "bedrock"), none, 201)
unfolding chat after_marshal after_request after_sign after_perform after_read after_decode
    response_of concat_text map_stop_reason
answered = refl

invoke_call-Ends_example :
    Ends codec codec-IsPlain same client no_op-IsPlainSigner question 503
      (chat codec same client question 503)
invoke_call-Ends_example =
    invoke_call-Ends codec codec-IsPlain same client no_op-IsPlainSigner question 503

invoke_call-IsExclusive_example : IsExclusive {F = ℤ} (as_provider codec same client)
invoke_call-IsExclusive_example =
    invoke_call-IsExclusive codec codec-IsPlain same client no_op-IsPlainSigner

claude_adapters_agree_example :
    ((body_of question).max_tokens ≡ (Anthropic.body_of question).max_tokens)
    × ((body_of question).system ≡ (Anthropic.body_of question).system)
    × (map to_anthropic (body_of question).messages ≡ (Anthropic.body_of question).messages)
    × (concat_text parts ≡ Anthropic.concat_text (map part_to_anthropic parts))
    × (map_stop_reason "refusal" ≡ Anthropic.map_stop_reason "refusal")
claude_adapters_agree_example = claude_adapters_agree question parts "refusal"
