-- ===== src/Tests/Adapters.antt =====
-- Calls of the three adapters against a transport that answers one request.
use llm_gateway_platform.Prelude.{
  filter, map, not, ℕ, ◌+◌, String, ◌≡◌, refl, Bool, true, false, none, some, [], ◌∷◌, str_eq,
  if◌then◌else◌,
}
use llm_gateway_platform.Prelude.Int.{ℤ, pos}
use llm_gateway_platform.Prelude.Dict.{lookup}
use llm_gateway_platform.Prelude.Text.{Text, plain}
use llm_gateway_platform.Provider.{ChatRequest, ChatResponse, length}
use llm_gateway_platform.Provider.Errors.{Err, errorf, is_retryable}
use llm_gateway_platform.Http.{Fallible, ok, fail, Doer, Codec, IsPlain}
use llm_gateway_platform.Adapter.{CallEnds, IsExclusive, errorf_plain}
use llm_gateway_platform.Anthropic
use llm_gateway_platform.Anthropic.Chat as Messages
use llm_gateway_platform.Anthropic.Mapping.{is_system, wire, system_of, messages_body}
use llm_gateway_platform.Anthropic.Contract.{
  Reads, Unsendable, IsSent, messages-CallEnds, messages_call-IsExclusive,
}

-- Everything encodes as "{}", and only that decodes.
abbrev decode : {Resp : Type 0} → Resp → String → Fallible Resp
decode resp t =
    if str_eq t "{}" then ok resp else fail (errorf (plain "unexpected end of JSON input"))

abbrev pub toy_codec : {Req Resp Envelope : Type 0} → Resp → Codec Req Resp Envelope
toy_codec resp = record {
  marshal = λ _. ok "{}";
  unmarshal = decode resp;
  unmarshal_error = λ _. none;
  url_error = λ _. none;
}

decode_plain :
    {Resp : Type 0} (b : Bool) (resp : Resp) (t : Text) (e : Err)
    → (if b then ok resp else fail (errorf t)) ≡ fail e
    → is_retryable e ≡ false
decode_plain true resp t e h = cc
decode_plain false resp t e h = let p = errorf_plain t in cc

pub toy_codec-IsPlain :
    {Req Resp Envelope : Type 0} (resp : Resp)
    → IsPlain (toy_codec {Req = Req} {Resp = Resp} {Envelope = Envelope} resp)
toy_codec-IsPlain resp = record {
  marshal_plain = λ h. cc;
  unmarshal_plain = λ {t} {e} h. decode_plain (str_eq t "{}") resp _ e h;
  url_plain = λ h. cc;
}

-- A transport that answers with the status that the world holds, and counts it up.
abbrev pub counting : Doer ℕ
counting = record { perform = λ q w. (ok (record { status_code = w; body = ok "{}" }), w + 1) }

abbrev pub question : ChatRequest ℤ
question = record {
  model = "m";
  system = "be brief";
  messages =
      record { role = "system"; content = "no lists" }
      ∷ record { role = "user"; content = "hi" }
      ∷ [];
  max_tokens = pos 16;
  temperature = none;
  metadata = ("user_id", "u1") ∷ [];
}

abbrev pub claude_reply : Anthropic.MessagesResponse
claude_reply = record {
  model = "m";
  stop_reason = "max_tokens";
  content =
      record { type = "text"; text = "hel" }
      ∷ record { type = "thinking"; text = "x" }
      ∷ record { type = "text"; text = "lo" }
      ∷ [];
  usage = record { input_tokens = pos 3; output_tokens = pos 2 };
}

abbrev claude : Anthropic.Client ℕ
claude = record {
  api_key = "k";
  base_url = "https://example.org";
  api_version = "2023-06-01";
  http = counting;
}

abbrev pub hello : String → ChatResponse
hello name = record {
  provider = name;
  model = "m";
  content = "hello";
  finish_reason = length;
  usage = record { input_tokens = pos 3; output_tokens = pos 2 };
}

messages_answered :
    Messages.chat (toy_codec claude_reply) claude question 200
    ≡ (some (hello "anthropic"), none, 201)
unfolding Messages.chat Messages.after_marshal Messages.after_request Messages.after_perform
    Messages.after_read Messages.after_decode Messages.response_of Anthropic.concat_text
    Anthropic.map_stop_reason
messages_answered = refl

messages_body_folds : Anthropic.body_of question ≡ record {
  model = "m";
  max_tokens = pos 16;
  system = "be brief\n\nno lists";
  messages = record { role = "user"; content = "hi" } ∷ [];
  metadata = some "u1";
}
unfolding Anthropic.body_of Anthropic.fold_messages Anthropic.join_system lookup
messages_body_folds = refl

messages-CallEnds_example :
    CallEnds "anthropic"
      (Reads (toy_codec claude_reply) (toy_codec-IsPlain claude_reply) claude)
      counting
      (Unsendable (toy_codec claude_reply) (toy_codec-IsPlain claude_reply) claude question)
      (IsSent (toy_codec claude_reply) (toy_codec-IsPlain claude_reply) claude question)
      200
      (Messages.chat (toy_codec claude_reply) claude question 200).0
      (Messages.chat (toy_codec claude_reply) claude question 200).1
      (Messages.chat (toy_codec claude_reply) claude question 200).2
messages-CallEnds_example =
    messages-CallEnds (toy_codec claude_reply) (toy_codec-IsPlain claude_reply) claude question 200

messages_call-IsExclusive_example :
    IsExclusive {F = ℤ} (Messages.as_provider (toy_codec claude_reply) claude)
messages_call-IsExclusive_example =
    messages_call-IsExclusive (toy_codec claude_reply) (toy_codec-IsPlain claude_reply) claude

messages_body_example :
    ((Anthropic.body_of question).model ≡ "m")
    × ((Anthropic.body_of question).max_tokens ≡ pos 16)
    × ((Anthropic.body_of question).system
        ≡ system_of "be brief" (filter is_system question.messages))
    × ((Anthropic.body_of question).messages
        ≡ map wire (filter (λ m. not (is_system m)) question.messages))
    × ((Anthropic.body_of question).metadata
        ≡ Anthropic.user_id (lookup "user_id" question.metadata))
messages_body_example = messages_body question
