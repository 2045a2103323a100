-- ===== src/Anthropic.antt =====
-- pkg/provider/anthropic/anthropic.go: the adapter for the Anthropic Messages API.
pub mod Chat
pub mod Mapping
pub mod Contract
use llm_gateway_platform.Prelude.{
  ℕ, String, ◌<>◌, Bool, true, false, not, Option, none, some, List, [], ◌∷◌, ◌++◌, ◌==◌, str_eq,
  if◌then◌else◌, ◌||◌,
}
use llm_gateway_platform.Prelude.Int.{ℤ, pos, ltb_ℤ}
use llm_gateway_platform.Prelude.Dict.{lookup}
use llm_gateway_platform.Prelude.Text.{words, plain}
use llm_gateway_platform.Prelude.Strings.{trim_space, trim_slashes}
use llm_gateway_platform.Provider
use llm_gateway_platform.Provider.{
  FinishReason, stop, length, tool_use, content_filter, other, Message, ChatRequest, ChatResponse,
  role_system,
}
use llm_gateway_platform.Provider.Errors.{
  Err, errorf, errorf_wrap, new_http_error, new_transport_error,
}
use llm_gateway_platform.Http.{Fallible, ok, fail, Request, Response, set_header, Doer, Codec}

pub record WireMsg : Type 0 where
  pub role : String
  pub content : String

-- `Metadata` is a pointer to a struct with the one field `UserID`.
pub record MessagesRequest : Type 0 where
  pub model : String
  pub max_tokens : ℤ
  pub system : String
  pub messages : List WireMsg
  pub metadata : Option String

pub record ContentPart : Type 0 where
  pub type : String
  pub text : String

pub record WireUsage : Type 0 where
  pub input_tokens : ℤ
  pub output_tokens : ℤ

pub record MessagesResponse : Type 0 where
  pub model : String
  pub stop_reason : String
  pub content : List ContentPart
  pub usage : WireUsage

-- `errorEnvelope`, whose one field is a struct
pub record ErrorEnvelope : Type 0 where
  pub type : String
  pub message : String

abbrev pub WireCodec : Type 0
WireCodec = Codec MessagesRequest MessagesResponse ErrorEnvelope

pub record Client (W : Type 0) : Type 0 where
  pub api_key : String
  pub base_url : String
  pub api_version : String
  pub http : Doer W

-- `New` with no option; `http` stands for `provider.DefaultHTTPClient()`.
unfoldable pub new : {W : Type 0} → String → Doer W → Fallible (Client W)
new api_key http =
    if str_eq api_key ""
    then fail (errorf (plain "anthropic: api key is required"))
    else ok (record {
      api_key = api_key;
      base_url = "https://api.anthropic.com";
      api_version = "2023-06-01";
      http = http;
    })

-- `WithBaseURL`, `WithHTTPClient`, `WithAPIVersion`
abbrev pub with_base_url : {W : Type 0} → String → Client W → Client W
with_base_url u c = record c { base_url = trim_slashes u }

abbrev pub with_http_client : {W : Type 0} → Doer W → Client W → Client W
with_http_client d c = record c { http = d }

abbrev pub with_api_version : {W : Type 0} → String → Client W → Client W
with_api_version v c = record c { api_version = v }

-- `joinSystem`
unfoldable pub join_system : String → String → String
join_system existing add = if str_eq existing "" then add else existing <> "\n\n" <> add

-- The loop over `req.Messages`, on the two fields of the body that it builds.
unfoldable pub fold_messages : List Message → String → List WireMsg → String × List WireMsg
unfolding join_system
fold_messages [] system messages = (system, messages)
fold_messages (m ∷ ms) system messages =
    let folded = fold_messages ms (join_system system m.content) messages in
    let sent =
      fold_messages ms system (messages ++ record { role = m.role; content = m.content } ∷ []) in
    if str_eq m.role role_system then folded else sent

-- `req.Metadata["user_id"]`, where it is not empty
abbrev pub user_id : Option String → Option String
user_id none = none
user_id (some uid) = if str_eq uid "" then none else some uid

unfoldable pub body_of : {F : Type 0} → ChatRequest F → MessagesRequest
body_of req =
    let (system, messages) = fold_messages req.messages req.system [] in
    record {
      model = req.model;
      max_tokens = req.max_tokens;
      system = system;
      messages = messages;
      metadata = user_id (lookup "user_id" req.metadata);
    }

-- `concatText`
unfoldable pub concat_text : List ContentPart → String
concat_text [] = ""
concat_text (p ∷ parts) =
    let rest = concat_text parts in if str_eq p.type "text" then p.text <> rest else rest

-- `mapStopReason`
unfoldable pub map_stop_reason : String → FinishReason
map_stop_reason r =
    if str_eq r "end_turn" || str_eq r "stop_sequence"
    then stop
    else if str_eq r "max_tokens"
    then length
    else if str_eq r "tool_use"
    then tool_use
    else if str_eq r "refusal"
    then content_filter
    else other

-- The code and the message of `parseError`.
abbrev pub error_parts : String → Option ErrorEnvelope → String × String
error_parts payload none = ("", trim_space payload)
error_parts payload (some e) =
    if not (str_eq e.message "") then (e.type, e.message) else ("", trim_space payload)

-- `parseError`
unfoldable pub parse_error : WireCodec → ℕ → String → Err
parse_error codec status payload =
    let (code, message) = error_parts payload (codec.unmarshal_error payload) in
    new_http_error Provider.anthropic status code message
