-- ===== src/Openai.antt =====
-- pkg/provider/openai/openai.go: the adapter for the OpenAI Chat Completions API.
pub mod Chat
pub mod Contract
use llm_gateway_platform.Prelude.{
  ℕ, String, not, Option, none, some, List, [], ◌∷◌, ◌++◌, map, str_eq, if◌then◌else◌, ◌||◌,
}
use llm_gateway_platform.Prelude.Int.{ℤ}
use llm_gateway_platform.Prelude.Dict.{lookup}
use llm_gateway_platform.Prelude.Text.{plain}
use llm_gateway_platform.Prelude.Strings.{trim_space, trim_slashes}
use llm_gateway_platform.Provider
use llm_gateway_platform.Provider.{
  FinishReason, stop, length, tool_use, content_filter, other, Message, ChatRequest, role_system,
}
use llm_gateway_platform.Provider.Errors.{Err, errorf, new_http_error}
use llm_gateway_platform.Http.{Fallible, ok, fail, Doer, Codec}

pub record WireMsg : Type 0 where
  pub role : String
  pub content : String

-- `chatRequest`
pub record CompletionRequest (F : Type 0) : Type 0 where
  pub model : String
  pub messages : List WireMsg
  pub max_tokens : ℤ
  pub temperature : Option F
  pub user : String

pub record Choice : Type 0 where
  pub message : WireMsg
  pub finish_reason : String

pub record WireUsage : Type 0 where
  pub prompt_tokens : ℤ
  pub completion_tokens : ℤ

-- `chatResponse`
pub record CompletionResponse : Type 0 where
  pub model : String
  pub choices : List Choice
  pub usage : WireUsage

-- `errorEnvelope`, whose one field is a struct
pub record ErrorEnvelope : Type 0 where
  pub type : String
  pub code : String
  pub message : String

abbrev pub WireCodec : Type 0 → Type 0
WireCodec F = Codec (CompletionRequest F) CompletionResponse ErrorEnvelope

pub record Client (W : Type 0) : Type 0 where
  pub api_key : String
  pub base_url : String
  pub http : Doer W

-- `New` with no option; `http` stands for `provider.DefaultHTTPClient()`.
unfoldable pub new : {W : Type 0} → String → Doer W → Fallible (Client W)
new api_key http =
    if str_eq api_key ""
    then fail (errorf (plain "openai: api key is required"))
    else ok (record { api_key = api_key; base_url = "https://api.openai.com/v1"; http = http })

-- `WithBaseURL`, `WithHTTPClient`
abbrev pub with_base_url : {W : Type 0} → String → Client W → Client W
with_base_url u c = record c { base_url = trim_slashes u }

abbrev pub with_http_client : {W : Type 0} → Doer W → Client W → Client W
with_http_client d c = record c { http = d }

abbrev pub wire : Message → WireMsg
wire m = record { role = m.role; content = m.content }

-- The system prompt as a first message, if there is one.
abbrev pub opening : String → List WireMsg
opening system =
    if str_eq system "" then [] else record { role = role_system; content = system } ∷ []

-- A missing key of a Go map reads as the empty string.
abbrev pub get_or_empty : Option String → String
get_or_empty none = ""
get_or_empty (some v) = v

unfoldable pub body_of : {F : Type 0} → ChatRequest F → CompletionRequest F
body_of req = record {
  model = req.model;
  messages = opening req.system ++ map wire req.messages;
  max_tokens = req.max_tokens;
  temperature = req.temperature;
  user = get_or_empty (lookup "user_id" req.metadata);
}

-- `mapFinishReason`
unfoldable pub map_finish_reason : String → FinishReason
map_finish_reason r =
    if str_eq r "stop"
    then stop
    else if str_eq r "length"
    then length
    else if str_eq r "tool_calls" || str_eq r "function_call"
    then tool_use
    else if str_eq r "content_filter"
    then content_filter
    else other

-- The code and the message of `parseError`.
abbrev pub error_parts : String → Option ErrorEnvelope → String × String
error_parts payload none = ("", trim_space payload)
error_parts payload (some e) =
    if not (str_eq e.message "")
    then (if str_eq e.code "" then e.type else e.code, e.message)
    else ("", trim_space payload)

-- `parseError`
unfoldable pub parse_error : {F : Type 0} → WireCodec F → ℕ → String → Err
parse_error codec status payload =
    let (code, message) = error_parts payload (codec.unmarshal_error payload) in
    new_http_error Provider.openai status code message
