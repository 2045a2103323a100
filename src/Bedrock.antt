-- ===== src/Bedrock.antt =====
-- pkg/provider/bedrock/bedrock.go: the adapter for Claude models on Amazon Bedrock.
pub mod Chat
pub mod Contract
pub mod Mapping
pub mod SigV4
use llm_gateway_platform.Prelude.{
  ℕ, String, ◌<>◌, not, Option, none, some, List, [], ◌∷◌, ◌++◌, str_eq, if◌then◌else◌, ◌||◌,
}
use llm_gateway_platform.Prelude.Int.{ℤ}
use llm_gateway_platform.Prelude.Text.{plain}
use llm_gateway_platform.Prelude.Strings.{trim_space, trim_slashes}
use llm_gateway_platform.Provider
use llm_gateway_platform.Provider.{
  FinishReason, stop, length, tool_use, content_filter, other, Message, ChatRequest, role_system,
}
use llm_gateway_platform.Provider.Errors.{Err, errorf, new_http_error}
use llm_gateway_platform.Http.{Fallible, ok, fail, Request, Doer, Codec}

pub record WireMsg : Type 0 where
  pub role : String
  pub content : String

pub record InvokeRequest : Type 0 where
  pub anthropic_version : String
  pub max_tokens : ℤ
  pub system : String
  pub messages : List WireMsg

-- The struct types of the fields `Content` and `Usage`, which have no name in the source.
pub record Part : Type 0 where
  pub type : String
  pub text : String

pub record WireUsage : Type 0 where
  pub input_tokens : ℤ
  pub output_tokens : ℤ

pub record InvokeResponse : Type 0 where
  pub stop_reason : String
  pub content : List Part
  pub usage : WireUsage

pub record ErrorEnvelope : Type 0 where
  pub message : String

abbrev pub WireCodec : Type 0
WireCodec = Codec InvokeRequest InvokeResponse ErrorEnvelope

-- `Signer`, over a type of times: request, payload, service, region and time to the signed request.
pub record Signer (T : Type 0) : Type 0 where
  pub sign : Request → String → String → String → T → Fallible Request

pub record Client (T W : Type 0) : Type 0 where
  pub region : String
  pub base_url : String
  pub signer : Signer T
  pub http : Doer W
  pub now : W → T × W

-- `New` with no option; a nil signer is `none`. `http` and `now` stand for `provider.DefaultHTTPClient()`
-- and `time.Now`.
unfoldable pub new :
    {T W : Type 0} → String → Option (Signer T) → Doer W → (W → T × W) → Fallible (Client T W)
new region none http now =
    if str_eq region ""
    then fail (errorf (plain "bedrock: region is required"))
    else fail (errorf (plain "bedrock: signer is required"))
new region (some signer) http now =
    if str_eq region ""
    then fail (errorf (plain "bedrock: region is required"))
    else ok (record {
      region = region;
      base_url = "https://bedrock-runtime." <> region <> ".amazonaws.com";
      signer = signer;
      http = http;
      now = now;
    })

-- `WithBaseURL`, `WithHTTPClient`, `WithSigner`, `WithClock`
abbrev pub with_base_url : {T W : Type 0} → String → Client T W → Client T W
with_base_url u c = record c { base_url = trim_slashes u }

abbrev pub with_http_client : {T W : Type 0} → Doer W → Client T W → Client T W
with_http_client d c = record c { http = d }

abbrev pub with_signer : {T W : Type 0} → Signer T → Client T W → Client T W
with_signer s c = record c { signer = s }

abbrev pub with_clock : {T W : Type 0} → (W → T × W) → Client T W → Client T W
with_clock now c = record c { now = now }

-- `joinSystem`
unfoldable pub join_system : String → String → String
join_system existing add = if str_eq existing "" then add else existing <> "\n\n" <> add

-- The loop over `req.Messages`, on the two fields of the body that it builds.
unfoldable pub fold_messages : List Message → String → List WireMsg → String × List WireMsg
unfolding join_system
fold_messages [] system messages = (system, messages)
fold_messages (m ∷ ms) system messages =
    let folded = fold_messages ms (join_system system m.content) messages in
    let sent =
      fold_messages ms system (messages ++ record { role = m.role; content = m.content } ∷ []) in
    if str_eq m.role role_system then folded else sent

unfoldable pub body_of : {F : Type 0} → ChatRequest F → InvokeRequest
body_of req =
    let (system, messages) = fold_messages req.messages req.system [] in
    record {
      anthropic_version = "bedrock-2023-05-31";
      max_tokens = req.max_tokens;
      system = system;
      messages = messages;
    }

-- `concatText`
unfoldable pub concat_text : List Part → String
concat_text [] = ""
concat_text (p ∷ parts) =
    let rest = concat_text parts in if str_eq p.type "text" then p.text <> rest else rest

-- `mapStopReason`
unfoldable pub map_stop_reason : String → FinishReason
map_stop_reason r =
    if str_eq r "end_turn" || str_eq r "stop_sequence"
    then stop
    else if str_eq r "max_tokens"
    then length
    else if str_eq r "tool_use"
    then tool_use
    else if str_eq r "refusal"
    then content_filter
    else other

-- The message of `parseError`.
abbrev pub error_message : String → Option ErrorEnvelope → String
error_message payload none = trim_space payload
error_message payload (some e) = if not (str_eq e.message "") then e.message else trim_space payload

-- `parseError`
unfoldable pub parse_error : WireCodec → ℕ → String → Err
parse_error codec status payload =
    new_http_error Provider.bedrock status ""
      (error_message payload (codec.unmarshal_error payload))
