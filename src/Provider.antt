-- ===== src/Provider.antt =====
-- pkg/provider/provider.go: the vendor-neutral contract between the gateway and its backends.
-- A `float64` that is only passed on (a temperature) is a type parameter of the request.
pub mod Errors
use llm_gateway_platform.Prelude.{String, Option, List}
use llm_gateway_platform.Prelude.Int.{ℤ, add_ℤ, int64}
use llm_gateway_platform.Prelude.Dict.{Dict}

-- `Name`, a string type: any string can be converted to it, and three are declared.
abbrev pub Name : Type 0
Name = String

abbrev pub anthropic : Name
anthropic = "anthropic"

abbrev pub openai : Name
openai = "openai"

abbrev pub bedrock : Name
bedrock = "bedrock"

-- `Role`, a string type as well: the server passes on whatever the client wrote.
abbrev pub Role : Type 0
Role = String

abbrev pub role_system : Role
role_system = "system"

abbrev pub role_user : Role
role_user = "user"

abbrev pub role_assistant : Role
role_assistant = "assistant"

pub data FinishReason : Type 0 where
  stop length tool_use content_filter other : FinishReason

pub record Message : Type 0 where
  pub role : Role
  pub content : String

pub record ChatRequest (F : Type 0) : Type 0 where
  pub model : String
  pub system : String
  pub messages : List Message
  pub max_tokens : ℤ
  pub temperature : Option F
  pub metadata : Dict String

pub record Usage : Type 0 where
  pub input_tokens : ℤ
  pub output_tokens : ℤ

-- `int` has 64 bits, and the sum wraps.
unfoldable pub total_tokens : Usage → ℤ
total_tokens u = int64 (add_ℤ u.input_tokens u.output_tokens)

pub record ChatResponse : Type 0 where
  pub provider : Name
  pub model : String
  pub content : String
  pub finish_reason : FinishReason
  pub usage : Usage
