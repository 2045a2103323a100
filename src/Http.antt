-- ===== src/Http.antt =====
-- What the adapters use of net/http and encoding/json: requests and responses as values, the transport
-- (`provider.Doer`), and the coding of the wire types as JSON text.
use llm_gateway_platform.Prelude.{ℕ, String, ◌≡◌, ap, false, Option, some}
use llm_gateway_platform.Prelude.Int.{ℤ, pos}
use llm_gateway_platform.Prelude.Dict.{Dict, insert}
use llm_gateway_platform.Provider.Errors.{Err, is_retryable}

-- A value or an error: what a Go function with the results `(T, error)` returns, one of them non-nil.
pub data Fallible (A : Type 0) : Type 0 where
  ok : A → Fallible A
  fail : Err → Fallible A

payload_or : {A : Type 0} → A → Fallible A → A
payload_or a (ok b) = b
payload_or a (fail _) = a

pub ok-injective : {A : Type 0} {a b : A} → ok a ≡ ok b → a ≡ b
unfolding payload_or
ok-injective {a} p = ap (payload_or a) p

pub record Request : Type 0 where
  pub method : String
  pub url : String
  pub header : Dict String
  pub body : String

-- `req.Header.Set(key, value)`. Go stores the key in its canonical case, x-api-key as X-Api-Key; here a
-- key stays as the program spells it, and it spells each in one way.
unfoldable pub set_header : String → String → Request → Request
unfolding insert
set_header key value req = record req { header = insert key value req.header }

pub record Response : Type 0 where
  pub status_code : ℕ
  pub body : Fallible String  -- what io.ReadAll returns

-- `provider.Doer`
pub record Doer (W : Type 0) : Type 0 where
  pub perform : Request → W → Fallible Response × W

-- `json.Marshal` on the wire request, `json.Unmarshal` on the wire response, and on the error envelope,
-- where the program does not look at the error.
pub record Codec (Req Resp Envelope : Type 0) : Type 0 where
  pub marshal : Req → Fallible String
  pub unmarshal : String → Fallible Resp
  pub unmarshal_error : String → Option Envelope
  -- the error of `http.NewRequestWithContext` for a method and URL, if it returns one
  pub url_error : String → Option Err

-- No error of the codec or of the building of a request wraps a `*provider.Error`.
pub record IsPlain {Req Resp Envelope : Type 0} (codec : Codec Req Resp Envelope) : Type 0 where
  pub marshal_plain : {req : Req} {e : Err} → codec.marshal req ≡ fail e → is_retryable e ≡ false
  pub unmarshal_plain : {t : String} {e : Err} → codec.unmarshal t ≡ fail e → is_retryable e ≡ false
  pub url_plain : {u : String} {e : Err} → codec.url_error u ≡ some e → is_retryable e ≡ false

-- What `DefaultHTTPClient` sets of an `http.Client` and its `http.Transport`; times in nanoseconds.
pub record HttpClient : Type 0 where
  pub timeout : ℤ
  pub max_idle_conns : ℤ
  pub max_idle_conns_per_host : ℤ
  pub idle_conn_timeout : ℤ

-- `DefaultHTTPClient`
abbrev pub default_http_client : HttpClient
default_http_client = record {
  timeout = pos 120_000_000_000;
  max_idle_conns = pos 100;
  max_idle_conns_per_host = pos 10;
  idle_conn_timeout = pos 90_000_000_000;
}
