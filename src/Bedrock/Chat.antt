-- ===== src/Bedrock/Chat.antt =====
-- `Chat` of pkg/provider/bedrock/bedrock.go, in the stages between its calls. `url.PathEscape` is a
-- parameter.
use llm_gateway_platform.Prelude.{ℕ, String, ◌<>◌, not, Option, none, some, [], ◌==◌, if◌then◌else◌}
use llm_gateway_platform.Prelude.Int.{pos, ltb_ℤ}
use llm_gateway_platform.Prelude.Text.{plain}
use llm_gateway_platform.Provider
use llm_gateway_platform.Provider.{ChatRequest, ChatResponse}
use llm_gateway_platform.Provider.Errors.{Err, errorf, errorf_wrap, new_transport_error}
use llm_gateway_platform.Http.{Fallible, ok, fail, Request, Response, set_header}
use llm_gateway_platform.Router.{Provider}
use llm_gateway_platform.Adapter.{Results, fails}
use llm_gateway_platform.Bedrock.{
  InvokeResponse, WireCodec, Client, body_of, concat_text, map_stop_reason, parse_error,
}

-- The response, which names the model that was asked for.
unfoldable pub response_of : String → InvokeResponse → ChatResponse
response_of model out = record {
  provider = Provider.bedrock;
  model = model;
  content = concat_text out.content;
  finish_reason = map_stop_reason out.stop_reason;
  usage = record { input_tokens = out.usage.input_tokens; output_tokens = out.usage.output_tokens };
}

-- After `json.Unmarshal` of the payload.
unfoldable pub after_decode : String → Fallible InvokeResponse → Results
after_decode model (fail e) = fails (errorf_wrap (plain "bedrock: decode response: ") e)
after_decode model (ok out) = (some (response_of model out), none)

-- After `io.ReadAll`.
unfoldable pub after_read : WireCodec → String → ℕ → Fallible String → Results
after_read codec model status (fail e) = fails (new_transport_error Provider.bedrock e)
after_read codec model status (ok payload) =
    if not (status == 200)
    then fails (parse_error codec status payload)
    else after_decode model (codec.unmarshal payload)

-- After `c.http.Do`.
unfoldable pub after_perform : WireCodec → String → Fallible Response → Results
after_perform codec model (fail e) = fails (new_transport_error Provider.bedrock e)
after_perform codec model (ok resp) = after_read codec model resp.status_code resp.body

module _ {T W : Type 0} (codec : WireCodec) (path_escape : String → String) (c : Client T W) where
  abbrev pub endpoint : String → String
  endpoint model = c.base_url <> "/model/" <> path_escape model <> "/invoke"

  -- The request before it is signed.
  unfoldable pub http_request : String → String → Request
  http_request model raw = set_header "Accept" "application/json" (
      set_header "Content-Type" "application/json"
        (record { method = "POST"; url = endpoint model; header = []; body = raw }))

  -- After `c.signer.Sign`.
  unfoldable pub after_sign : String → Fallible Request → W → Option ChatResponse × Option Err × W
  after_sign model (fail e) w = (none, some (errorf_wrap (plain "bedrock: sign request: ") e), w)
  after_sign model (ok signed) w =
      let (reply, w') = c.http.perform signed w in
      let (resp, e) = after_perform codec model reply in (resp, e, w')

  -- After `http.NewRequestWithContext`.
  unfoldable pub after_request :
      String → Option Err → String → W → Option ChatResponse × Option Err × W
  after_request model (some e) raw w =
      (none, some (errorf_wrap (plain "bedrock: build request: ") e), w)
  after_request model none raw w =
      let (t, w') = c.now w in
      after_sign model (c.signer.sign (http_request model raw) raw "bedrock" c.region t) w'

  -- After `json.Marshal`.
  unfoldable pub after_marshal : String → Fallible String → W → Option ChatResponse × Option Err × W
  after_marshal model (fail e) w =
      (none, some (errorf_wrap (plain "bedrock: marshal request: ") e), w)
  after_marshal model (ok raw) w = after_request model (codec.url_error (endpoint model)) raw w

  -- `Chat`
  unfoldable pub chat : {F : Type 0} → ChatRequest F → W → Option ChatResponse × Option Err × W
  chat req w =
      if not (ltb_ℤ (pos 0) req.max_tokens)
      then (none, some (errorf (plain "bedrock: max_tokens must be positive")), w)
      else after_marshal req.model (codec.marshal (body_of req)) w

  -- The client as a provider
  abbrev pub as_provider : {F : Type 0} → Provider F W
  as_provider = record { name = Provider.bedrock; chat = chat }
