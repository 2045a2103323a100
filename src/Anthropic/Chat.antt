-- ===== src/Anthropic/Chat.antt =====
-- `Chat` of pkg/provider/anthropic/anthropic.go, in the stages between its calls.
use llm_gateway_platform.Prelude.{ℕ, String, ◌<>◌, not, Option, none, some, [], ◌==◌, if◌then◌else◌}
use llm_gateway_platform.Prelude.Int.{pos, ltb_ℤ}
use llm_gateway_platform.Prelude.Text.{plain}
use llm_gateway_platform.Provider
use llm_gateway_platform.Provider.{ChatRequest, ChatResponse}
use llm_gateway_platform.Provider.Errors.{Err, errorf, errorf_wrap, new_transport_error}
use llm_gateway_platform.Http.{Fallible, ok, fail, Request, Response, set_header}
use llm_gateway_platform.Router.{Provider}
use llm_gateway_platform.Adapter.{Results, fails}
use llm_gateway_platform.Anthropic.{
  MessagesResponse, WireCodec, Client, body_of, concat_text, map_stop_reason, parse_error,
}

unfoldable pub response_of : MessagesResponse → ChatResponse
response_of out = record {
  provider = Provider.anthropic;
  model = out.model;
  content = concat_text out.content;
  finish_reason = map_stop_reason out.stop_reason;
  usage = record { input_tokens = out.usage.input_tokens; output_tokens = out.usage.output_tokens };
}

-- After `json.Unmarshal` of the payload.
unfoldable pub after_decode : Fallible MessagesResponse → Results
after_decode (fail e) = fails (errorf_wrap (plain "anthropic: decode response: ") e)
after_decode (ok out) = (some (response_of out), none)

-- After `io.ReadAll`.
unfoldable pub after_read : WireCodec → ℕ → Fallible String → Results
after_read codec status (fail e) = fails (new_transport_error Provider.anthropic e)
after_read codec status (ok payload) =
    if not (status == 200)
    then fails (parse_error codec status payload)
    else after_decode (codec.unmarshal payload)

-- After `c.http.Do`.
unfoldable pub after_perform : WireCodec → Fallible Response → Results
after_perform codec (fail e) = fails (new_transport_error Provider.anthropic e)
after_perform codec (ok resp) = after_read codec resp.status_code resp.body

module _ {W : Type 0} (codec : WireCodec) (c : Client W) where
  abbrev pub url : String
  url = c.base_url <> "/v1/messages"

  -- The request that goes out, for a marshalled body.
  unfoldable pub http_request : String → Request
  http_request raw = set_header "anthropic-version" c.api_version (
      set_header "x-api-key" c.api_key (
        set_header "Content-Type" "application/json"
          (record { method = "POST"; url = url; header = []; body = raw })))

  -- After `http.NewRequestWithContext`.
  unfoldable pub after_request : Option Err → String → W → Option ChatResponse × Option Err × W
  after_request (some e) raw w =
      (none, some (errorf_wrap (plain "anthropic: build request: ") e), w)
  after_request none raw w =
      let (reply, w') = c.http.perform (http_request raw) w in
      let (resp, e) = after_perform codec reply in (resp, e, w')

  -- After `json.Marshal`.
  unfoldable pub after_marshal : Fallible String → W → Option ChatResponse × Option Err × W
  after_marshal (fail e) w = (none, some (errorf_wrap (plain "anthropic: marshal request: ") e), w)
  after_marshal (ok raw) w = after_request (codec.url_error url) raw w

  -- `Chat`
  unfoldable pub chat : {F : Type 0} → ChatRequest F → W → Option ChatResponse × Option Err × W
  chat req w =
      if not (ltb_ℤ (pos 0) req.max_tokens)
      then (none, some (errorf (plain "anthropic: max_tokens must be positive")), w)
      else after_marshal (codec.marshal (body_of req)) w

  -- The client as a provider
  abbrev pub as_provider : {F : Type 0} → Provider F W
  as_provider = record { name = Provider.anthropic; chat = chat }
