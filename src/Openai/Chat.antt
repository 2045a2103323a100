-- ===== src/Openai/Chat.antt =====
-- `Chat` of pkg/provider/openai/openai.go, in the stages between its calls.
use llm_gateway_platform.Prelude.{
  ℕ, String, ◌<>◌, not, Option, none, some, List, [], ◌∷◌, ◌==◌, if◌then◌else◌,
}
use llm_gateway_platform.Prelude.Text.{plain}
use llm_gateway_platform.Provider
use llm_gateway_platform.Provider.{ChatRequest, ChatResponse}
use llm_gateway_platform.Provider.Errors.{Err, errorf, errorf_wrap, new_transport_error}
use llm_gateway_platform.Http.{Fallible, ok, fail, Request, Response, set_header}
use llm_gateway_platform.Router.{Provider}
use llm_gateway_platform.Adapter.{Results, fails}
use llm_gateway_platform.Openai.{
  Choice, CompletionResponse, WireCodec, Client, body_of, map_finish_reason, parse_error,
}

-- The response, from the wire response and its first choice.
unfoldable pub response_of : CompletionResponse → Choice → ChatResponse
response_of out first = record {
  provider = Provider.openai;
  model = out.model;
  content = first.message.content;
  finish_reason = map_finish_reason first.finish_reason;
  usage = record {
    input_tokens = out.usage.prompt_tokens;
    output_tokens = out.usage.completion_tokens;
  };
}

-- After the payload is decoded, given its choices.
unfoldable pub after_choices : CompletionResponse → List Choice → Results
after_choices out [] = fails (errorf (plain "openai: response contained no choices"))
after_choices out (first ∷ _) = (some (response_of out first), none)

-- After `json.Unmarshal` of the payload.
unfoldable pub after_decode : Fallible CompletionResponse → Results
after_decode (fail e) = fails (errorf_wrap (plain "openai: decode response: ") e)
after_decode (ok out) = after_choices out out.choices

module _ {F : Type 0} (codec : WireCodec F) where
  -- After `io.ReadAll`.
  unfoldable pub after_read : ℕ → Fallible String → Results
  after_read status (fail e) = fails (new_transport_error Provider.openai e)
  after_read status (ok payload) =
      if not (status == 200)
      then fails (parse_error codec status payload)
      else after_decode (codec.unmarshal payload)

  -- After `c.http.Do`.
  unfoldable pub after_perform : Fallible Response → Results
  after_perform (fail e) = fails (new_transport_error Provider.openai e)
  after_perform (ok resp) = after_read resp.status_code resp.body

module _ {F W : Type 0} (codec : WireCodec F) (c : Client W) where
  abbrev pub url : String
  url = c.base_url <> "/chat/completions"

  -- The request that goes out, for a marshalled body.
  unfoldable pub http_request : String → Request
  http_request raw = set_header "Authorization" ("Bearer " <> c.api_key) (
      set_header "Content-Type" "application/json"
        (record { method = "POST"; url = url; header = []; body = raw }))

  -- After `http.NewRequestWithContext`.
  unfoldable pub after_request : Option Err → String → W → Option ChatResponse × Option Err × W
  after_request (some e) raw w = (none, some (errorf_wrap (plain "openai: build request: ") e), w)
  after_request none raw w =
      let (reply, w') = c.http.perform (http_request raw) w in
      let (resp, e) = after_perform codec reply in (resp, e, w')

  -- After `json.Marshal`.
  unfoldable pub after_marshal : Fallible String → W → Option ChatResponse × Option Err × W
  after_marshal (fail e) w = (none, some (errorf_wrap (plain "openai: marshal request: ") e), w)
  after_marshal (ok raw) w = after_request (codec.url_error url) raw w

  -- `Chat`
  unfoldable pub chat : ChatRequest F → W → Option ChatResponse × Option Err × W
  chat req w = after_marshal (codec.marshal (body_of req)) w

  -- The client as a provider
  abbrev pub as_provider : Provider F W
  as_provider = record { name = Provider.openai; chat = chat }
