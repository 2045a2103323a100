-- ===== src/Main/EndToEnd.antt =====
-- A request served from end to end: cmd/gateway/main.go, the mux and the handler of
-- internal/server/server.go, the router, the retry loop, and the Anthropic adapter.
use mathlib.Core.Path.{subst}
use llm_gateway_platform.Prelude.{
  String, ◌≡◌, refl, sym, ◌∙◌, ap, true, false, none, some, List, [], ◌∷◌, map, str_eq,
}
use llm_gateway_platform.Prelude.Int.{pos, ltb_ℤ}
use llm_gateway_platform.Prelude.Dict.{lookup, IsMap}
use llm_gateway_platform.Float.{Float}
use llm_gateway_platform.Provider.{ChatRequest}
use llm_gateway_platform.Runtime.{Env}
use llm_gateway_platform.Retry.Calls.{Interrupts}
use llm_gateway_platform.Http.{default_http_client, ok, ok-injective, Doer, Request}
use llm_gateway_platform.Anthropic.{WireCodec, Client, MessagesRequest, MessagesResponse, body_of}
use llm_gateway_platform.Anthropic.Chat as Messages
use llm_gateway_platform.Anthropic.Chat.{
  response_of, after_decode, after_read, after_perform, http_request, url, after_request,
  after_marshal,
}
use llm_gateway_platform.Config.{Config, RouteTarget, System, load}
use llm_gateway_platform.Pricing.{Table}
use llm_gateway_platform.Router.{Target, Router, clone_for_target, lookup_provider}
use llm_gateway_platform.Router.Chat.{chat}
use llm_gateway_platform.Router.Offers.{serves, answers, Steady}
use llm_gateway_platform.Router.Passing.{answered_by, chat_reaches}
use llm_gateway_platform.Gateway.{Backends, build}
use llm_gateway_platform.Gateway.Registration.{ArePlain}
use llm_gateway_platform.Gateway.Routes.{target_of, route_or}
use llm_gateway_platform.Gateway.Wired.{build-Wired}
use llm_gateway_platform.Gateway.Clients.{anthropic_client, build-HasAnthropic}
use llm_gateway_platform.Server.{
  ChatCompletionRequest, write, completion, completion_of, after_chat, unified, is_empty,
  handle_chat_completions,
}
use llm_gateway_platform.Server.Mux.{Incoming, handled, Server, new, serve_http}
use llm_gateway_platform.Server.Dispatch.{expected, serve_http-expected}
use llm_gateway_platform.Main.{Launched, launch}
use llm_gateway_platform.Main.Launch.{launch-ok}

-- Every request encodes, the URL of the Messages API parses, and the backend answers every request
-- with 200 and one payload, which decodes to `out`.
pub record Answers {W : Type 0} (codec : WireCodec) (http : Doer W) (out : MessagesResponse)
    : Type 0 where
  pub payload : String
  pub encodes : (body : MessagesRequest) → (raw : String) × (codec.marshal body ≡ ok raw)
  pub addressed : codec.url_error "https://api.anthropic.com/v1/messages" ≡ none
  pub replies :
      (q : Request) (w : W)
      → (http.perform q w).0 ≡ ok (record { status_code = 200; body = ok payload })
  pub decodes : codec.unmarshal payload ≡ ok out

module _ {W : Type 0} (codec : WireCodec) (c : Client W) (out : MessagesResponse)
    (answering : Answers codec c.http out) where
  after_request_answered :
      (raw : String) (w : W)
      → ((after_request codec c none raw w).0 ≡ some (response_of out))
        × ((after_request codec c none raw w).1 ≡ none)
  unfolding after_request after_perform after_read after_decode
  after_request_answered raw w = rw answering.replies (rw answering.decodes (refl, refl))

  messages_answered :
      {F : Type 0} (req : ChatRequest F) (w : W)
      → ltb_ℤ (pos 0) req.max_tokens ≡ true
      → codec.url_error (url codec c) ≡ none
      → ((Messages.chat codec c req w).0 ≡ some (response_of out))
        × ((Messages.chat codec c req w).1 ≡ none)
  unfolding Messages.chat after_marshal
  messages_answered req w positive addressed =
      let (raw, encoded) = answering.encodes (body_of req) in
      rw (positive, encoded, addressed) (after_request_answered raw w)

module _ {F K T W : Type 0} (f : Float F) (env : Env W) (live : Interrupts env (λ _. ⊥))
    (b : Backends F K T W) (plainly : ArePlain b) (cfg : Config F) (out : MessagesResponse)
    (answering : Answers b.anthropic_codec (b.transport default_http_client) out) where
  -- The routes are a map, and the model's first target is one of Anthropic, for which there is a key.
  pub record First (model : String) : Type 0 where
    pub target : RouteTarget
    pub later : List RouteTarget
    pub map_of_routes : IsMap cfg.routes
    pub configured : lookup model cfg.routes ≡ some (target ∷ later)
    pub of_anthropic : target.provider ≡ "anthropic"
    pub key : str_eq cfg.anthropic_api_key "" ≡ false

  module _ (r : Router F W) (table : Table F) (built : build f b cfg ≡ ok (r, table)) where
    built_steady :
        (req : ChatRequest F) (t : Target)
        → t.provider ≡ "anthropic"
        → str_eq cfg.anthropic_api_key "" ≡ false
        → ltb_ℤ (pos 0) req.max_tokens ≡ true
        → Steady r req t (serves (some (response_of out)))
    unfolding clone_for_target
    built_steady req t of_anthropic key positive =
        let wired = build-Wired f b plainly cfg r table built in
        answers
          (Messages.as_provider b.anthropic_codec (anthropic_client f b cfg.anthropic_api_key))
          (some (response_of out))
          (ap (lookup_provider r) of_anthropic ∙ build-HasAnthropic f b cfg r table key built)
          (λ l set w. let bad = wired.unlimited t.provider in cc)
          (λ w.
            messages_answered b.anthropic_codec (anthropic_client f b cfg.anthropic_api_key) out
              answering (clone_for_target req t) w positive answering.addressed)

    built_chat :
        (req : ChatRequest F) (w : W)
        → (first : First req.model) → ltb_ℤ (pos 0) req.max_tokens ≡ true
        → (chat env r req w).0
          ≡ answered_by env r req live (target_of first.target) (some (response_of out))
    built_chat req w first positive =
        let wired = build-Wired f b plainly cfg r table built in
        chat_reaches env r req live
          (record { targets = map target_of (first.target ∷ first.later) }) []
          (target_of first.target) (map target_of first.later) (some (response_of out)) w
          (wired.routed req.model first.map_of_routes ∙ ap (λ o. route_or o none) first.configured)
          refl tt tt
          (built_steady req (target_of first.target) first.of_anthropic first.key positive)

    handled_request :
        (req : ChatCompletionRequest F) (caller : String) (w : W)
        → First req.model
        → str_eq req.model "" ≡ false
        → is_empty req.messages ≡ false
        → ltb_ℤ (pos 0) req.max_tokens ≡ true
        → (handle_chat_completions f env r (some table) (some req) caller w).0
          ≡ write 200 (completion (completion_of f env r (some table) (response_of out) 1))
    unfolding handle_chat_completions after_chat
    handled_request req caller w first model messages positive =
        rw (model, messages, built_chat (unified f env r (some table) req caller) w first positive)
          refl

  -- POST /v1/chat/completions
  abbrev pub posted : ChatCompletionRequest F → String → Incoming F
  posted req caller = record {
    method = "POST";
    path = "/v1/chat/completions";
    caller = caller;
    body = some req;
  }

  -- The server answers the request with the backend's reply.
  abbrev pub Serves : ChatCompletionRequest F → String → W → Server F W → Type 0
  Serves req caller w server =
      (serve_http f env server (posted req caller) w).0
      ≡ handled (
          write 200
            (completion (completion_of f env server.router server.pricing (response_of out) 1)))

  new-Serves :
      (cfg' : Config F) (r : Router F W) (table : Table F) (req : ChatCompletionRequest F)
      (caller : String) (w : W)
      → build f b cfg ≡ ok (r, table)
      → First req.model
      → str_eq req.model "" ≡ false
      → is_empty req.messages ≡ false
      → ltb_ℤ (pos 0) req.max_tokens ≡ true
      → Serves req caller w (new cfg' r (some table))
  unfolding new expected
  new-Serves cfg' r table req caller w built first model messages positive =
      ap (λ x. x.0) (serve_http-expected f env cfg' r (some table) (posted req caller) w)
      ∙ ap handled (handled_request r table built req caller w first model messages positive)

  -- The context is never done, no error of the codings wraps a *provider.Error, every request encodes,
  -- the URL of Anthropic's Messages API parses, and the backend answers every request with 200 and a
  -- payload that decodes. Then a process that was launched with
  -- the configuration, whose routes are a map, answers a chat request with a model, messages and a
  -- positive max_tokens, whose model's first target is one of Anthropic, for which there is a key:
  -- with 200 and the translation of what the payload decodes to, one attempt, and the cost by the
  -- process's price table.
  pub launch-Serves :
      (s : System F) (l : Launched F W) (req : ChatCompletionRequest F) (caller : String) (w : W)
      → launch f b s ≡ ok l
      → load f s ≡ ok cfg
      → First req.model
      → str_eq req.model "" ≡ false
      → is_empty req.messages ≡ false
      → ltb_ℤ (pos 0) req.max_tokens ≡ true
      → Serves req caller w l.server
  launch-Serves s l req caller w launched loaded first model messages positive =
      let (cfg', r, table, loaded', built', same) = launch-ok f b s l launched in
      let built : build f b cfg ≡ ok (r, table) =
        subst (λ (c : Config F). build f b c ≡ ok (r, table)) (ok-injective (sym loaded' ∙ loaded))
          built' in
      subst (λ (x : Launched F W). Serves req caller w x.server) (sym same)
        (new-Serves cfg' r table req caller w built first model messages positive)
