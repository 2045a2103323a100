-- ===== src/Gateway/Clients.antt =====
-- The Anthropic client that `Build` of internal/gateway/build.go registers when it has a key.
use mathlib.Core.Path.{subst}
use llm_gateway_platform.Prelude.{
  String, ◌≡◌, refl, ◌∙◌, ap, inl, inr, false, not, ◌&&◌, some, str_eq, Bool-cases, length, ◌==◌,
}
use llm_gateway_platform.Prelude.Text.{plain}
use llm_gateway_platform.Float.{Float}
use llm_gateway_platform.Http.{default_http_client, ok, ok-injective}
use llm_gateway_platform.Router.{Provider, Router, lookup_provider}
use llm_gateway_platform.Router.Setup.{lookup_provider-register}
use llm_gateway_platform.Pricing.{Table}
use llm_gateway_platform.Config.{Config}
use llm_gateway_platform.Anthropic
use llm_gateway_platform.Anthropic.Chat as Messages
use llm_gateway_platform.Openai
use llm_gateway_platform.Bedrock
use llm_gateway_platform.Bedrock.SigV4.{new_sig_v4_signer}
use llm_gateway_platform.Gateway.{
  Backends, Wiring, install, add_anthropic, add_openai, add_bedrock, add_backends, after_backends,
  install_routes, price_table, build, wrapped,
}
use llm_gateway_platform.Gateway.Routes.{and_then-ok, install_routes_keeps}

module _ {F K T W : Type 0} (f : Float F) (b : Backends F K T W) where
  -- The client that `anthropic.New` makes.
  abbrev pub anthropic_client : String → Anthropic.Client W
  anthropic_client key = record {
    api_key = key;
    base_url = "https://api.anthropic.com";
    api_version = "2023-06-01";
    http = (b.transport default_http_client);
  }

  abbrev pub HasAnthropic : String → Router F W → Type 0
  HasAnthropic key r =
      lookup_provider r "anthropic"
      ≡ some (Messages.as_provider b.anthropic_codec (anthropic_client key))

  install_other :
      (key : String) (p : Provider F W) (w : Wiring F W)
      → str_eq p.name "anthropic" ≡ false
      → HasAnthropic key w.router
      → HasAnthropic key (install p w).router
  unfolding install
  install_other key p w other h = lookup_provider-register w.router p "anthropic" ∙ rw other h

  add_anthropic-HasAnthropic :
      (cfg : Config F) (w w' : Wiring F W)
      → str_eq cfg.anthropic_api_key "" ≡ false
      → add_anthropic f b cfg w ≡ ok w'
      → HasAnthropic cfg.anthropic_api_key w'.router
  unfolding add_anthropic Anthropic.new install
  add_anthropic-HasAnthropic cfg w w' given h =
      subst (λ (v : Wiring F W). HasAnthropic cfg.anthropic_api_key v.router)
        (ok-injective (rw given at h))
        (lookup_provider-register w.router
          (Messages.as_provider b.anthropic_codec (anthropic_client cfg.anthropic_api_key))
          "anthropic")

  add_openai-HasAnthropic :
      (key : String) (cfg : Config F) (w w' : Wiring F W)
      → add_openai f b cfg w ≡ ok w'
      → HasAnthropic key w.router
      → HasAnthropic key w'.router
  unfolding add_openai Openai.new
  add_openai-HasAnthropic key cfg w w' h old = elim (Bool-cases (str_eq cfg.openai_api_key "")) [
    | inl off ↦
        subst (λ (v : Wiring F W). HasAnthropic key v.router) (ok-injective (rw off at h)) old
    | inr on ↦
        subst (λ (v : Wiring F W). HasAnthropic key v.router) (ok-injective (rw on at h))
          (install_other key _ w refl old)
  ]

  add_bedrock-HasAnthropic :
      (key : String) (cfg : Config F) (w w' : Wiring F W)
      → add_bedrock f b cfg w ≡ ok w'
      → HasAnthropic key w.router
      → HasAnthropic key w'.router
  unfolding add_bedrock
  add_bedrock-HasAnthropic key cfg w w' h old =
      elim (Bool-cases (
        not (str_eq cfg.aws_region "")
        && not (str_eq cfg.aws_access_key_id "")
        && not (str_eq cfg.aws_secret_access_key ""))) [
          | inl on ↦
              let (signer, signs, rest) =
                and_then-ok (wrapped (plain "gateway: bedrock: ") (new_sig_v4_signer _)) _ w'
                  (rw on at h) in
              let (c, made, same) =
                and_then-ok
                  (wrapped (plain "gateway: bedrock: ")
                    (Bedrock.new cfg.aws_region _ (b.transport default_http_client) b.now))
                  _ w' rest in
              subst (λ (v : Wiring F W). HasAnthropic key v.router) (ok-injective same)
                (install_other key _ w refl old)
          | inr off ↦
              subst (λ (v : Wiring F W). HasAnthropic key v.router) (ok-injective (rw off at h)) old
        ]

  add_backends-HasAnthropic :
      (cfg : Config F) (w : Wiring F W)
      → str_eq cfg.anthropic_api_key "" ≡ false
      → add_backends f b cfg ≡ ok w
      → HasAnthropic cfg.anthropic_api_key w.router
  unfolding add_backends
  add_backends-HasAnthropic cfg w given h =
      let (w₁, first, rest) = and_then-ok (add_anthropic f b cfg _) _ w h in
      let (w₂, second, third) = and_then-ok (add_openai f b cfg w₁) _ w rest in
      add_bedrock-HasAnthropic cfg.anthropic_api_key cfg w₂ w third (
        add_openai-HasAnthropic cfg.anthropic_api_key cfg w₁ w₂ second
          (add_anthropic-HasAnthropic cfg _ w₁ given first))

  after_backends-HasAnthropic :
      (key : String) (cfg : Config F) (w : Wiring F W) (r : Router F W) (table : Table F)
      → after_backends f b cfg w ≡ ok (r, table)
      → HasAnthropic key w.router
      → HasAnthropic key r
  unfolding after_backends lookup_provider
  after_backends-HasAnthropic key cfg w r table h old =
      elim (Bool-cases (length w.registered == 0)) [
        | inl none_there ↦ let bad = rw none_there at h in cc
        | inr some_there ↦
            let (r', installed, rest) =
              and_then-ok (install_routes w.registered cfg.routes w.router) _ (r, table)
                (rw some_there at h) in
            let (t, made, same) = and_then-ok (price_table f b cfg.pricing) _ (r, table) rest in
            let (kept, _, _) = install_routes_keeps w.registered cfg.routes w.router r' installed in
            subst (HasAnthropic key) (ap (λ x. x.0) (ok-injective same)) (rw kept old)
      ]

  -- With a key for Anthropic the router that `Build` returns has the client of that key.
  pub build-HasAnthropic :
      (cfg : Config F) (r : Router F W) (table : Table F)
      → str_eq cfg.anthropic_api_key "" ≡ false
      → build f b cfg ≡ ok (r, table)
      → HasAnthropic cfg.anthropic_api_key r
  unfolding build
  build-HasAnthropic cfg r table given h =
      let (w, added, rest) = and_then-ok (add_backends f b cfg) _ (r, table) h in
      after_backends-HasAnthropic cfg.anthropic_api_key cfg w r table rest
        (add_backends-HasAnthropic cfg w given added)
