-- ===== src/Gateway/Registration.antt =====
-- The backends that `Build` of internal/gateway/build.go registers.
use mathlib.Core.Path.{subst}
use mathlib.Core.Option.{some-injective}
use llm_gateway_platform.Prelude.{
  String, ◌≡◌, refl, sym, ◌∙◌, ap, inl, inr, Bool, true, false, not, ◌&&◌, some, [], arith, str_eq,
  eq_iff, Bool-cases, if◌then◌else◌,
}
use llm_gateway_platform.Prelude.Dict.{Dict, lookup, insert, lookup-insert, lookup-nil}
use llm_gateway_platform.Prelude.Text.{plain}
use llm_gateway_platform.Float.{Float}
use llm_gateway_platform.Provider.{Name}
use llm_gateway_platform.Http.{default_http_client, ok, ok-injective, IsPlain}
use llm_gateway_platform.Adapter.{IsExclusive, AllExclusive}
use llm_gateway_platform.Router
use llm_gateway_platform.Router.{
  Target, Route, Provider, Router, register, resolve, lookup_provider, lookup_limiter,
}
use llm_gateway_platform.Router.Setup.{lookup_provider-register}
use llm_gateway_platform.Config.{Config}
use llm_gateway_platform.Anthropic
use llm_gateway_platform.Anthropic.Contract.{messages_call-IsExclusive}
use llm_gateway_platform.Openai
use llm_gateway_platform.Openai.Contract.{completion_call-IsExclusive}
use llm_gateway_platform.Bedrock
use llm_gateway_platform.Bedrock.SigV4.{SigV4Signer, Primitives, new_sig_v4_signer, as_signer}
use llm_gateway_platform.Bedrock.Contract.{IsPlainSigner, invoke_call-IsExclusive}
use llm_gateway_platform.Gateway.{
  Backends, Wiring, is_registered, install, add_anthropic, add_openai, add_bedrock, add_backends,
  wrapped,
}
use llm_gateway_platform.Gateway.Routes.{and_then-ok}

pub is_registered-nil : (name : Name) → is_registered [] name ≡ false
unfolding lookup
is_registered-nil name = refl

pub is_registered-insert :
    (k name : Name) (d : Dict Bool)
    → is_registered (insert k true d) name ≡ (if str_eq k name then true else is_registered d name)
is_registered-insert k name d = ground (arith, lookup-insert k name true d)

module _ {F W : Type 0} where
  -- What holds while the backends are registered.
  pub record IsWired (w : Wiring F W) : Type 0 where
    pub complete :
        (name : Name)
        → is_registered w.registered name ≡ true
        → (p : Provider F W) × (lookup_provider w.router name ≡ some p)
    pub exclusive : AllExclusive w.router
    pub no_route : w.router.routes ≡ []
    pub no_limiter : w.router.limiters ≡ []
    pub no_default : w.router.fallback.targets ≡ []

  install-AllExclusive :
      (p : Provider F W) (w : Wiring F W)
      → IsExclusive p
      → AllExclusive w.router
      → AllExclusive (install p w).router
  unfolding install
  install-AllExclusive p w h old name q found = elim (Bool-cases (str_eq p.name name)) [
    | inl same ↦
        let here : some p ≡ some q = rw (lookup_provider-register w.router p name, same) at found in
        subst (λ (x : Provider F W). IsExclusive x × (x.name ≡ name)) (some-injective _ _ here)
          (h, (eq_iff p.name name).0 same)
    | inr differ ↦ old name q (rw (lookup_provider-register w.router p name, differ) at found)
  ]

  install-IsWired :
      (p : Provider F W) (w : Wiring F W) → IsExclusive p → IsWired w → IsWired (install p w)
  unfolding install register
  install-IsWired p w h old = record {
    complete = λ name known. elim (Bool-cases (str_eq p.name name)) [
      | inl same ↦ (p, lookup_provider-register w.router p name ∙ rw same refl)
      | inr differ ↦
          let (q, found) =
            old.complete name
              (rw (is_registered-insert p.name name w.registered, differ) at known) in
          (q, lookup_provider-register w.router p name ∙ rw differ found)
    ];
    exclusive = install-AllExclusive p w h old.exclusive;
    no_route = old.no_route;
    no_limiter = old.no_limiter;
    no_default = old.no_default;
  }

  start-IsWired : IsWired (record { router = Router.new; registered = [] })
  unfolding Router.new lookup_provider
  start-IsWired = record {
    complete = λ name known. let bad = is_registered-nil name in cc;
    exclusive = λ name p found. let bad = lookup-nil {V = Provider F W} name in cc;
    no_route = refl;
    no_limiter = refl;
    no_default = refl;
  }

as_signer-IsPlainSigner :
    {K T : Type 0} (prim : Primitives K T) (s : SigV4Signer) → IsPlainSigner (as_signer prim s)
as_signer-IsPlainSigner prim s = record { sign_plain = λ h. cc }

-- No coding makes an error that wraps a `*provider.Error`.
pub record ArePlain {F K T W : Type 0} (b : Backends F K T W) : Type 0 where
  pub anthropic_plain : IsPlain b.anthropic_codec
  pub openai_plain : IsPlain b.openai_codec
  pub bedrock_plain : IsPlain b.bedrock_codec

module _ {F K T W : Type 0} (f : Float F) (b : Backends F K T W) (plainly : ArePlain b) where
  add_anthropic-IsWired :
      (cfg : Config F) (w w' : Wiring F W)
      → add_anthropic f b cfg w ≡ ok w'
      → IsWired w
      → IsWired w'
  unfolding add_anthropic Anthropic.new
  add_anthropic-IsWired cfg w w' h old = elim (Bool-cases (str_eq cfg.anthropic_api_key "")) [
    | inl off ↦ subst IsWired (ok-injective (rw off at h)) old
    | inr on ↦ subst IsWired (ok-injective (rw on at h)) (
        install-IsWired _ w (messages_call-IsExclusive b.anthropic_codec plainly.anthropic_plain _)
          old)
  ]

  add_openai-IsWired :
      (cfg : Config F) (w w' : Wiring F W) → add_openai f b cfg w ≡ ok w' → IsWired w → IsWired w'
  unfolding add_openai Openai.new
  add_openai-IsWired cfg w w' h old = elim (Bool-cases (str_eq cfg.openai_api_key "")) [
    | inl off ↦ subst IsWired (ok-injective (rw off at h)) old
    | inr on ↦ subst IsWired (ok-injective (rw on at h)) (
        install-IsWired _ w (completion_call-IsExclusive b.openai_codec plainly.openai_plain _) old)
  ]

  new_keeps_signer :
      (region : String) (s : Bedrock.Signer T) (c : Bedrock.Client T W)
      → wrapped
          (plain "gateway: bedrock: ")
          (Bedrock.new region (some s) (b.transport default_http_client) b.now)
        ≡ ok c
      → c.signer ≡ s
  unfolding Bedrock.new
  new_keeps_signer region s c h = elim (Bool-cases (str_eq region "")) [
    | inl empty ↦ let bad = rw empty at h in cc
    | inr named ↦ ap (λ (x : Bedrock.Client T W). x.signer) (sym (ok-injective (rw named at h)))
  ]

  add_bedrock-IsWired :
      (cfg : Config F) (w w' : Wiring F W) → add_bedrock f b cfg w ≡ ok w' → IsWired w → IsWired w'
  unfolding add_bedrock
  add_bedrock-IsWired cfg w w' h old =
      elim (Bool-cases (
        not (str_eq cfg.aws_region "")
        && not (str_eq cfg.aws_access_key_id "")
        && not (str_eq cfg.aws_secret_access_key ""))) [
          | inl on ↦
              let (signer, signs, rest) =
                and_then-ok (wrapped (plain "gateway: bedrock: ") (new_sig_v4_signer _)) _ w'
                  (rw on at h) in
              let (c, made, same) =
                and_then-ok
                  (wrapped (plain "gateway: bedrock: ")
                    (Bedrock.new cfg.aws_region _ (b.transport default_http_client) b.now))
                  _ w' rest in
              subst IsWired (ok-injective same) (
                install-IsWired _ w
                  (invoke_call-IsExclusive b.bedrock_codec plainly.bedrock_plain b.path_escape c (
                    subst IsPlainSigner
                      (sym (new_keeps_signer cfg.aws_region (as_signer b.prim signer) c made))
                      (as_signer-IsPlainSigner b.prim signer)))
                  old)
          | inr off ↦ subst IsWired (ok-injective (rw off at h)) old
        ]

  pub add_backends-IsWired :
      (cfg : Config F) (w : Wiring F W) → add_backends f b cfg ≡ ok w → IsWired w
  unfolding add_backends
  add_backends-IsWired cfg w h =
      let (w₁, first, rest) = and_then-ok (add_anthropic f b cfg _) _ w h in
      let (w₂, second, third) = and_then-ok (add_openai f b cfg w₁) _ w rest in
      add_bedrock-IsWired cfg w₂ w third
        (add_openai-IsWired cfg w₁ w₂ second (add_anthropic-IsWired cfg _ w₁ first start-IsWired))
