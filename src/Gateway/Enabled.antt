-- ===== src/Gateway/Enabled.antt =====
-- Which backends `Build` of internal/gateway/build.go registers: those with credentials.
use llm_gateway_platform.Prelude.{
  ◌≡◌, refl, ◌∙◌, ap, inl, inr, Bool, true, false, not, ◌&&◌, ◌||◌, [], str_eq, arith, Bool-cases,
  length, ◌==◌,
}
use llm_gateway_platform.Prelude.Dict.{Dict, insert}
use llm_gateway_platform.Float.{Float}
use llm_gateway_platform.Provider.{Name}
use llm_gateway_platform.Http.{Fallible, ok}
use llm_gateway_platform.Config.{Config}
use llm_gateway_platform.Router
use llm_gateway_platform.Anthropic
use llm_gateway_platform.Openai
use llm_gateway_platform.Bedrock
use llm_gateway_platform.Bedrock.SigV4.{new_sig_v4_signer}
use llm_gateway_platform.Gateway.{
  Backends, Wiring, is_registered, install, add_anthropic, add_openai, add_bedrock, add_backends,
}
use llm_gateway_platform.Gateway.Registration.{is_registered-nil, is_registered-insert}

module _ {F : Type 0} (cfg : Config F) where
  abbrev pub has_anthropic : Bool
  has_anthropic = not (str_eq cfg.anthropic_api_key "")

  abbrev pub has_openai : Bool
  has_openai = not (str_eq cfg.openai_api_key "")

  abbrev pub has_bedrock : Bool
  has_bedrock =
      not (str_eq cfg.aws_region "")
      && not (str_eq cfg.aws_access_key_id "")
      && not (str_eq cfg.aws_secret_access_key "")

  -- The configuration has the credentials of the backend `name`.
  abbrev pub enabled : Name → Bool
  enabled name =
      has_bedrock && str_eq "bedrock" name
      || (has_openai && str_eq "openai" name || (has_anthropic && str_eq "anthropic" name || false))

-- `name`, if it is enabled, among the registered.
abbrev put : Bool → Name → Dict Bool → Dict Bool
put false name d = d
put true name d = insert name true d

is_registered-put :
    (x : Bool) (k name : Name) (d : Dict Bool)
    → is_registered (put x k d) name ≡ (x && str_eq k name || is_registered d name)
is_registered-put false k name d = refl
is_registered-put true k name d = ground (arith, is_registered-insert k name d)

abbrev pub listed : Bool → Bool → Bool → Dict Bool
listed x y z = put z "bedrock" (put y "openai" (put x "anthropic" []))

listed-length : (x y z : Bool) → (length (listed x y z) == 0) ≡ not (z || (y || x))
unfolding insert
listed-length true true true = refl
listed-length true true false = refl
listed-length true false true = refl
listed-length true false false = refl
listed-length false true true = refl
listed-length false true false = refl
listed-length false false true = refl
listed-length false false false = refl

module _ {F K T W : Type 0} (f : Float F) (b : Backends F K T W) (cfg : Config F) where
  -- What a step adds to the registered backends, without an error.
  abbrev Adds : Bool → Name → (Wiring F W → Fallible (Wiring F W)) → Type 0
  Adds x name step =
      (w : Wiring F W)
      → (w' : Wiring F W) × (step w ≡ ok w') × (w'.registered ≡ put x name w.registered)

  add_anthropic-Adds : Adds (has_anthropic cfg) "anthropic" (add_anthropic f b cfg)
  unfolding add_anthropic Anthropic.new install
  add_anthropic-Adds w = elim (Bool-cases (str_eq cfg.anthropic_api_key "")) [
    | inl off ↦ rw off (w, refl, refl)
    | inr on ↦ rw on (_, refl, refl)
  ]

  add_openai-Adds : Adds (has_openai cfg) "openai" (add_openai f b cfg)
  unfolding add_openai Openai.new install
  add_openai-Adds w = elim (Bool-cases (str_eq cfg.openai_api_key "")) [
    | inl off ↦ rw off (w, refl, refl)
    | inr on ↦ rw on (_, refl, refl)
  ]

  add_bedrock-Adds : Adds (has_bedrock cfg) "bedrock" (add_bedrock f b cfg)
  unfolding add_bedrock Bedrock.new new_sig_v4_signer install
  add_bedrock-Adds w = elim (Bool-cases (str_eq cfg.aws_region "")) [
    | inl off ↦ rw off (w, refl, refl)
    | inr region ↦ elim (Bool-cases (str_eq cfg.aws_access_key_id "")) [
      | inl off ↦ rw (region, off) (w, refl, refl)
      | inr key ↦ elim (Bool-cases (str_eq cfg.aws_secret_access_key "")) [
        | inl off ↦ rw (region, key, off) (w, refl, refl)
        | inr secret ↦ rw (region, key, secret) (_, refl, refl)
      ]
    ]
  ]

  -- The clients of the configured backends can always be made.
  pub add_backends-listed :
      (w : Wiring F W) × (add_backends f b cfg ≡ ok w)
      × (w.registered ≡ listed (has_anthropic cfg) (has_openai cfg) (has_bedrock cfg))
  unfolding add_backends
  add_backends-listed =
      let (w₁, first, r₁) = add_anthropic-Adds (record { router = Router.new; registered = [] }) in
      let (w₂, second, r₂) = add_openai-Adds w₁ in
      let (w₃, third, r₃) = add_bedrock-Adds w₂ in
      (
        w₃,
        rw (first, second) third,
        r₃ ∙ ap (put (has_bedrock cfg) "bedrock") (r₂ ∙ ap (put (has_openai cfg) "openai") r₁),
      )

module _ {F : Type 0} (cfg : Config F) where
  -- The registered backends are the enabled ones, and there is none only if none is enabled.
  pub listed-enabled :
      let d = listed (has_anthropic cfg) (has_openai cfg) (has_bedrock cfg) in
      ((name : Name) → is_registered d name ≡ enabled cfg name)
      × ((length d == 0) ≡ not (has_bedrock cfg || (has_openai cfg || has_anthropic cfg)))
  listed-enabled = (
    λ name.
        is_registered-put (has_bedrock cfg) "bedrock" name _
        ∙ ap (λ x. has_bedrock cfg && str_eq "bedrock" name || x)
            (is_registered-put (has_openai cfg) "openai" name _
              ∙ ap (λ x. has_openai cfg && str_eq "openai" name || x)
                  (is_registered-put (has_anthropic cfg) "anthropic" name []
                    ∙ ap (λ x. has_anthropic cfg && str_eq "anthropic" name || x)
                        (is_registered-nil name))),
    listed-length (has_anthropic cfg) (has_openai cfg) (has_bedrock cfg),
  )
