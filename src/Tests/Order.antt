-- ===== src/Tests/Order.antt =====
-- Two routes, visited in both orders.
use llm_gateway_platform.Prelude.{
  ℕ, String, str_eq, Bool-cases, inl, inr, ◌≡◌, refl, [], ◌∷◌, eq_iff,
}
use llm_gateway_platform.Prelude.Int.{ℤ}
use llm_gateway_platform.Prelude.Dict.{lookup}
use llm_gateway_platform.Float.Nano.{nano}
use llm_gateway_platform.Provider.{ChatRequest}
use llm_gateway_platform.Runtime.{Env}
use llm_gateway_platform.Http.{ok}
use llm_gateway_platform.Config
use llm_gateway_platform.Config.{Config}
use llm_gateway_platform.Router.{Router}
use llm_gateway_platform.Router.Chat.{chat}
use llm_gateway_platform.Gateway.{build}
use llm_gateway_platform.Gateway.Order.{SameMap, build_in_any_order}
use llm_gateway_platform.Tests.Gateway.{cfg, backends, router, table, building}

abbrev opus : Config.RouteTarget
opus = record { provider = "anthropic"; model = "claude-opus-4-8" }

abbrev haiku : Config.RouteTarget
haiku = record { provider = "anthropic"; model = "claude-haiku-4-5" }

abbrev forwards : Config.Routes
forwards = ("chat-default", opus ∷ haiku ∷ []) ∷ ("fast", haiku ∷ []) ∷ []

abbrev backwards : Config.Routes
backwards = ("fast", haiku ∷ []) ∷ ("chat-default", opus ∷ haiku ∷ []) ∷ []

same_lookup : (key : String) → lookup key forwards ≡ lookup key backwards
unfolding lookup
same_lookup key = elim (Bool-cases (str_eq "fast" key)) [
  | inl e ↦ rw (← (eq_iff "fast" key).0 e) refl
  | inr e ↦ rw e refl
]

same_map : SameMap forwards backwards
unfolding lookup
same_map = ((refl, (refl, tt)), (refl, (refl, tt)), same_lookup)

abbrev two_routes : Config ℤ
two_routes = record cfg { routes = forwards }

abbrev two_routed : Router ℤ ℕ
two_routed = record router {
  routes =
      (
        "chat-default",
        record {
          targets =
              record { provider = "anthropic"; model = "claude-opus-4-8" }
              ∷ record { provider = "anthropic"; model = "claude-haiku-4-5" }
              ∷ [];
        },
      )
      ∷ (
        "fast",
        record { targets = record { provider = "anthropic"; model = "claude-haiku-4-5" } ∷ [] },
      )
      ∷ [];
}

built_forwards : build nano backends two_routes ≡ ok (two_routed, table)
unfolding building
built_forwards = refl

build_in_any_order_example :
    (r : Router ℤ ℕ) × (build nano backends (record cfg { routes = backwards }) ≡ ok (r, table))
    × ((env : Env ℕ) (req : ChatRequest ℤ) (w : ℕ) → chat env two_routed req w ≡ chat env r req w)
build_in_any_order_example =
    build_in_any_order nano backends two_routes backwards two_routed table same_map built_forwards
