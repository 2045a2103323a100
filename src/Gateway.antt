-- ===== src/Gateway.antt =====
-- internal/gateway/build.go: the router and the price table of a configuration.
pub mod Routes
pub mod Registration
pub mod Wired
pub mod Rates
pub mod Serving
pub mod Order
pub mod Enabled
pub mod Success
pub mod Clients
use llm_gateway_platform.Prelude.{
  String, ◌≡◌, Bool, true, false, not, ◌&&◌, Option, none, some, List, [], ◌∷◌, str_eq,
  if◌then◌else◌, length, ◌==◌,
}
use llm_gateway_platform.Prelude.Dict.{Dict, lookup, insert}
use llm_gateway_platform.Prelude.Text.{Text, words, quoted, plain}
use llm_gateway_platform.Float.{Float}
use llm_gateway_platform.Provider.{Name}
use llm_gateway_platform.Provider.Errors.{Err, errorf, errorf_wrap}
use llm_gateway_platform.Http.{default_http_client, HttpClient, Fallible, ok, fail, Doer}
use llm_gateway_platform.Router
use llm_gateway_platform.Router.{Target, Route, Provider, Router, register, add_route}
use llm_gateway_platform.Pricing.{ModelPrice, Table, default_table, merge, validate}
use llm_gateway_platform.Config.{Config, RouteTarget, PriceEntry, Prices}
use llm_gateway_platform.Anthropic
use llm_gateway_platform.Anthropic.Chat as Messages
use llm_gateway_platform.Openai
use llm_gateway_platform.Openai.Chat as Completions
use llm_gateway_platform.Bedrock
use llm_gateway_platform.Bedrock.Chat as Invocations
use llm_gateway_platform.Bedrock.SigV4.{Primitives, new_sig_v4_signer, as_signer}

-- What the three clients are made from: net/http, as a function of a client's settings, the clock, the
-- primitives of the signature, and the codings.
pub record Backends (F K T W : Type 0) : Type 0 where
  pub transport : HttpClient → Doer W  -- what the client with these settings does
  pub now : W → T × W
  pub prim : Primitives K T
  pub path_escape : String → String
  pub anthropic_codec : Anthropic.WireCodec
  pub openai_codec : Openai.WireCodec F
  pub bedrock_codec : Bedrock.WireCodec

-- The two variables that `Build` fills first.
pub record Wiring (F W : Type 0) : Type 0 where
  pub router : Router F W
  pub registered : Dict Bool

-- if err != nil { return err }
abbrev pub and_then : {A B : Type 0} → Fallible A → (A → Fallible B) → Fallible B
and_then (fail e) next = fail e
and_then (ok a) next = next a

-- The same with the error wrapped.
abbrev pub wrapped : {A : Type 0} → Text → Fallible A → Fallible A
wrapped t (fail e) = fail (errorf_wrap t e)
wrapped t (ok a) = ok a

-- `registered[p]`, false where it is missing
abbrev pub is_registered : Dict Bool → Name → Bool
is_registered registered p = elim (lookup p registered) [ none ↦ false | some b ↦ b ]

-- The loop over the targets of the route `name`.
unfoldable pub targets_of : String → Dict Bool → List RouteTarget → Fallible (List Target)
targets_of name registered [] = ok []
targets_of name registered (t ∷ ts) =
    let rest = targets_of name registered ts in
    if not (is_registered registered t.provider)
    then fail (
        errorf (
          words "gateway: route "
          ∷ quoted name
          ∷ words " references unregistered provider "
          ∷ quoted t.provider
          ∷ []))
    else and_then rest (λ others. ok (record { provider = t.provider; model = t.model } ∷ others))

module _ {F W : Type 0} where
  -- r.Register(c), and the entry of its name
  unfoldable pub install : Provider F W → Wiring F W → Wiring F W
  unfolding register insert
  install p w = record {
    router = register p w.router;
    registered = insert p.name true w.registered;
  }

  -- The loop over the routes.
  unfoldable pub install_routes :
      Dict Bool → Dict (List RouteTarget) → Router F W → Fallible (Router F W)
  unfolding add_route
  install_routes registered [] r = ok r
  install_routes registered ((name, targets) ∷ routes) r =
      and_then (targets_of name registered targets)
        (λ made. install_routes registered routes (add_route name (record { targets = made }) r))

-- The inner loop of `toPricingTable`.
unfoldable pub prices_of :
    {F : Type 0} → Dict (PriceEntry F) → Dict (ModelPrice F) → Dict (ModelPrice F)
unfolding insert
prices_of [] made = made
prices_of ((model, entry) ∷ models) made = prices_of models (
    insert model (record { input_per_1m = entry.input_per_1m; output_per_1m = entry.output_per_1m })
      made)

-- The outer loop of `toPricingTable`, which it starts on an empty table.
unfoldable pub to_pricing_table : {F : Type 0} → Prices F → Table F → Table F
unfolding insert prices_of
to_pricing_table [] table = table
to_pricing_table ((name, models) ∷ prices) table =
    to_pricing_table prices (insert name (prices_of models []) table)

module _ {F K T W : Type 0} (f : Float F) (b : Backends F K T W) where
  unfoldable pub add_anthropic : Config F → Wiring F W → Fallible (Wiring F W)
  unfolding install
  add_anthropic cfg w =
      if str_eq cfg.anthropic_api_key ""
      then ok w
      else and_then
          (wrapped (plain "gateway: anthropic: ")
            (Anthropic.new cfg.anthropic_api_key (b.transport default_http_client)))
          (λ c. ok (install (Messages.as_provider b.anthropic_codec c) w))

  unfoldable pub add_openai : Config F → Wiring F W → Fallible (Wiring F W)
  unfolding install
  add_openai cfg w =
      if str_eq cfg.openai_api_key ""
      then ok w
      else and_then
          (wrapped (plain "gateway: openai: ")
            (Openai.new cfg.openai_api_key (b.transport default_http_client)))
          (λ c. ok (install (Completions.as_provider b.openai_codec c) w))

  unfoldable pub add_bedrock : Config F → Wiring F W → Fallible (Wiring F W)
  unfolding install
  add_bedrock cfg w =
      if not (str_eq cfg.aws_region "")
        && not (str_eq cfg.aws_access_key_id "")
        && not (str_eq cfg.aws_secret_access_key "")
      then and_then
          (wrapped (plain "gateway: bedrock: ") (
            new_sig_v4_signer (record {
              access_key_id = cfg.aws_access_key_id;
              secret_access_key = cfg.aws_secret_access_key;
              session_token = cfg.aws_session_token;
            })))
          (λ signer.
            and_then
              (wrapped (plain "gateway: bedrock: ") (
                Bedrock.new cfg.aws_region (some (as_signer b.prim signer))
                  (b.transport default_http_client) b.now))
              (λ c. ok (install (Invocations.as_provider b.bedrock_codec b.path_escape c) w)))
      else ok w

  -- The clients of all the configured backends.
  unfoldable pub add_backends : Config F → Fallible (Wiring F W)
  add_backends cfg =
      and_then (add_anthropic cfg (record { router = Router.new; registered = [] }))
        (λ w. and_then (add_openai cfg w) (add_bedrock cfg))

  -- After `priceTable.Validate`.
  abbrev pub after_validate : Table F → Option Err → Fallible (Table F)
  after_validate table none = ok table
  after_validate table (some e) = fail (errorf_wrap (plain "gateway: ") e)

  -- The price table, if it validates.
  unfoldable pub price_table : Prices F → Fallible (Table F)
  price_table prices =
      let table = merge (default_table f) (to_pricing_table prices []) in
      after_validate table (validate f table)

  -- `Build` from where the backends are registered.
  unfoldable pub after_backends : Config F → Wiring F W → Fallible (Router F W × Table F)
  after_backends cfg w =
      if length w.registered == 0
      then fail (
          errorf (
            plain
              "gateway: no provider configured; set ANTHROPIC_API_KEY, OPENAI_API_KEY, or AWS credentials"))
      else and_then (install_routes w.registered cfg.routes w.router)
          (λ r. and_then (price_table cfg.pricing) (λ table. ok (r, table)))

  -- `Build`
  unfoldable pub build : Config F → Fallible (Router F W × Table F)
  build cfg = and_then (add_backends cfg) (after_backends cfg)
