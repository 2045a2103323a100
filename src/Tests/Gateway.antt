-- ===== src/Tests/Gateway.antt =====
-- An environment with one backend and one route, from its variables to a request that is served.
use llm_gateway_platform.Prelude.{
  ℕ, String, ◌≡◌, refl, ◌↔◌, Option, none, some, [], ◌∷◌, str_eq, if◌then◌else◌,
}
use llm_gateway_platform.Prelude.Int.{ℤ, pos, int64}
use llm_gateway_platform.Prelude.Decimal.{atoi}
use llm_gateway_platform.Prelude.Dict.{lookup, insert, insert_all}
use llm_gateway_platform.Float.Nano.{nano}
use llm_gateway_platform.Provider.Errors.{is_retryable, as_provider_error}
use llm_gateway_platform.Retry.{default_policy}
use llm_gateway_platform.Http.{ok}
use llm_gateway_platform.Router
use llm_gateway_platform.Router.{
  Router, register, add_route, resolve, lookup_provider, lookup_limiter,
}
use llm_gateway_platform.Pricing.{
  Table, default_table, merge, copy, overlay, validate, validate_models,
}
use llm_gateway_platform.Server.Refusals.{sole_failure, no_limit, no_token_limit}
use llm_gateway_platform.Server.{
  write, error, chat_error_text, ChatCompletionRequest, handle_chat_completions,
}
use llm_gateway_platform.Config
use llm_gateway_platform.Config.{Config, RouteTarget, System, get_routes, get_pricing, load}
use llm_gateway_platform.Config.Validity.{Loads, load_iff}
use llm_gateway_platform.Anthropic
use llm_gateway_platform.Anthropic.Chat as Messages
use llm_gateway_platform.Gateway
use llm_gateway_platform.Gateway.{Backends, build, price_table, to_pricing_table}
use llm_gateway_platform.Gateway.Registration.{ArePlain}
use llm_gateway_platform.Gateway.Wired.{Wired, build-Wired}
use llm_gateway_platform.Tests.Retry.{quiet, quiet-Interrupts}
use llm_gateway_platform.Tests.Adapters.{toy_codec, toy_codec-IsPlain, counting, claude_reply}
use llm_gateway_platform.Tests.SigV4.{prim}
use llm_gateway_platform.Tests.Openai as O
use llm_gateway_platform.Tests.Bedrock as B

abbrev variable : String → Option String
variable key =
    if str_eq key "ANTHROPIC_API_KEY"
    then some "k"
    else if str_eq key "GATEWAY_ROUTES"
    then some "{}"
    else if str_eq key "GATEWAY_READ_TIMEOUT"
    then some "30"
    else none

abbrev routes : Config.Routes
routes = ("chat-default", record { provider = "anthropic"; model = "claude-opus-4-8" } ∷ []) ∷ []

abbrev pub system : System ℤ
system = record {
  lookup_env = variable;
  decode_routes = λ _. ok routes;
  decode_pricing = λ _. ok [];
  parse_duration = λ v. if str_eq v "0" then some (pos 0) else none;
}

abbrev pub cfg : Config ℤ
cfg = record {
  env = "dev";
  http_addr = ":8080";
  read_timeout = pos 30_000_000_000;
  write_timeout = pos 30_000_000_000;
  shutdown_timeout = pos 20_000_000_000;
  log_level = "info";
  anthropic_api_key = "k";
  openai_api_key = "";
  aws_region = "";
  aws_access_key_id = "";
  aws_secret_access_key = "";
  aws_session_token = "";
  routes = routes;
  pricing = [];
}

pub loaded : load nano system ≡ ok cfg
unfolding load Config.after_decode Config.config_of Config.get_string Config.get_duration
    Config.whole_seconds get_routes get_pricing Config.validate Config.validate_level
    Config.validate_routes Config.validate_targets Config.validate_prices int64 atoi
loaded = refl

load_iff_example :
    (load nano system ≡ ok cfg)
    ↔ Loads nano system
        (get_routes system "GATEWAY_ROUTES")
        (get_pricing system "GATEWAY_PRICING")
        cfg
load_iff_example = load_iff nano system cfg

abbrev pub backends : Backends ℤ String ℕ ℕ
backends = record {
  transport = λ _. counting;
  now = λ w. (w, w);
  prim = prim;
  path_escape = B.same;
  anthropic_codec = toy_codec claude_reply;
  openai_codec = O.codec;
  bedrock_codec = B.codec;
}

pub backends-ArePlain : ArePlain backends
backends-ArePlain = record {
  anthropic_plain = toy_codec-IsPlain claude_reply;
  openai_plain = O.codec-IsPlain;
  bedrock_plain = B.codec-IsPlain;
}

abbrev pub client : Anthropic.Client ℕ
client = record {
  api_key = "k";
  base_url = "https://api.anthropic.com";
  api_version = "2023-06-01";
  http = counting;
}

abbrev pub router : Router ℤ ℕ
router = record {
  providers = ("anthropic", Messages.as_provider (toy_codec claude_reply) client) ∷ [];
  limiters = [];
  routes =
      (
        "chat-default",
        record { targets = record { provider = "anthropic"; model = "claude-opus-4-8" } ∷ [] },
      )
      ∷ [];
  fallback = record { targets = [] };
  retry = default_policy;
  failover = is_retryable;
}

abbrev pub table : Table ℤ
table = merge (default_table nano) []

-- What the runs of `Build` unfold.
unfoldable pub building : Unit {0}
unfolding build Gateway.add_backends Gateway.add_anthropic Gateway.add_openai Gateway.add_bedrock
    Gateway.after_backends Gateway.install_routes Gateway.targets_of Gateway.install price_table
    to_pricing_table Anthropic.new register add_route Router.new lookup insert insert_all validate
    validate_models merge copy overlay default_table
building = tt

pub built : build nano backends cfg ≡ ok (router, table)
unfolding building
built = refl

build-Wired_example : Wired nano backends backends-ArePlain cfg router
build-Wired_example = build-Wired nano backends backends-ArePlain cfg router table built

abbrev pub ask : ChatCompletionRequest ℤ
ask = record {
  model = "chat-default";
  system = "";
  messages = record { role = "user"; content = "hi" } ∷ [];
  max_tokens = pos 0;
  temperature = none;
}

abbrev target : Router.Target
target = record { provider = "anthropic"; model = "claude-opus-4-8" }

no_token_limit_example :
    handle_chat_completions nano quiet router (some table) (some ask) "team" 200 ≡ (
      write 502 (
          error "upstream_error" (
            chat_error_text (
              sole_failure nano quiet router
                (some table)
                "chat-default"
                target
                (no_limit nano quiet router (some table))))),
      200,
    )
unfolding resolve lookup lookup_provider lookup_limiter is_retryable as_provider_error
no_token_limit_example =
    no_token_limit nano quiet router (some table) (toy_codec claude_reply) client ask "team" 200
      (record { targets = target ∷ [] }) target refl refl refl quiet-Interrupts refl refl refl refl
      refl
