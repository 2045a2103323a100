-- ===== src/Config.antt =====
-- internal/config/config.go: the configuration that the process reads from its environment. The
-- environment, the JSON decoders and `time.ParseDuration` are the record `System`; a Go map
-- is an association list, in the order in which a `range` loop visits it.
pub mod Validity
pub mod Durations
use llm_gateway_platform.Prelude.{
  ℕ, suc, ◌*◌, ◌-◌, String, ◌≡◌, ◌||◌, Option, none, some, List, [], ◌∷◌, str_eq, if◌then◌else◌,
}
use llm_gateway_platform.Prelude.Int.{ℤ, pos, negsuc, int64}
use llm_gateway_platform.Prelude.Decimal.{atoi}
use llm_gateway_platform.Prelude.Dict.{Dict}
use llm_gateway_platform.Prelude.Text.{words, quoted, plain}
use llm_gateway_platform.Float.{Float}
use llm_gateway_platform.Provider.Errors.{Err, errorf, errorf_wrap}
use llm_gateway_platform.Http.{Fallible, ok, fail}

pub record RouteTarget : Type 0 where
  pub provider : String
  pub model : String

pub record PriceEntry (F : Type 0) : Type 0 where
  pub input_per_1m : F
  pub output_per_1m : F

abbrev pub Routes : Type 0
Routes = Dict (List RouteTarget)

abbrev pub Prices : Type 0 → Type 0
Prices F = Dict (Dict (PriceEntry F))

-- `Config`; a time.Duration is a number of nanoseconds.
pub record Config (F : Type 0) : Type 0 where
  pub env : String
  pub http_addr : String
  pub read_timeout : ℤ
  pub write_timeout : ℤ
  pub shutdown_timeout : ℤ
  pub log_level : String
  pub anthropic_api_key : String
  pub openai_api_key : String
  pub aws_region : String
  pub aws_access_key_id : String
  pub aws_secret_access_key : String
  pub aws_session_token : String
  pub routes : Routes
  pub pricing : Prices F

pub record System (F : Type 0) : Type 0 where
  pub lookup_env : String → Option String
  pub decode_routes : String → Fallible Routes
  pub decode_pricing : String → Fallible (Prices F)
  pub parse_duration : String → Option ℤ

-- A variable that is set to the empty string reads as one that is not set.
abbrev present : Option String → Option String
present none = none
present (some v) = if str_eq v "" then none else some v

-- time.Duration(secs) * time.Second
unfoldable pub whole_seconds : ℤ → ℤ
whole_seconds (pos n) = int64 (pos (n * 1_000_000_000))
whole_seconds (negsuc n) = int64 (negsuc (suc n * 1_000_000_000 - 1))

abbrev seconds : ℕ → ℤ
seconds n = pos (n * 1_000_000_000)

-- `v` as a duration, given what the two parsers make of it
abbrev pub duration_or : ℤ → Option ℤ → Option ℤ → ℤ
duration_or fallback (some d) secs = d
duration_or fallback none (some secs) = whole_seconds secs
duration_or fallback none none = fallback

abbrev invalid : String → Err → Err
invalid key e = errorf_wrap (words "config: invalid " ∷ words key ∷ words ": " ∷ []) e

-- What is decoded under a key, with the key in the error.
abbrev decoded : {A : Type 0} → String → Fallible A → Fallible A
decoded key (fail e) = fail (invalid key e)
decoded key (ok a) = ok a

module _ {F : Type 0} (s : System F) where
  -- `getString`
  unfoldable pub get_string : String → String → String
  get_string key fallback = elim (present (s.lookup_env key)) [ none ↦ fallback | some v ↦ v ]

  -- `getDuration`
  unfoldable pub get_duration : String → ℤ → ℤ
  get_duration key fallback = elim (present (s.lookup_env key)) [
    | none ↦ fallback
    | some v ↦ duration_or fallback (s.parse_duration v) (atoi v)
  ]

  -- `getRoutes`
  unfoldable pub get_routes : String → Fallible Routes
  get_routes key = elim (present (s.lookup_env key)) [
    | none ↦ ok []
    | some v ↦ decoded key (s.decode_routes v)
  ]

  -- `getPricing`
  unfoldable pub get_pricing : String → Fallible (Prices F)
  get_pricing key = elim (present (s.lookup_env key)) [
    | none ↦ ok []
    | some v ↦ decoded key (s.decode_pricing v)
  ]

-- The inner loop of `validate` over a route.
unfoldable pub validate_targets : String → List RouteTarget → Option Err
validate_targets name [] = none
validate_targets name (t ∷ ts) =
    let rest = validate_targets name ts in
    if str_eq t.provider "" || str_eq t.model ""
    then some (
        errorf (
          words "config: GATEWAY_ROUTES entry "
          ∷ quoted name
          ∷ words " has a target with an empty provider or model"
          ∷ []))
    else rest

-- The body of the loop over the routes.
abbrev validate_route : String → List RouteTarget → Option Err
validate_route name [] =
    some
      (errorf (words "config: GATEWAY_ROUTES entry " ∷ quoted name ∷ words " has no targets" ∷ []))
validate_route name (t ∷ ts) = validate_targets name (t ∷ ts)

-- The first error, if there is one.
abbrev pub or_next : Option Err → Option Err → Option Err
or_next none next = next
or_next (some e) next = some e

-- The loop over the routes.
unfoldable pub validate_routes : Routes → Option Err
validate_routes [] = none
validate_routes ((name, targets) ∷ routes) =
    or_next (validate_route name targets) (validate_routes routes)

module _ {F : Type 0} (f : Float F) where
  -- The inner loop of `validate` over a provider's prices.
  unfoldable pub validate_entries : String → Dict (PriceEntry F) → Option Err
  validate_entries provider [] = none
  validate_entries provider ((model, price) ∷ models) =
      let rest = validate_entries provider models in
      if f.lt price.input_per_1m f.zero || f.lt price.output_per_1m f.zero
      then some (
          errorf (
            words "config: GATEWAY_PRICING entry "
            ∷ words provider
            ∷ words "/"
            ∷ words model
            ∷ words " has a negative rate"
            ∷ []))
      else rest

  -- The loop over the prices.
  unfoldable pub validate_prices : Prices F → Option Err
  validate_prices [] = none
  validate_prices ((provider, models) ∷ prices) =
      or_next (validate_entries provider models) (validate_prices prices)

  -- The `switch` on the log level.
  unfoldable pub validate_level : String → Option Err
  validate_level level =
      if str_eq level "debug" || str_eq level "info" || str_eq level "warn" || str_eq level "error"
      then none
      else some (errorf (words "config: invalid GATEWAY_LOG_LEVEL " ∷ quoted level ∷ []))

  -- `validate`
  unfoldable pub validate : Config F → Option Err
  validate c =
      if str_eq c.http_addr ""
      then some (errorf (plain "config: GATEWAY_HTTP_ADDR must not be empty"))
      else or_next (validate_level c.log_level)
          (or_next (validate_routes c.routes) (validate_prices c.pricing))

  module _ (s : System F) where
    -- The configuration that `Load` builds before it validates it.
    unfoldable pub config_of : Routes → Prices F → Config F
    config_of routes pricing = record {
      env = get_string s "GATEWAY_ENV" "dev";
      http_addr = get_string s "GATEWAY_HTTP_ADDR" ":8080";
      read_timeout = get_duration s "GATEWAY_READ_TIMEOUT" (seconds 15);
      write_timeout = get_duration s "GATEWAY_WRITE_TIMEOUT" (seconds 30);
      shutdown_timeout = get_duration s "GATEWAY_SHUTDOWN_TIMEOUT" (seconds 20);
      log_level = get_string s "GATEWAY_LOG_LEVEL" "info";
      anthropic_api_key = get_string s "ANTHROPIC_API_KEY" "";
      openai_api_key = get_string s "OPENAI_API_KEY" "";
      aws_region = get_string s "AWS_REGION" "";
      aws_access_key_id = get_string s "AWS_ACCESS_KEY_ID" "";
      aws_secret_access_key = get_string s "AWS_SECRET_ACCESS_KEY" "";
      aws_session_token = get_string s "AWS_SESSION_TOKEN" "";
      routes = routes;
      pricing = pricing;
    }

    -- After `cfg.validate`.
    abbrev after_validate : Config F → Option Err → Fallible (Config F)
    after_validate c none = ok c
    after_validate c (some e) = fail e

    -- After both maps are decoded.
    unfoldable pub after_decode : Fallible Routes → Fallible (Prices F) → Fallible (Config F)
    after_decode (fail e) pricing = fail e
    after_decode (ok routes) (fail e) = fail e
    after_decode (ok routes) (ok pricing) =
        let c = config_of routes pricing in after_validate c (validate c)

    -- `Load`
    unfoldable pub load : Fallible (Config F)
    load = after_decode (get_routes s "GATEWAY_ROUTES") (get_pricing s "GATEWAY_PRICING")
