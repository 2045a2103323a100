-- ===== src/Tests/Pricing.antt =====
-- Costs and price tables at fixed inputs.
use llm_gateway_platform.Prelude.{◌≡◌, refl, true, none, some, [], ◌∷◌}
use llm_gateway_platform.Prelude.Int.{ℤ, pos}
use llm_gateway_platform.Prelude.Dict.{lookup, or_else}
use llm_gateway_platform.Float.Nano.{nano}
use llm_gateway_platform.Provider.{Usage}
use llm_gateway_platform.Pricing.{
  Table, price_of, merge, default_table, cost, validate_models, validate,
}
use llm_gateway_platform.Pricing.Merge.{IsTable, price_of-merge}

-- Twelve tokens in and thirty-four out, as in the README.
abbrev usage : Usage
usage = record { input_tokens = pos 12; output_tokens = pos 34 }

readme_cost : cost nano (some (default_table nano)) "anthropic" "claude-opus-4-8" usage ≡ record {
  input_usd = pos 180_000;
  output_usd = pos 2_550_000;
  total_usd = pos 2_730_000;
  known = true;
}
unfolding cost price_of lookup default_table
readme_cost = refl

abbrev override : Table ℤ
override =
    (
      "openai",
      ("gpt-4o", record { input_per_1m = pos 1_000_000_000; output_per_1m = pos 2_000_000_000 })
          ∷ [],
    )
    ∷ []

default_table-IsTable : IsTable (default_table nano)
unfolding default_table lookup
default_table-IsTable =
    (refl, (refl, (refl, (refl, tt))), (refl, (refl, (refl, tt)), (refl, (refl, (refl, tt)), tt)))

override-IsTable : IsTable override
unfolding lookup
override-IsTable = (refl, (refl, tt), tt)

price_of-merge_example :
    price_of (merge (default_table nano) override) "openai" "gpt-4o"
    ≡ or_else
        (price_of override "openai" "gpt-4o")
        (price_of (default_table nano) "openai" "gpt-4o")
price_of-merge_example =
    price_of-merge (default_table nano) override "openai" "gpt-4o" default_table-IsTable
      override-IsTable

override_valid : validate nano override ≡ none
unfolding validate validate_models
override_valid = refl
