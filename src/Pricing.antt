-- ===== src/Pricing.antt =====
-- internal/pricing/pricing.go: the attribution of a cost in USD to a finished request.
pub mod Merge
pub mod Validity
pub mod Charge
use llm_gateway_platform.Prelude.{
  ℕ, String, Bool, true, false, ◌||◌, Option, none, some, List, [], ◌∷◌, if◌then◌else◌,
}
use llm_gateway_platform.Prelude.Int.{ℤ, pos}
use llm_gateway_platform.Prelude.Dict.{Dict, lookup, insert, insert_all}
use llm_gateway_platform.Prelude.Text.{words}
use llm_gateway_platform.Float.{Float}
use llm_gateway_platform.Provider.{Name, Usage, anthropic, openai, bedrock}
use llm_gateway_platform.Provider.Errors.{Err, errorf}

pub record ModelPrice (F : Type 0) : Type 0 where
  pub input_per_1m : F
  pub output_per_1m : F

abbrev pub Table : Type 0 → Type 0
Table F = Dict (Dict (ModelPrice F))

pub record Cost (F : Type 0) : Type 0 where
  pub input_usd : F
  pub output_usd : F
  pub total_usd : F
  pub known : Bool

module _ {F : Type 0} where
  -- byModel, ok := table[name]; price, ok := byModel[model]
  unfoldable pub price_of : Table F → Name → String → Option (ModelPrice F)
  price_of table name model = elim (lookup name table) [
    | none ↦ none
    | some by_model ↦ lookup model by_model
  ]

  -- `merged[name]`, where a missing entry reads as nil and is made
  abbrev models_of : Name → Table F → Dict (ModelPrice F)
  models_of name table = elim (lookup name table) [ none ↦ [] | some models ↦ models ]

  -- The first loop of `Merge`, which copies the receiver.
  unfoldable pub copy : Table F → Table F → Table F
  copy [] merged = merged
  copy ((name, models) ∷ t) merged = copy t (insert name (insert_all models []) merged)

  -- The second loop of `Merge`.
  unfoldable pub overlay : Table F → Table F → Table F
  overlay [] merged = merged
  overlay ((name, models) ∷ o) merged =
      overlay o (insert name (insert_all models (models_of name merged)) merged)

  -- `Merge`
  unfoldable pub merge : Table F → Table F → Table F
  merge t override = overlay override (copy t [])

module _ {F : Type 0} (f : Float F) where
  open f use {zero, add, mul, div, lt, of_int, decimal}

  abbrev price : F → F → ModelPrice F
  price input output = record { input_per_1m = input; output_per_1m = output }

  abbrev whole : ℕ → F
  whole n = of_int (pos n)

  -- `DefaultTable`
  unfoldable pub default_table : Table F
  default_table =
      (
        anthropic,
        ("claude-opus-4-8", price (whole 15) (whole 75))
            ∷ ("claude-sonnet-5", price (whole 3) (whole 15))
            ∷ ("claude-haiku-4-5", price (decimal 8 1) (whole 4))
            ∷ [],
      )
      ∷ (
        openai,
        ("gpt-4o", price (decimal 25 1) (whole 10))
            ∷ ("gpt-4o-mini", price (decimal 15 2) (decimal 6 1))
            ∷ [],
      )
      ∷ (
        bedrock,
        ("anthropic.claude-opus-4-8", price (whole 15) (whole 75))
            ∷ ("anthropic.claude-sonnet-5", price (whole 3) (whole 15))
            ∷ [],
      )
      ∷ []

  -- Cost{}
  abbrev pub no_cost : Cost F
  no_cost = record { input_usd = zero; output_usd = zero; total_usd = zero; known = false }

  -- float64(tokens) / 1_000_000 * rate
  abbrev pub charge : ℤ → F → F
  charge tokens rate = mul (div (of_int tokens) (whole 1_000_000)) rate

  -- The cost at a price, if there is one.
  unfoldable pub cost_at : Option (ModelPrice F) → Usage → Cost F
  cost_at none usage = no_cost
  cost_at (some p) usage =
      let input = charge usage.input_tokens p.input_per_1m in
      let output = charge usage.output_tokens p.output_per_1m in
      record { input_usd = input; output_usd = output; total_usd = add input output; known = true }

  -- `Cost`; the receiver is a pointer that may be nil.
  unfoldable pub cost : Option (Table F) → Name → String → Usage → Cost F
  unfolding cost_at
  cost none name model usage = no_cost
  cost (some table) name model usage = cost_at (price_of table name model) usage

  -- `price.InputPer1M < 0 || price.OutputPer1M < 0`
  abbrev pub is_negative : ModelPrice F → Bool
  is_negative p = lt p.input_per_1m zero || lt p.output_per_1m zero

  abbrev negative_rate : Name → String → Err
  negative_rate name model =
      errorf (
        words "pricing: "
        ∷ words name
        ∷ words "/"
        ∷ words model
        ∷ words " has a negative rate"
        ∷ [])

  -- The inner loop of `Validate`.
  unfoldable pub validate_models : Name → Dict (ModelPrice F) → Option Err
  validate_models name [] = none
  validate_models name ((model, p) ∷ models) =
      if is_negative p then some (negative_rate name model) else validate_models name models

  -- `Validate`
  unfoldable pub validate : Table F → Option Err
  validate [] = none
  validate ((name, models) ∷ t) =
      let rest = validate t in elim (validate_models name models) [ some e ↦ some e | none ↦ rest ]
