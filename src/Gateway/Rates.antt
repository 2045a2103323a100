-- ===== src/Gateway/Rates.antt =====
-- The price table of a configuration: internal/config/config.go has checked the rates that
-- internal/gateway/build.go validates again.
use mathlib.Core.Path.{subst}
use llm_gateway_platform.Prelude.{◌≡◌, [], ◌∷◌, sym, ap}
use llm_gateway_platform.Prelude.Dict.{Dict}
use llm_gateway_platform.Float.{Float, IsIeee}
use llm_gateway_platform.Http.{ok}
use llm_gateway_platform.Pricing.{ModelPrice, Table, default_table, merge}
use llm_gateway_platform.Pricing.Validity.{
  AllModels, IsNonnegative, validate_iff, insert-AllModels, insert-IsNonnegative,
  validate-merge-default,
}
use llm_gateway_platform.Config.{PriceEntry, Prices, Config, System, config_of, load}
use llm_gateway_platform.Config.Validity.{AreRates, IsPrices, load_iff}
use llm_gateway_platform.Gateway.{
  Backends, prices_of, to_pricing_table, price_table, after_validate,
}

module _ {F : Type 0} (f : Float F) where
  prices_of-AllModels :
      (models : Dict (PriceEntry F)) (made : Dict (ModelPrice F))
      → AreRates f models
      → AllModels f made
      → AllModels f (prices_of models made)
  unfolding prices_of
  prices_of-AllModels [] made h k = k
  prices_of-AllModels ((model, p) ∷ models) made (h, hs) k =
      prices_of-AllModels models _ hs (insert-AllModels f model _ made h k)

  to_pricing_table-IsNonnegative :
      (prices : Prices F) (table : Table F)
      → IsPrices f prices
      → IsNonnegative f table
      → IsNonnegative f (to_pricing_table prices table)
  unfolding to_pricing_table
  to_pricing_table-IsNonnegative [] table h k = k
  to_pricing_table-IsNonnegative ((name, models) ∷ prices) table (h, hs) k =
      to_pricing_table-IsNonnegative prices _ hs
        (insert-IsNonnegative f name _ table (prices_of-AllModels models [] h tt) k)

  module _ {K T W : Type 0} (b : Backends F K T W) (ieee : IsIeee f) where
    price_table_of :
        (prices : Prices F)
        → IsPrices f prices
        → price_table f b prices ≡ ok (merge (default_table f) (to_pricing_table prices []))
    unfolding price_table
    price_table_of prices h =
        let fine = validate-merge-default f ieee (to_pricing_table prices []) (
          (validate_iff f (to_pricing_table prices [])).1
            (to_pricing_table-IsNonnegative prices [] h tt)) in
        ap (after_validate f b (merge (default_table f) (to_pricing_table prices []))) fine

    -- The prices of a configuration that `Load` returned pass the validation of `Build`: the table is the
    -- built-in one with the configured prices over it, never an error.
    pub price_table_of_load :
        (s : System F) (cfg : Config F)
        → load f s ≡ ok cfg
        → price_table f b cfg.pricing
          ≡ ok (merge (default_table f) (to_pricing_table cfg.pricing []))
    unfolding config_of
    price_table_of_load s cfg h =
        let (routes, prices, r, p, same, level, fine, rates) = (load_iff f s cfg).0 h in
        price_table_of cfg.pricing (subst (λ (c : Config F). IsPrices f c.pricing) (sym same) rates)
