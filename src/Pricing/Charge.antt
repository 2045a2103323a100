-- ===== src/Pricing/Charge.antt =====
-- The cost that internal/pricing/pricing.go attributes to a request.
use llm_gateway_platform.Prelude.{String, ◌≡◌, refl, ◌↔◌, true, false, some, inl, inr, Option-cases}
use llm_gateway_platform.Float.{Float}
use llm_gateway_platform.Provider.{Name, Usage}
use llm_gateway_platform.Pricing.{ModelPrice, Table, price_of, no_cost, cost}

module _ {F : Type 0} (f : Float F) where
  -- A cost is known exactly when the table has a price for the provider and the model; an unknown cost
  -- is 0 in every amount.
  pub cost_known_iff :
      (table : Table F) (name : Name) (model : String) (usage : Usage)
      → let c = cost f (some table) name model usage in
        ((c.known ≡ true) ↔ ((p : ModelPrice F) × (price_of table name model ≡ some p)))
        × (c.known ≡ false → c ≡ no_cost f)
  unfolding cost
  cost_known_iff table name model usage = elim (Option-cases (price_of table name model)) [
    | inl missing ↦ rw missing ((λ h. cc, λ (p, found). cc), λ h. refl)
    | inr (p, found) ↦ rw found ((λ h. (p, refl), λ h. refl), λ h. cc)
  ]
