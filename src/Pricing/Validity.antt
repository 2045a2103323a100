-- ===== src/Pricing/Validity.antt =====
-- Which tables `Validate` of internal/pricing/pricing.go accepts.
use llm_gateway_platform.Prelude.{ℕ, String, ◌≡◌, refl, ◌↔◌, false, none, [], ◌∷◌, arith, All}
use llm_gateway_platform.Prelude.Dict.{Dict, insert, insert_all, lookup}
use llm_gateway_platform.Prelude.Int.{pos}
use llm_gateway_platform.Float.{Float, IsIeee}
use llm_gateway_platform.Provider.{Name}
use llm_gateway_platform.Pricing.{
  ModelPrice, Table, validate_models, validate, models_of, copy, overlay, merge, default_table,
}

module _ {F : Type 0} (f : Float F) where
  -- No rate of the table is below 0, neither for input nor for output.
  abbrev HasNoDebt : ModelPrice F → Type 0
  HasNoDebt p = (f.lt p.input_per_1m f.zero ≡ false) × (f.lt p.output_per_1m f.zero ≡ false)

  abbrev pub AllModels : Dict (ModelPrice F) → Type 0
  AllModels models = All (λ (entry : String × ModelPrice F). HasNoDebt entry.1) models

  abbrev pub IsNonnegative : Table F → Type 0
  IsNonnegative t = All (λ (entry : Name × Dict (ModelPrice F)). AllModels entry.1) t

  validate_models_iff :
      (name : Name) (models : Dict (ModelPrice F))
      → (validate_models f name models ≡ none) ↔ AllModels models
  unfolding validate_models
  validate_models_iff name [] = (λ h. tt, λ h. refl)
  validate_models_iff name ((model, p) ∷ models) =
      let ih = validate_models_iff name models in ground (arith, ih)

  -- `Validate` returns nil exactly when no entry of the table has a negative rate, in whatever order
  -- the loops visit the entries.
  pub validate_iff : (t : Table F) → (validate f t ≡ none) ↔ IsNonnegative t
  unfolding validate
  validate_iff [] = (λ h. tt, λ h. refl)
  validate_iff ((name, models) ∷ t) =
      ground (arith, validate_iff t, validate_models_iff name models)

  pub insert-AllModels :
      (model : String) (p : ModelPrice F) (models : Dict (ModelPrice F))
      → HasNoDebt p
      → AllModels models
      → AllModels (insert model p models)
  unfolding insert
  insert-AllModels model p [] h hs = (h, tt)
  insert-AllModels model p ((m, q) ∷ models) h (k, ks) =
      ground (arith, insert-AllModels model p models h ks)

  insert_all-AllModels :
      (new models : Dict (ModelPrice F))
      → AllModels new
      → AllModels models
      → AllModels (insert_all new models)
  unfolding insert_all
  insert_all-AllModels [] models h hs = hs
  insert_all-AllModels ((m, p) ∷ new) models (h, hs) ks =
      insert_all-AllModels new (insert m p models) hs (insert-AllModels m p models h ks)

  pub insert-IsNonnegative :
      (name : Name) (models : Dict (ModelPrice F)) (t : Table F)
      → AllModels models
      → IsNonnegative t
      → IsNonnegative (insert name models t)
  unfolding insert
  insert-IsNonnegative name models [] h hs = (h, tt)
  insert-IsNonnegative name models ((n, ms) ∷ t) h (k, ks) =
      ground (arith, insert-IsNonnegative name models t h ks)

  models_of-AllModels : (name : Name) (t : Table F) → IsNonnegative t → AllModels (models_of name t)
  unfolding lookup
  models_of-AllModels name [] h = tt
  models_of-AllModels name ((n, ms) ∷ t) (h, hs) = ground (arith, models_of-AllModels name t hs)

  copy-IsNonnegative :
      (t merged : Table F) → IsNonnegative t → IsNonnegative merged → IsNonnegative (copy t merged)
  unfolding copy
  copy-IsNonnegative [] merged h hs = hs
  copy-IsNonnegative ((n, ms) ∷ t) merged (h, hs) ks =
      copy-IsNonnegative t (insert n (insert_all ms []) merged) hs
        (insert-IsNonnegative n (insert_all ms []) merged (insert_all-AllModels ms [] h tt) ks)

  overlay-IsNonnegative :
      (o merged : Table F)
      → IsNonnegative o
      → IsNonnegative merged
      → IsNonnegative (overlay o merged)
  unfolding overlay
  overlay-IsNonnegative [] merged h hs = hs
  overlay-IsNonnegative ((n, ms) ∷ o) merged (h, hs) ks =
      let old = models_of n merged in
      overlay-IsNonnegative o (insert n (insert_all ms old) merged) hs (
        insert-IsNonnegative n (insert_all ms old) merged
          (insert_all-AllModels ms old h (models_of-AllModels n merged ks)) ks)

  pub merge-IsNonnegative :
      (t override : Table F)
      → IsNonnegative t
      → IsNonnegative override
      → IsNonnegative (merge t override)
  unfolding merge
  merge-IsNonnegative t override h k =
      overlay-IsNonnegative override (copy t []) k (copy-IsNonnegative t [] h tt)

  module _ (ieee : IsIeee f) where
    whole_nonneg : (n : ℕ) → f.lt (f.of_int (pos n)) f.zero ≡ false
    whole_nonneg n =
        ieee.not_lt_of_le f.zero (f.of_int (pos n))
          (rw (← ieee.of_int_zero) (ieee.of_int_mono (pos 0) (pos n) (ground arith)))

    pub default_table-IsNonnegative : IsNonnegative (default_table f)
    unfolding default_table
    default_table-IsNonnegative =
        let w = whole_nonneg in
        let d = ieee.decimal_nonneg in
        (
          ((w 15, w 75), ((w 3, w 15), ((d 8 1, w 4), tt))),
          (((d 25 1, w 10), ((d 15 2, d 6 1), tt)), (((w 15, w 75), ((w 3, w 15), tt)), tt)),
        )

    -- A table that `Validate` accepts is still accepted when it is laid over the built-in one.
    pub validate-merge-default :
        (override : Table F)
        → validate f override ≡ none
        → validate f (merge (default_table f) override) ≡ none
    validate-merge-default override h = (validate_iff (merge (default_table f) override)).1 (
        merge-IsNonnegative (default_table f) override default_table-IsNonnegative
          ((validate_iff override).0 h))
