-- ===== src/Pricing/Merge.antt =====
-- What `Merge` of internal/pricing/pricing.go makes of two tables.
use llm_gateway_platform.Prelude.{
  String, ◌≡◌, ◌∙◌, ap, Option, none, some, [], ◌∷◌, arith, str_eq, eq_iff, if◌then◌else◌,
}
use llm_gateway_platform.Prelude.Dict.{
  Dict, lookup, insert, insert_all, IsMap, or_else, lookup-nil, lookup-cons, lookup-insert,
  lookup-insert_all,
}
use llm_gateway_platform.Provider.{Name}
use llm_gateway_platform.Pricing.{ModelPrice, Table, price_of, models_of, copy, overlay, merge}

module _ {F : Type 0} where
  -- A table is a map of maps.
  abbrev pub IsTable : Table F → Type 0
  IsTable [] = Unit
  IsTable ((name, models) ∷ t) = (lookup name t ≡ none) × IsMap models × IsTable t

  price_of-nil : (name : Name) (model : String) → price_of {F = F} [] name model ≡ none
  unfolding price_of
  price_of-nil name model = ground (arith, lookup-nil {V = Dict (ModelPrice F)} name)

  -- The price of a model in the first entry or in the rest of a table.
  price_of-cons :
      (n name : Name) (model : String) (models : Dict (ModelPrice F)) (t : Table F)
      → price_of ((n, models) ∷ t) name model
        ≡ (if str_eq n name then lookup model models else price_of t name model)
  unfolding price_of
  price_of-cons n name model models t = ground (arith, lookup-cons n name models t)

  price_of-insert :
      (n name : Name) (model : String) (models : Dict (ModelPrice F)) (t : Table F)
      → price_of (insert n models t) name model
        ≡ (if str_eq n name then lookup model models else price_of t name model)
  unfolding price_of
  price_of-insert n name model models t = ground (arith, lookup-insert n name models t)

  lookup-models_of :
      (name : Name) (model : String) (t : Table F)
      → lookup model (models_of name t) ≡ price_of t name model
  unfolding price_of
  lookup-models_of name model t = ground (arith, lookup-nil {V = ModelPrice F} model)

  -- The price of an absent provider.
  price_of_absent :
      (name : Name) (model : String) (t : Table F)
      → lookup name t ≡ none
      → price_of t name model ≡ none
  unfolding price_of
  price_of_absent name model t h = ground arith

  price_of-overlay :
      (name : Name) (model : String) (o merged : Table F)
      → IsTable o
      → price_of (overlay o merged) name model
        ≡ or_else (price_of o name model) (price_of merged name model)
  unfolding overlay
  price_of-overlay name model [] merged h = rw (price_of-nil name model)
  price_of-overlay name model ((n, models) ∷ o) merged (fresh, map, table) = ground (
    arith,
    price_of-overlay name model o (insert n (insert_all models (models_of n merged)) merged) table,
    price_of-insert n name model (insert_all models (models_of n merged)) merged,
    lookup-insert_all model models (models_of n merged) map,
    lookup-models_of n model merged,
    price_of-cons n name model models o,
    price_of_absent n model o fresh,
    eq_iff n name,
  )

  -- The price in a table, and in another one for the providers that the first one lacks.
  abbrev price_or :
      Option (Dict (ModelPrice F)) → String → Option (ModelPrice F) → Option (ModelPrice F)
  price_or none model otherwise = otherwise
  price_or (some models) model otherwise = lookup model models

  price_of-copy :
      (name : Name) (model : String) (t merged : Table F)
      → IsTable t
      → price_of (copy t merged) name model
        ≡ price_or (lookup name t) model (price_of merged name model)
  unfolding copy
  price_of-copy name model [] merged h = rw (lookup-nil {V = Dict (ModelPrice F)} name)
  price_of-copy name model ((n, models) ∷ t) merged (fresh, map, table) = ground (
    arith,
    price_of-copy name model t (insert n (insert_all models []) merged) table,
    price_of-insert n name model (insert_all models []) merged,
    lookup-insert_all model models [] map,
    lookup-nil {V = ModelPrice F} model,
    lookup-cons n name models t,
    eq_iff n name,
  )

  price_of-copy_all :
      (name : Name) (model : String) (t : Table F)
      → IsTable t
      → price_of (copy t []) name model ≡ price_of t name model
  unfolding price_of
  price_of-copy_all name model t table =
      ground (arith, price_of-copy name model t [] table, price_of-nil name model)

  -- In a merged table a model has the price that the override gives it, and else that of the base.
  pub price_of-merge :
      (t override : Table F) (name : Name) (model : String)
      → IsTable t
      → IsTable override
      → price_of (merge t override) name model
        ≡ or_else (price_of override name model) (price_of t name model)
  unfolding merge
  price_of-merge t override name model base over =
      price_of-overlay name model override (copy t []) over
      ∙ ap (or_else (price_of override name model)) (price_of-copy_all name model t base)
