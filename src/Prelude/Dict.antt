-- ===== src/Prelude/Dict.antt =====
-- Go's maps with string keys, as association lists. An entry's place is the place at which a `range`
-- loop visits it; Go chooses that order, so what is proved for every list holds for every order.
use Prim.Native.String.{String}
use mathlib.Core.Path.{◌≡◌, refl, ◌∙◌}
use mathlib.Core.Bool.{false}
use mathlib.Core.Logic.{inl, inr}
use mathlib.Core.Option.{Option, none, some}
use mathlib.Core.List.{List, [], ◌∷◌}
use native.Mathlib.Omega.{arith}
use text.Mathlib.Text.{◌==◌ as str_eq}
use text.Mathlib.TextEquality.{eq_iff}
use llm_gateway_platform.Prelude.Tests.{if◌then◌else◌, Bool-cases}

abbrev pub Dict {ℓ} : Type ℓ → Type ℓ
Dict V = List (String × V)

pub differ_sym : (j k : String) → str_eq j k ≡ false → str_eq k j ≡ false
differ_sym j k h = ground (arith, eq_iff j k, eq_iff k j)

module _ {ℓ} {V : Type ℓ} where
  -- v, ok := d[k]
  unfoldable pub lookup : String → Dict V → Option V
  lookup k [] = none
  lookup k ((j, v) ∷ d) = if str_eq j k then some v else lookup k d

  -- d[k] = v
  unfoldable pub insert : String → V → Dict V → Dict V
  insert k v [] = (k, v) ∷ []
  insert k v ((j, w) ∷ d) = if str_eq j k then (k, v) ∷ d else (j, w) ∷ insert k v d

  pub lookup-nil : (k : String) → lookup k [] ≡ none
  unfolding lookup
  lookup-nil k = refl

  pub lookup-insert :
      (k j : String) (v : V) (d : Dict V)
      → lookup j (insert k v d) ≡ (if str_eq k j then some v else lookup j d)
  unfolding lookup insert
  lookup-insert k j v [] = refl
  lookup-insert k j v ((i, w) ∷ d) =
      ground (arith, eq_iff k j, eq_iff i k, eq_iff i j, lookup-insert k j v d)

  -- for k, v := range m { d[k] = v }
  unfoldable pub insert_all : Dict V → Dict V → Dict V
  insert_all [] d = d
  insert_all ((k, v) ∷ m) d = insert_all m (insert k v d)

  -- A list that stands for a map has each key once.
  abbrev pub IsMap : Dict V → Type ℓ
  IsMap [] = Unit
  IsMap ((k, v) ∷ d) = (lookup k d ≡ none) × IsMap d

  abbrev pub or_else : Option V → Option V → Option V
  or_else none o = o
  or_else (some v) o = some v

  pub lookup-cons :
      (k j : String) (v : V) (d : Dict V)
      → lookup j ((k, v) ∷ d) ≡ (if str_eq k j then some v else lookup j d)
  unfolding lookup
  lookup-cons k j v d = refl

  pub insert-IsMap : (k : String) (v : V) (d : Dict V) → IsMap d → IsMap (insert k v d)
  unfolding insert
  insert-IsMap k v [] h = (lookup-nil k, tt)
  insert-IsMap k v ((j, w) ∷ d) (fresh, h) = elim (Bool-cases (str_eq j k)) [
    | inl same ↦ rw same (rw (← (eq_iff j k).0 same) fresh, h)
    | inr differ ↦
        rw differ (lookup-insert k j v d ∙ rw (differ_sym j k differ) fresh, insert-IsMap k v d h)
  ]

  -- Copying a map over another one: the copied entries win.
  pub lookup-insert_all :
      (j : String) (m d : Dict V)
      → IsMap m
      → lookup j (insert_all m d) ≡ or_else (lookup j m) (lookup j d)
  unfolding insert_all
  lookup-insert_all j [] d h = rw lookup-nil
  lookup-insert_all j ((k, v) ∷ m) d (fresh, h) = ground (
    arith,
    lookup-insert_all j m (insert k v d) h,
    lookup-insert k j v d,
    lookup-cons k j v m,
    eq_iff k j,
    fresh,
  )
