-- ===== src/Prelude/Joined.antt =====
-- The functions of Go's packages `strings` and `sort` on lists of strings.
pub mod RoundTrip
use Prim.Native.Nat.{ℕ}
use Prim.Native.Char.{Char, code}
use Prim.Native.String.{String, [] as empty, ◌∷◌ as ◌◂◌, ◌++◌ as ◌<>◌, compare}
use mathlib.Core.Path.{◌≡◌, refl}
use mathlib.Core.List.{List, [], ◌∷◌}
use text.Mathlib.Text.{is_le}
use llm_gateway_platform.Prelude.Tests.{◌==◌, if◌then◌else◌}

-- strings.Join
unfoldable pub join : List String → String → String
join [] sep = ""
join (x ∷ []) sep = x
join (x ∷ y ∷ ys) sep = x <> sep <> join (y ∷ ys) sep

-- Puts a character before the first part.
abbrev on_first : Char → List String → List String
on_first c [] = (c ◂ "") ∷ []
on_first c (x ∷ xs) = (c ◂ x) ∷ xs

-- strings.Split, for a separator of one character
unfoldable pub split : String → ℕ → List String
split empty sep = "" ∷ []
split (c ◂ s) sep = let rest = split s sep in if code c == sep then "" ∷ rest else on_first c rest

-- sort.Strings: a text is put before the first one that is not less.
unfoldable pub insert_sorted : String → List String → List String
insert_sorted x [] = x ∷ []
insert_sorted x (y ∷ ys) =
    let rest = insert_sorted x ys in if is_le (compare x y) then x ∷ y ∷ ys else y ∷ rest

unfoldable pub sort : List String → List String
unfolding insert_sorted
sort [] = []
sort (x ∷ xs) = insert_sorted x (sort xs)

splits_and_sorts : join (sort (split "b=2&a=1&a" b'&')) "&" ≡ "a&a=1&b=2"
unfolding join sort insert_sorted split
splits_and_sorts = refl
