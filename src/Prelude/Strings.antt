-- ===== src/Prelude/Strings.antt =====
-- The functions of Go's packages `strings` and `sort` that the program calls, over the characters of a text.
use Prim.Native.Nat.{ℕ}
use Prim.Native.Char.{Char, code}
use Prim.Native.String.{String, [], ◌∷◌}
use mathlib.Core.Path.{◌≡◌, refl}
use mathlib.Core.Bool.{Bool, true, false, ◌&&◌, ◌||◌}
use llm_gateway_platform.Prelude.Tests.{leb, ◌==◌, if◌then◌else◌}

abbrev is_nil : String → Bool
is_nil [] = true
is_nil (c ∷ s) = false

module _ (p : ℕ → Bool) where
  -- Drops the first characters, as long as their code points satisfy `p`.
  unfoldable pub trim_left : String → String
  trim_left [] = []
  trim_left (c ∷ s) = let rest = trim_left s in if p (code c) then rest else c ∷ s

  -- Drops the last characters, as long as their code points satisfy `p`.
  unfoldable pub trim_right : String → String
  trim_right [] = []
  trim_right (c ∷ s) = let rest = trim_right s in if p (code c) && is_nil rest then [] else c ∷ rest

-- `unicode.IsSpace`
abbrev pub is_space : ℕ → Bool
is_space c =
    leb 9 c && leb c 13
    || c == 32
    || c == 0x85
    || c == 0xA0
    || c == 0x1680
    || leb 0x2000 c && leb c 0x200A
    || c == 0x2028
    || c == 0x2029
    || c == 0x202F
    || c == 0x205F
    || c == 0x3000

-- strings.TrimSpace
unfoldable pub trim_space : String → String
unfolding trim_left trim_right
trim_space s = trim_right is_space (trim_left is_space s)

-- strings.TrimRight(s, "/")
unfoldable pub trim_slashes : String → String
unfolding trim_right
trim_slashes s = trim_right (λ c. c == b'/') s

trims :
    (trim_space " \n upstream failed\t " ≡ "upstream failed")
    × (trim_slashes "http://localhost:8080//" ≡ "http://localhost:8080")
unfolding trim_space trim_slashes
trims = (refl, refl)

-- The character that stands in the second text where `c` stands in the first, and else `c`.
abbrev translate : String → String → Char → Char
translate (a ∷ from) (b ∷ to) c =
    let rest = translate from to c in if code a == code c then b else rest
translate [] to c = c
translate (a ∷ from) [] c = c

-- strings.ToLower, on the letters of ASCII
unfoldable pub to_lower : String → String
to_lower [] = []
to_lower (c ∷ s) =
    translate "ABCDEFGHIJKLMNOPQRSTUVWXYZ" "abcdefghijklmnopqrstuvwxyz" c ∷ to_lower s
