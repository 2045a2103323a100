-- ===== src/Prelude/Decimal.antt =====
-- Go's strconv.Atoi, for the int of a 64-bit platform, and what a text of digits stands for.
use Prim.Native.Nat.{ℕ, suc, ◌+◌, ◌-◌, ◌*◌, ◌^◌, ◌≤◌}
use Prim.Native.Char.{code}
use Prim.Native.String.{String, [], ◌∷◌}
use mathlib.Core.Path.{◌≡◌, refl}
use mathlib.Core.Logic.{◌≢◌}
use mathlib.Core.Bool.{◌&&◌}
use mathlib.Core.Option.{Option, none, some}
use native.Mathlib.Omega.{arith}
use llm_gateway_platform.Prelude.Tests.{ltb, leb, ◌==◌, if◌then◌else◌}
use llm_gateway_platform.Prelude.Int.{ℤ, pos, neg}

-- The number that the digits spell behind those of `n`, if all characters are digits.
digits : ℕ → String → Option ℕ
digits n [] = some n
digits n (c ∷ s) =
    let rest = digits (n * 10 + (code c - b'0')) s in
    if leb b'0' (code c) && leb (code c) b'9' then rest else none

-- The digits behind the sign, of which there is at least one.
magnitude : String → Option ℕ
magnitude [] = none
magnitude (c ∷ s) = digits 0 (c ∷ s)

abbrev positive : Option ℕ → Option ℤ
positive none = none
positive (some n) = if ltb n (2 ^ 63) then some (pos n) else none

abbrev negative : Option ℕ → Option ℤ
negative none = none
negative (some n) = if leb n (2 ^ 63) then some (neg n) else none

-- strconv.Atoi, without the text of its error
unfoldable pub atoi : String → Option ℤ
unfolding digits magnitude
atoi [] = none
atoi (c ∷ s) =
    if code c == b'-'
    then negative (magnitude s)
    else if code c == b'+'
    then positive (magnitude s)
    else positive (magnitude (c ∷ s))

-- All characters are digits.
abbrev pub IsNumeral : String → Type 0
IsNumeral [] = Unit
IsNumeral (c ∷ s) = ((b'0' ≤ code c) × (code c ≤ b'9')) × IsNumeral s

abbrev size : String → ℕ
size [] = 0
size (c ∷ s) = suc (size s)

-- The number that a text of digits is the decimal notation of.
abbrev pub value : String → ℕ
value [] = 0
value (c ∷ s) = (code c - b'0') * 10 ^ size s + value s

shift : (n d p v : ℕ) → (n * 10 + d) * p + v ≡ n * (10 * p) + (d * p + v)
shift n d p v = omega arith

digits_complete : (s : String) (n : ℕ) → IsNumeral s → digits n s ≡ some (n * 10 ^ size s + value s)
unfolding digits
digits_complete [] n h = ground arith
digits_complete (c ∷ s) n ((low, high), h) =
    let m = n * 10 + (code c - b'0') in
    ground (arith, digits_complete s m h, shift n (code c - b'0') (10 ^ size s) (value s))

-- `Atoi` reads a text of digits as its value, if that is an int.
pub atoi-numeral :
    (s : String)
    → s ≢ ""
    → IsNumeral s
    → atoi s ≡ (if ltb (value s) (2 ^ 63) then some (pos (value s)) else none)
unfolding atoi magnitude
atoi-numeral [] some_there h = absurd (some_there refl)
atoi-numeral (c ∷ s) some_there ((low, high), h) =
    ground (arith, digits_complete (c ∷ s) 0 ((low, high), h))
