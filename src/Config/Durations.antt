-- ===== src/Config/Durations.antt =====
-- `getDuration` of internal/config/config.go on a bare number of seconds.
use llm_gateway_platform.Prelude.{
  ℕ, ◌*◌, ◌^◌, ◌⊎◌, inl, inr, Bool-cases, String, ◌≡◌, ◌≢◌, refl, none, some, if◌then◌else◌, str_eq,
  ltb, arith, eq_iff,
}
use llm_gateway_platform.Prelude.Int.{ℤ, pos, int64, int64-pos}
use llm_gateway_platform.Prelude.Decimal.{atoi, IsNumeral, value, atoi-numeral}
use llm_gateway_platform.Config.{System, get_duration, duration_or, whole_seconds}

-- What Go documents of time.ParseDuration: a number needs a unit, but for "0".
pub record NeedsUnit {F : Type 0} (s : System F) : Type 0 where
  pub zero : s.parse_duration "0" ≡ some (pos 0)
  pub refused : (v : String) → IsNumeral v → v ≢ "0" → s.parse_duration v ≡ none

-- `n` seconds, with what becomes of a number that is too large.
abbrev pub seconds_or : ℤ → ℕ → ℤ
seconds_or fallback n =
    if ltb n 9_223_372_037
    then pos (n * 1_000_000_000)
    else if ltb n (2 ^ 63)
    then int64 (pos (n * 1_000_000_000))
    else fallback

module _ {F : Type 0} (s : System F) (needs_unit : NeedsUnit s) where
  refused_or_zero : (v : String) → IsNumeral v → (v ≡ "0") ⊎ (s.parse_duration v ≡ none)
  refused_or_zero v numeral = elim (Bool-cases (str_eq v "0")) [
    | inl same ↦ inl ((eq_iff v "0").0 same)
    | inr other ↦ inr (needs_unit.refused v numeral (λ same. let bad = (eq_iff v "0").1 same in cc))
  ]

  -- `v`, which is not empty, as a duration
  get_duration-set :
      (key v : String) (fallback : ℤ)
      → s.lookup_env key ≡ some v
      → v ≢ ""
      → get_duration s key fallback ≡ duration_or fallback (s.parse_duration v) (atoi v)
  unfolding get_duration
  get_duration-set key v fallback set some_there = elim (Bool-cases (str_eq v "")) [
    | inl same ↦ absurd (some_there ((eq_iff v "").0 same))
    | inr other ↦ rw (set, get_duration, other) refl
  ]

  seconds_of :
      (n : ℕ) (fallback : ℤ)
      → duration_or fallback none (if ltb n (2 ^ 63) then some (pos n) else none)
        ≡ seconds_or fallback n
  unfolding whole_seconds
  seconds_of n fallback = ground (arith, int64-pos (n * 1_000_000_000))

  -- A duration whose variable is set to a text of digits is as many seconds as the text says: exactly,
  -- up to the 9223372036 seconds that a time.Duration holds; wrapped to 64 bits, where only the number
  -- of seconds is an int; and the fallback where that is not one either.
  pub get_duration-numeral :
      (key v : String) (fallback : ℤ)
      → s.lookup_env key ≡ some v
      → v ≢ ""
      → IsNumeral v
      → get_duration s key fallback ≡ seconds_or fallback (value v)
  get_duration-numeral key v fallback set some_there numeral =
      rw (get_duration-set key v fallback set some_there) (elim (refused_or_zero v numeral) [
        | inl same ↦ rw (same, needs_unit.zero) refl
        | inr refused ↦
            rw (refused, atoi-numeral v some_there numeral) (seconds_of (value v) fallback)
      ])
