-- ===== src/Tests/Durations.antt =====
-- A system whose timeouts are bare numbers of seconds.
use llm_gateway_platform.Prelude.{
  ◌≡◌, refl, Bool-cases, inl, inr, str_eq, eq_iff, arith, none, some, ◌*◌,
}
use llm_gateway_platform.Prelude.Int.{pos, negsuc, int64}
use llm_gateway_platform.Prelude.Decimal.{atoi}
use llm_gateway_platform.Config.{get_duration}
use llm_gateway_platform.Config.Durations.{NeedsUnit, get_duration-numeral}
use llm_gateway_platform.Tests.Gateway.{system}

system-NeedsUnit : NeedsUnit system
system-NeedsUnit = record {
  zero = refl;
  refused = λ v numeral other. elim (Bool-cases (str_eq v "0")) [
    | inl same ↦ absurd (other ((eq_iff v "0").0 same))
    | inr different ↦ rw different refl
  ];
}

get_duration-numeral_example :
    get_duration system "GATEWAY_READ_TIMEOUT" (pos 15) ≡ pos 30_000_000_000
get_duration-numeral_example =
    get_duration-numeral system system-NeedsUnit "GATEWAY_READ_TIMEOUT" "30" (pos 15) refl (cc)
      (omega arith)

reads :
    (atoi "-12" ≡ some (negsuc 11))
    × (atoi "+007" ≡ some (pos 7))
    × (atoi "-" ≡ none)
    × (atoi "1_000" ≡ none)
    × (atoi "9223372036854775808" ≡ none)
    × (atoi "-9223372036854775808" ≡ some (negsuc 9223372036854775807))
unfolding atoi
reads = (refl, refl, refl, refl, refl, refl)

-- One second more than a time.Duration holds
wraps : int64 (pos (9_223_372_037 * 1_000_000_000)) ≡ negsuc 9_223_372_036_709_551_615
unfolding int64
wraps = refl
