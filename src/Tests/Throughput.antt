-- ===== src/Tests/Throughput.antt =====
-- The span of time that a bucket serves, in decimal fixed-point numbers.
use llm_gateway_platform.Prelude.{ℕ, ◌+◌, ◌*◌, ◌/◌, ◌≤◌, ◌≡◌, refl, true, [], ◌∷◌, arith}
use llm_gateway_platform.Prelude.Int.{ℤ, pos, negsuc, pos_part}
use llm_gateway_platform.Float.Nano.{nano, nano-IsIeee, times-pos}
use llm_gateway_platform.RateLimit.Burst.{answers}
use llm_gateway_platform.RateLimit.Throughput.{RoundsWithin, passes, span, inflow, allow_throughput}
use llm_gateway_platform.Tests.RateLimit.{bucket, bucket-IsValid}

nano_inflow : (d n : ℕ) → pos_part (nano.mul (pos d) (pos n)) ≡ d * n / 1_000_000_000
nano_inflow d n = rw times-pos

swap : (d n : ℕ) → d * n / 1_000_000_000 ≤ n * d / 1_000_000_000 + 1
swap d n = grind arith

nano_mul :
    (r : ℤ) (d : ℕ)
    → nano.lt nano.zero r ≡ true
    → pos_part (nano.mul (pos d) r) ≤ pos_part r * d / 1_000_000_000 + 1
nano_mul (pos n) d h = rw (nano_inflow d n) (swap d n)
nano_mul (negsuc n) d h = ground arith

reaches : (x : ℤ) → nano.le bucket.burst x ≡ true → 3_000_000_000 ≤ pos_part x
reaches x h = ground arith

nano-RoundsWithin : RoundsWithin nano bucket.burst 1
nano-RoundsWithin = record {
  value = pos_part;
  le_value = λ x y h k. ground arith;
  add_under = λ x y h k u. (ground arith, ground arith);
  add_over = λ x y h k u. ground arith;
  mul_under = λ r d h k. nano_mul r d h;
  mul_over = λ r d h k. omega (arith, nano_mul r d h, reaches (nano.mul (pos d) r) k);
  sub_value = λ x h k. ground arith;
}

allow_throughput_example :
    passes (answers nano (pos 0 ∷ pos 0 ∷ negsuc 8 ∷ pos 400_000_000 ∷ pos 500_000_000 ∷ []) bucket)
      * 1_000_000_000
    ≤ 3_000_000_000 + inflow 2_000_000_000 (span (pos 0) (pos 500_000_000)) + 3 * 5 * 1
unfolding nano-RoundsWithin
allow_throughput_example =
    allow_throughput nano nano-IsIeee bucket.burst 1 nano-RoundsWithin
      (pos 0 ∷ pos 0 ∷ negsuc 8 ∷ pos 400_000_000 ∷ pos 500_000_000 ∷ []) (pos 500_000_000) bucket
      bucket-IsValid refl refl (refl, (refl, (refl, (refl, (refl, tt)))))
