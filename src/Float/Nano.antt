-- ===== src/Float/Nano.antt =====
-- Decimal fixed-point numbers with nine places, an arithmetic that meets the facts asked of float64:
-- the integer `n` stands for n / 10 ^ 9.
use llm_gateway_platform.Prelude.{ℕ, suc, ◌+◌, ◌*◌, ◌/◌, ◌^◌, ◌≡◌, true, false, not, arith}
use llm_gateway_platform.Prelude.Int.{
  ℤ, pos, negsuc, neg, pos_part, neg_part, sub_ℕ, add_ℤ, sub_ℤ, ltb_ℤ,
}
use llm_gateway_platform.Float.{Float, IsIeee}

abbrev pub scale_down : ℤ → ℤ
scale_down (pos n) = pos (n / 1_000_000_000)
scale_down (negsuc n) = neg (suc n / 1_000_000_000)

abbrev pub times : ℤ → ℤ → ℤ
times a b =
    sub_ℕ (pos_part a * pos_part b + neg_part a * neg_part b)
      (pos_part a * neg_part b + neg_part a * pos_part b)

abbrev quotient : ℤ → ℤ → ℤ
quotient a b =
    sub_ℕ (pos_part a / pos_part b + neg_part a / neg_part b)
      (pos_part a / neg_part b + neg_part a / pos_part b)

abbrev pub nano : Float ℤ
nano = record {
  zero = pos 0;
  one = pos 1_000_000_000;
  add = add_ℤ;
  sub = sub_ℤ;
  mul = λ a b. scale_down (times a b);
  div = λ a b. quotient (times a (pos 1_000_000_000)) b;
  lt = ltb_ℤ;
  le = λ a b. not (ltb_ℤ b a);
  of_int = times (pos 1_000_000_000);
  decimal = λ m k. pos (m * 1_000_000_000 / 10 ^ k);
  to_int = scale_down;
  seconds = λ d. d;
}

pub times-pos : (a b : ℕ) → times (pos a) (pos b) ≡ pos (a * b)
times-pos a b = ground arith

mul-pos :
    (x y : ℤ)
    → nano.lt nano.zero x ≡ true
    → nano.lt nano.zero y ≡ true
    → nano.le nano.zero (nano.mul x y) ≡ true
mul-pos (pos a) (pos b) h k = rw times-pos (ground arith)
mul-pos (pos a) (negsuc b) h k = ground arith
mul-pos (negsuc a) y h k = ground arith

scaled_mono : (m n : ℤ) → ltb_ℤ n m ≡ false → nano.le (nano.of_int m) (nano.of_int n) ≡ true
scaled_mono (pos a) (pos b) h = ground arith
scaled_mono (pos a) (negsuc b) h = ground arith
scaled_mono (negsuc a) (pos b) h = ground arith
scaled_mono (negsuc a) (negsuc b) h = ground arith

pub nano-IsIeee : IsIeee nano
nano-IsIeee = record {
  zero_one = ground arith;
  le_trans = λ x y z h k. ground arith;
  number_of_le = λ x y h. ground arith;
  le_of_lt = λ x y h. ground arith;
  lt_of_not_le = λ x y m n h. ground arith;
  le_of_not_lt = λ x y m n h. ground arith;
  not_lt_of_le = λ x y h. ground arith;
  add_nonneg = λ x y h k. ground arith;
  mul_nonneg = λ x y h k. mul-pos x y h k;
  sub_one_nonneg = λ x h. ground arith;
  sub_one_le = λ x h. ground arith;
  of_int_zero = ground arith;
  of_int_one = ground arith;
  of_int_mono = λ m n h. scaled_mono m n h;
  of_int_pred = λ n h. ground arith;
  decimal_nonneg = λ m k. ground arith;
  not_one_le_zero = ground arith;
  seconds_number = λ d. ground arith;
  seconds_sign = λ d. ground arith;
}
