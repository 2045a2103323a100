-- ===== src/Float.antt =====
-- Go's float64, as far as the program uses it: the arithmetic, the comparisons and the conversions
-- are parameters, since antt has no floating-point numbers.
pub mod Nano
use llm_gateway_platform.Prelude.{ℕ, suc, ◌≤◌, ◌^◌, ◌≡◌, Bool, true, false, not}
use llm_gateway_platform.Prelude.Int.{ℤ, pos, ltb_ℤ}

pub record Float (F : Type 0) : Type 0 where
  pub zero : F
  pub one : F
  pub add : F → F → F
  pub sub : F → F → F
  pub mul : F → F → F
  pub div : F → F → F
  pub lt : F → F → Bool
  pub le : F → F → Bool
  pub of_int : ℤ → F  -- float64(n)
  pub decimal : ℕ → ℕ → F  -- the constant m / 10 ^ k
  pub to_int : F → ℤ  -- int64(x)
  pub seconds : ℤ → F  -- d.Seconds() of a time.Duration in nanoseconds

module _ {F : Type 0} (f : Float F) where
  open f use {zero, one, add, sub, mul, lt, le, of_int, decimal, seconds}

  -- NaN is the value that is not `<=` itself.
  abbrev pub IsNumber : F → Type 0
  IsNumber x = le x x ≡ true

  -- Facts of IEEE 754 arithmetic, which hold with rounding, overflow to infinity and underflow to 0.
  pub record IsIeee : Type 0 where
    pub zero_one : le zero one ≡ true
    pub le_trans : (x y z : F) → le x y ≡ true → le y z ≡ true → le x z ≡ true
    pub number_of_le : (x y : F) → le x y ≡ true → IsNumber x × IsNumber y
    pub le_of_lt : (x y : F) → lt x y ≡ true → le x y ≡ true
    pub lt_of_not_le : (x y : F) → IsNumber x → IsNumber y → le x y ≡ false → lt y x ≡ true
    pub le_of_not_lt : (x y : F) → IsNumber x → IsNumber y → lt x y ≡ false → le y x ≡ true
    pub not_lt_of_le : (x y : F) → le x y ≡ true → lt y x ≡ false
    pub add_nonneg : (x y : F) → le zero x ≡ true → le zero y ≡ true → le zero (add x y) ≡ true
    pub mul_nonneg : (x y : F) → lt zero x ≡ true → lt zero y ≡ true → le zero (mul x y) ≡ true
    pub sub_one_nonneg : (x : F) → le one x ≡ true → le zero (sub x one) ≡ true
    pub sub_one_le : (x : F) → le one x ≡ true → le (sub x one) x ≡ true
    pub of_int_zero : of_int (pos 0) ≡ zero
    pub of_int_one : of_int (pos 1) ≡ one
    pub of_int_mono : (m n : ℤ) → ltb_ℤ n m ≡ false → le (of_int m) (of_int n) ≡ true
    -- Whole numbers up to 2 ^ 53 are exact.
    pub of_int_pred : (n : ℕ) → suc n ≤ 2 ^ 53 → sub (of_int (pos (suc n))) one ≡ of_int (pos n)
    pub decimal_nonneg : (m k : ℕ) → lt (decimal m k) zero ≡ false
    pub not_one_le_zero : le one zero ≡ false
    pub seconds_number : (d : ℤ) → IsNumber (seconds d)
    pub seconds_sign : (d : ℤ) → le (seconds d) zero ≡ not (ltb_ℤ (pos 0) d)
