-- ===== src/RateLimit/Burst.antt =====
-- How many requests a limiter lets through while no time passes.
use llm_gateway_platform.Prelude.{
  ℕ, zero, suc, ◌≤◌, ◌^◌, ◌≡◌, refl, ap, Bool, true, false, List, [], ◌∷◌, arith, if◌then◌else◌,
  All,
}
use llm_gateway_platform.Prelude.Int.{ℤ, pos, ltb_ℤ}
use llm_gateway_platform.Float.{Float, IsIeee}
use llm_gateway_platform.RateLimit.{Limiter, sub_time, new, refill, spend, allow}

-- The answers to a budget of `n` requests: that many are let through, and no more.
unfoldable pub budget : ℕ → List ℤ → List Bool
budget n [] = []
budget zero (t ∷ ts) = false ∷ budget zero ts
budget (suc n) (t ∷ ts) = true ∷ budget n ts

module _ {F : Type 0} (f : Float F) where
  open f use {zero as nought, one, le, of_int}

  -- The answers of `Allow`, called once at each of the given clock readings.
  unfoldable pub answers : List ℤ → Limiter F → List Bool
  answers [] l = []
  answers (now ∷ times) l = let (ok, l') = allow f now l in ok ∷ answers times l'

  module _ (ieee : IsIeee f) where
    open ieee use {of_int_zero, of_int_one, of_int_mono, of_int_pred, seconds_sign, not_one_le_zero}

    no_time : (t last : ℤ) → ltb_ℤ last t ≡ false → ltb_ℤ (pos 0) (sub_time t last) ≡ false
    no_time t last h = ground arith

    refill_early : (t : ℤ) (l : Limiter F) → ltb_ℤ l.last t ≡ false → refill f t l ≡ l
    unfolding refill
    refill_early t l h = rw (seconds_sign (sub_time t l.last), no_time t l.last h)

    one_le : (n : ℕ) → le one (of_int (pos (suc n))) ≡ true
    one_le n = rw (← of_int_one) (of_int_mono (pos 1) (pos (suc n)) (ground arith))

    -- A limiter that holds `n` whole tokens.
    abbrev holding : ℕ → Limiter F → Limiter F
    holding n l = record l { tokens = of_int (pos n) }

    allow_some :
        (t : ℤ) (n : ℕ) (l : Limiter F)
        → ltb_ℤ l.last t ≡ false
        → suc n ≤ 2 ^ 53
        → allow f t (holding (suc n) l) ≡ (true, holding n l)
    unfolding allow
    allow_some t n l h small =
        rw (refill_early t (holding (suc n) l) h)
          (unfold spend in rw (one_le n, of_int_pred n small))

    allow_none :
        (t : ℤ) (l : Limiter F)
        → ltb_ℤ l.last t ≡ false
        → allow f t (holding 0 l) ≡ (false, holding 0 l)
    unfolding allow
    allow_none t l h =
        rw (refill_early t (holding 0 l) h) (unfold spend in rw (of_int_zero, not_one_le_zero))

    answers-holding :
        (n : ℕ) (times : List ℤ) (l : Limiter F)
        → n ≤ 2 ^ 53
        → All (λ t. ltb_ℤ l.last t ≡ false) times
        → answers times (holding n l) ≡ budget n times
    unfolding answers budget
    answers-holding n [] l small h = refl
    answers-holding zero (t ∷ ts) l small (here, h) =
        rw (allow_none t l here) (ap (λ x. false ∷ x) (answers-holding zero ts l small h))
    answers-holding (suc n) (t ∷ ts) l small (here, h) =
        rw (allow_some t n l here small)
          (ap (λ x. true ∷ x) (answers-holding n ts l (omega arith) h))

    -- A new limiter of burst capacity `b` (from 1 to 2 ^ 53) lets the first `b` requests through and
    -- refuses every later one, whatever its rate, as long as the clock is not past the time at which
    -- the limiter was made.
    pub new_lets_burst_through :
        (rate : F) (b : ℕ) (now : ℤ) (times : List ℤ)
        → 1 ≤ b
        → b ≤ 2 ^ 53
        → All (λ t. ltb_ℤ now t ≡ false) times
        → answers times (new f rate (pos b) now) ≡ budget b times
    unfolding new
    new_lets_burst_through rate b now times positive small h =
        let enough : ltb_ℤ (pos b) (pos 1) ≡ false = ground arith in
        rw enough (
          answers-holding b times
            (record {
              rate = if le rate nought then one else rate;
              burst = of_int (pos b);
              tokens = of_int (pos b);
              last = now;
            })
            small h)
