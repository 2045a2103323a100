-- ===== src/RateLimit/Bounds.antt =====
-- The tokens of a limiter stay between 0 and the burst capacity.
use llm_gateway_platform.Prelude.{◌≡◌, inl, inr, true, if◌then◌else◌, Bool-cases}
use llm_gateway_platform.Prelude.Int.{ℤ, pos, ltb_ℤ}
use llm_gateway_platform.Float.{Float, IsNumber, IsIeee}
use llm_gateway_platform.RateLimit.{Limiter, sub_time, accrue, new, refill, spend, allow}

module _ {F : Type 0} (f : Float F) where
  open f use {zero as nought, one, add, sub, mul, lt, le, of_int, seconds}

  -- What holds of a limiter between two calls.
  pub record IsValid (l : Limiter F) : Type 0 where
    pub rate_pos : lt nought l.rate ≡ true
    pub room : le one l.burst ≡ true
    pub nonneg : le nought l.tokens ≡ true
    pub capped : le l.tokens l.burst ≡ true

  module _ (ieee : IsIeee f) where
    open ieee use {
      le_trans, number_of_le, lt_of_not_le, le_of_not_lt, add_nonneg, mul_nonneg, sub_one_nonneg,
      sub_one_le, of_int_one, of_int_mono, zero_one, seconds_number, seconds_sign, not_one_le_zero,
    }

    nought-IsNumber : IsNumber f nought
    nought-IsNumber = (number_of_le nought one zero_one).0

    rate_lem : (r : F) → IsNumber f r → lt nought (if le r nought then one else r) ≡ true
    rate_lem r h = elim (Bool-cases (le r nought)) [
      | inl e ↦ rw e (
          lt_of_not_le one nought (number_of_le nought one zero_one).1 nought-IsNumber
            not_one_le_zero)
      | inr e ↦ rw e (lt_of_not_le r nought h nought-IsNumber e)
    ]

    burst_lem : (b : ℤ) → le one (of_int (if ltb_ℤ b (pos 1) then pos 1 else b)) ≡ true
    burst_lem b = elim (Bool-cases (ltb_ℤ b (pos 1))) [
      | inl e ↦ rw (e, of_int_one) (number_of_le nought one zero_one).1
      | inr e ↦ rw (e, ← of_int_one) (of_int_mono (pos 1) b e)
    ]

    -- `New` makes a valid limiter, whatever the burst, from any rate that is not NaN.
    pub new-IsValid : (r : F) (b now : ℤ) → IsNumber f r → IsValid (new f r b now)
    unfolding new
    new-IsValid r b now h =
        let full = burst_lem b in
        record {
          rate_pos = rate_lem r h;
          room = full;
          nonneg = le_trans nought one _ zero_one full;
          capped = (number_of_le one _ full).1;
        }

    accrue-IsValid :
        (elapsed : F) (now : ℤ) (l : Limiter F)
        → lt nought elapsed ≡ true
        → IsValid l
        → IsValid (accrue f elapsed now l)
    accrue-IsValid elapsed now l positive v =
        let gain = mul_nonneg elapsed l.rate positive v.rate_pos in
        let sum = add_nonneg l.tokens (mul elapsed l.rate) v.nonneg gain in
        let number = (number_of_le _ _ sum).1 in
        let burst_number = (number_of_le _ _ v.room).1 in
        elim (Bool-cases (lt l.burst (add l.tokens (mul elapsed l.rate)))) [
          | inl over ↦ record {
            rate_pos = v.rate_pos;
            room = v.room;
            nonneg = rw over (le_trans _ _ _ zero_one v.room);
            capped = rw over burst_number;
          }
          | inr under ↦ record {
            rate_pos = v.rate_pos;
            room = v.room;
            nonneg = rw under sum;
            capped = rw under (le_of_not_lt _ _ burst_number number under);
          }
        ]

    pub refill-IsValid : (now : ℤ) (l : Limiter F) → IsValid l → IsValid (refill f now l)
    unfolding refill
    refill-IsValid now l v =
        let elapsed = seconds (sub_time now l.last) in
        elim (Bool-cases (le elapsed nought)) [
          | inl e ↦ rw e v
          | inr e ↦ rw e (
              accrue-IsValid elapsed now l
                (lt_of_not_le elapsed nought (seconds_number (sub_time now l.last)) nought-IsNumber
                  e)
                v)
        ]

    pub spend-IsValid : (l : Limiter F) → IsValid l → IsValid (spend f l).1
    unfolding spend
    spend-IsValid l v = elim (Bool-cases (le one l.tokens)) [
      | inl e ↦ rw e (record {
        rate_pos = v.rate_pos;
        room = v.room;
        nonneg = sub_one_nonneg l.tokens e;
        capped = le_trans _ _ _ (sub_one_le l.tokens e) v.capped;
      })
      | inr e ↦ rw e v
    ]

    -- After a call of `Allow`, whatever the clock reads (also an earlier time than before), the
    -- tokens are at least 0 and at most the burst capacity, if they were so before.
    pub allow-IsValid : (now : ℤ) (l : Limiter F) → IsValid l → IsValid (allow f now l).1
    unfolding allow
    allow-IsValid now l v = spend-IsValid (refill f now l) (refill-IsValid now l v)
