-- ===== src/RateLimit/Throughput.antt =====
-- How many requests the limiter of internal/ratelimit/ratelimit.go lets through in a span of time.
use mathlib.Core.Path.{subst}
use llm_gateway_platform.Prelude.{
  ◌-◌, ℕ, suc, ◌+◌, ◌*◌, ◌≤◌, ◌≡◌, ◌∙◌, refl, inl, inr, Bool, true, false, List, [], ◌∷◌, arith,
  All, Bool-cases, ◌/◌, length, if◌then◌else◌,
}
use llm_gateway_platform.Prelude.Int.{ℤ, pos, negsuc, pos_part, sub_ℤ, ltb_ℤ}
use llm_gateway_platform.Float.{Float, IsIeee}
use llm_gateway_platform.RateLimit.{Limiter, sub_time, refill, spend, allow}
use llm_gateway_platform.RateLimit.Bounds.{IsValid, refill-IsValid, allow-IsValid}
use llm_gateway_platform.RateLimit.Burst.{answers}

-- The time from `u` to `t`, 0 where `t` is earlier.
abbrev pub span : ℤ → ℤ → ℕ
span u t = pos_part (sub_ℤ t u)

-- The requests that are let through.
abbrev pub passes : List Bool → ℕ
passes [] = 0
passes (true ∷ oks) = suc (passes oks)
passes (false ∷ oks) = passes oks

-- The numbers from 0 on are whole multiples of one grain, as those of float64 are of 2^-1074, and an
-- operation whose exact result is about as large as `cap` at most is off by no more than `slack`
-- grains: IEEE 754 rounds each result to a number that is nearest. `value` counts grains.
pub record RoundsWithin {F : Type 0} (f : Float F) (cap : F) (slack : ℕ) : Type 0 where
  pub value : F → ℕ
  pub le_value : (x y : F) → f.le f.zero x ≡ true → f.le x y ≡ true → value x ≤ value y
  -- A rounded sum that is not above the cap has summands that are not, and is close to the exact sum.
  pub add_under :
      (x y : F)
      → f.le f.zero x ≡ true
      → f.le f.zero y ≡ true
      → f.lt cap (f.add x y) ≡ false
      → (f.le y cap ≡ true) × (value (f.add x y) ≤ value x + value y + slack)
  -- A rounded sum is above the cap only if the exact one reaches it.
  pub add_over :
      (x y : F)
      → f.le f.zero x ≡ true
      → f.le f.zero y ≡ true
      → f.lt cap (f.add x y) ≡ true
      → value cap ≤ value x + value y
  -- The tokens of `d` nanoseconds at the rate `r`, against the exact product, rounded down.
  pub mul_under :
      (r : F) (d : ℕ)
      → f.lt f.zero r ≡ true
      → f.le (f.mul (f.seconds (pos d)) r) cap ≡ true
      → value (f.mul (f.seconds (pos d)) r) ≤ value r * d / 1_000_000_000 + slack
  pub mul_over :
      (r : F) (d : ℕ)
      → f.lt f.zero r ≡ true
      → f.le cap (f.mul (f.seconds (pos d)) r) ≡ true
      → value cap ≤ value r * d / 1_000_000_000 + slack
  pub sub_value :
      (x : F)
      → f.le f.one x ≡ true
      → f.le x cap ≡ true
      → value (f.sub x f.one) + value f.one ≤ value x + slack

sub_time_pos : (t u : ℤ) → ltb_ℤ (pos 0) (sub_time t u) ≡ true → ltb_ℤ u t ≡ true
sub_time_pos t u h = ground arith

pub positive_pos : (x : ℤ) → ltb_ℤ (pos 0) x ≡ true → x ≡ pos (pos_part x)
positive_pos (pos n) h = refl
positive_pos (negsuc n) h = ground arith

-- The difference of two times may have lost something at the end of int64.
sub_time_le : (t u : ℤ) → pos_part (sub_time t u) ≤ span u t
sub_time_le t u = ground arith

span_add : (u v t : ℤ) → ltb_ℤ v u ≡ false → ltb_ℤ t v ≡ false → span u v + span v t ≡ span u t
span_add u v t h k = ground arith

-- The grains that come in at a rate during a span of time, by exact arithmetic, rounded down.
abbrev pub inflow : ℕ → ℕ → ℕ
inflow rate d = rate * d / 1_000_000_000

distribute : (r d e : ℕ) → r * (d + e) ≡ r * d + r * e
distribute r d e = grind arith

inflow_add : (r d e : ℕ) → inflow r d + inflow r e ≤ inflow r (d + e)
inflow_add r d e = rw (distribute r d e) (omega arith)

inflow_mono : (r d e : ℕ) → d ≤ e → inflow r d ≤ inflow r e
inflow_mono r d e h =
    let sum : d + (e - d) ≡ e = omega (arith, h) in
    let whole : inflow r d + inflow r (e - d) ≤ inflow r e =
      subst (λ n. inflow r d + inflow r (e - d) ≤ inflow r n) sum (inflow_add r d (e - d)) in
    omega (arith, whole)

module _ {F : Type 0} (f : Float F) (ieee : IsIeee f) (cap : F) (slack : ℕ)
    (rounds : RoundsWithin f cap slack) where
  open f use {zero as nought, one, add, sub, mul, lt, le, seconds}
  open ieee use {
    seconds_sign, lt_of_not_le, seconds_number, mul_nonneg, le_of_lt, number_of_le, le_trans,
    zero_one, add_nonneg,
  }
  open rounds use {value, le_value, add_under, add_over, mul_under, mul_over, sub_value}

  -- What a refill does to a limiter: it adds the tokens of the time that has passed, at most, with two
  -- roundings.
  record Refilled (l l' : Limiter F) : Type 0 where
    pub same_rate : l'.rate ≡ l.rate
    pub same_burst : l'.burst ≡ l.burst
    pub later : ltb_ℤ l'.last l.last ≡ false
    pub gained :
        value l'.tokens
        ≤ value l.tokens + inflow (value l.rate) (span l.last l'.last) + (slack + slack)

  -- The tokens after `accrue`, which are under the cap or stop at it.
  accrued :
      (d n : ℕ) (l : Limiter F)
      → lt nought (seconds (pos d)) ≡ true
      → d ≤ n
      → IsValid f l
      → l.burst ≡ cap
      → let sum = add l.tokens (mul (seconds (pos d)) l.rate) in
        value (if lt l.burst sum then l.burst else sum)
        ≤ value l.tokens + inflow (value l.rate) n + (slack + slack)
  accrued d n l positive fits v full =
      let y = mul (seconds (pos d)) l.rate in
      let some_y = mul_nonneg (seconds (pos d)) l.rate positive v.rate_pos in
      let more = inflow_mono (value l.rate) d n fits in
      elim (Bool-cases (lt cap (add l.tokens y))) [
        | inl over ↦
            let reached = add_over l.tokens y v.nonneg some_y over in
            rw (full, over)
              (elim (Bool-cases (le y cap)) [
                | inl under ↦ omega (arith, reached, mul_under l.rate d v.rate_pos under, more)
                | inr above ↦
                    let beyond = le_of_lt cap y (
                      lt_of_not_le y cap (number_of_le nought y some_y).1
                        (number_of_le one cap (rw full at v.room)).1 above) in
                    omega (arith, mul_over l.rate d v.rate_pos beyond, more)
              ])
        | inr under ↦
            let (small, close) = add_under l.tokens y v.nonneg some_y under in
            rw (full, under) (omega (arith, close, mul_under l.rate d v.rate_pos small, more))
      ]

  refill-Refilled :
      (now : ℤ) (l : Limiter F) → IsValid f l → l.burst ≡ cap → Refilled l (refill f now l)
  unfolding refill
  refill-Refilled now l v full = elim (Bool-cases (le (seconds (sub_time now l.last)) nought)) [
    | inl early ↦
        rw early (record {
          same_rate = refl;
          same_burst = refl;
          later = ground arith;
          gained = omega arith;
        })
    | inr late ↦
        let ahead : ltb_ℤ (pos 0) (sub_time now l.last) ≡ true =
          ground (arith, seconds_sign (sub_time now l.last), late) in
        let whole = positive_pos (sub_time now l.last) ahead in
        rw (late, whole)
          (record {
            same_rate = refl;
            same_burst = refl;
            later = ground (arith, sub_time_pos now l.last ahead);
            gained =
                accrued (pos_part (sub_time now l.last)) (span l.last now) l
                  (lt_of_not_le _ nought (seconds_number _) (number_of_le nought one zero_one).0
                    (rw whole at late))
                  (sub_time_le now l.last) v full;
          })
  ]

  -- One if the request was let through.
  abbrev passed : Bool → ℕ
  passed true = 1
  passed false = 0

  passes-cons : (ok : Bool) (oks : List Bool) → passes (ok ∷ oks) ≡ passed ok + passes oks
  passes-cons true oks = omega arith
  passes-cons false oks = omega arith

  -- What `spend` takes, with one rounding.
  record Spent (l : Limiter F) (x : Bool × Limiter F) : Type 0 where
    pub same_rate : x.1.rate ≡ l.rate
    pub same_burst : x.1.burst ≡ l.burst
    pub same_last : x.1.last ≡ l.last
    pub taken : passed x.0 * value one + value x.1.tokens ≤ value l.tokens + slack

  spend-Spent : (l : Limiter F) → le l.tokens cap ≡ true → Spent l (spend f l)
  unfolding spend
  spend-Spent l small = elim (Bool-cases (le one l.tokens)) [
    | inl enough ↦ rw enough (record {
      same_rate = refl;
      same_burst = refl;
      same_last = refl;
      taken = omega (arith, sub_value l.tokens enough small);
    })
    | inr few ↦
        rw few
          (record { same_rate = refl; same_burst = refl; same_last = refl; taken = omega arith })
  ]

  refill-in_time :
      (now t : ℤ) (l : Limiter F)
      → ltb_ℤ t l.last ≡ false
      → ltb_ℤ t now ≡ false
      → ltb_ℤ t (refill f now l).last ≡ false
  unfolding refill
  refill-in_time now t l h k = elim (Bool-cases (le (seconds (sub_time now l.last)) nought)) [
    | inl e ↦ rw e h
    | inr e ↦ rw e k
  ]

  allow-Spent :
      (now : ℤ) (l : Limiter F)
      → IsValid f l
      → l.burst ≡ cap
      → Spent (refill f now l) (allow f now l)
  unfolding allow
  allow-Spent now l v full = spend-Spent (refill f now l) (
      subst (λ c. le (refill f now l).tokens c ≡ true)
        ((refill-Refilled now l v full).same_burst ∙ full) (refill-IsValid f ieee now l v).capped)

  -- The tokens before and after a call, and what comes in before it and after it, put together.
  combine :
      (p q n v v₁ v₂ g₁ g₂ g s k : ℕ)
      → p * n + v₂ ≤ v₁ + s
      → v₁ ≤ v + g₁ + (s + s)
      → q * n ≤ v₂ + g₂ + 3 * k * s
      → g₁ + g₂ ≤ g
      → (p + q) * n ≤ v + g + 3 * suc k * s
  combine p q n v v₁ v₂ g₁ g₂ g s k taken gained rest all = grind arith

  -- What is let through up to the time `t`, given the tokens.
  answers_bounded :
      (times : List ℤ) (t : ℤ) (l : Limiter F)
      → IsValid f l
      → l.burst ≡ cap
      → ltb_ℤ t l.last ≡ false
      → All (λ now. ltb_ℤ t now ≡ false) times
      → passes (answers f times l) * value one
        ≤ value l.tokens + inflow (value l.rate) (span l.last t) + 3 * length times * slack
  unfolding answers
  answers_bounded [] t l v full h early = omega arith
  answers_bounded (now ∷ times) t l v full h (here, early) =
      let l₁ = refill f now l in
      let fill = refill-Refilled now l v full in
      let x = allow f now l in
      let spent = allow-Spent now l v full in
      let in_time = refill-in_time now t l h here in
      let rest : passes (answers f times x.1) * value one
          ≤ value x.1.tokens + inflow (value l.rate) (span l₁.last t) + 3 * length times * slack =
        rw (spent.same_rate ∙ fill.same_rate, spent.same_last) at
          (answers_bounded times t x.1 (allow-IsValid f ieee now l v)
            (spent.same_burst ∙ fill.same_burst ∙ full) (rw spent.same_last in_time) early) in
      let both : inflow (value l.rate) (span l.last l₁.last)
            + inflow (value l.rate) (span l₁.last t)
          ≤ inflow (value l.rate) (span l.last t) =
        subst
          (λ n.
            inflow (value l.rate) (span l.last l₁.last) + inflow (value l.rate) (span l₁.last t)
            ≤ inflow (value l.rate) n)
          (span_add l.last l₁.last t fill.later in_time)
          (inflow_add (value l.rate) (span l.last l₁.last) (span l₁.last t)) in
      rw (passes-cons x.0 (answers f times x.1)) (
        combine (passed x.0) (passes (answers f times x.1)) (value one) (value l.tokens)
          (value l₁.tokens) (value x.1.tokens) _ _ _ slack (length times) spent.taken fill.gained
          rest both)

  -- For a valid limiter, in an arithmetic that rounds by at most `slack` up to the burst capacity:
  -- however the calls of `Allow` are placed and whatever the clock reads at them, going back included,
  -- up to the latest reading no more requests are let through than the burst capacity and the rate
  -- times the time since the last refill allow, and three roundings for each call.
  pub allow_throughput :
      (times : List ℤ) (t : ℤ) (l : Limiter F)
      → IsValid f l
      → l.burst ≡ cap
      → ltb_ℤ t l.last ≡ false
      → All (λ now. ltb_ℤ t now ≡ false) times
      → passes (answers f times l) * value one
        ≤ value l.burst + inflow (value l.rate) (span l.last t) + 3 * length times * slack
  allow_throughput times t l v full h early =
      let tokens_le_burst : value l.tokens ≤ value l.burst =
        le_value l.tokens l.burst v.nonneg v.capped in
      omega (arith, answers_bounded times t l v full h early, tokens_le_burst)
