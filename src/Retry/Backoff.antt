-- ===== src/Retry/Backoff.antt =====
-- The delays of `backoff` in internal/retry/retry.go.
use native.Mathlib.Nat.{pow-suc, add-suc}
use llm_gateway_platform.Prelude.{
  ℕ, zero, suc, ◌+◌, ◌-◌, ◌*◌, ◌/◌, ◌^◌, ◌≤◌, ◌<◌, min, ◌≡◌, refl, ◌∙◌, ap, Bool, true, false, ◌&&◌,
  arith, ltb, if◌then◌else◌, Bool-cases, tests, inl, inr,
}
use llm_gateway_platform.Prelude.Int.{ℤ, pos, add_ℤ, ltb_ℤ, pos_part, int64, int64-pos}
use llm_gateway_platform.Runtime.{Env, IsLawful}
use llm_gateway_platform.Retry.{Policy, exceeds, double, grow, capped, jittered, backoff}

-- A delay below 2 ^ 62 nanoseconds (146 years) doubles without wrapping.
double-pos : (d : ℕ) → d < 2 ^ 62 → double (pos d) ≡ pos (d * 2)
unfolding int64
double-pos d h = ground arith

pow-pos : (k : ℕ) → 1 ≤ 2 ^ k
pow-pos zero = omega arith
pow-pos (suc k) = rw pow-suc (omega (arith, pow-pos k))

-- A product with a power of two is at least the other factor.
le-mul-pow : (d k : ℕ) → d ≤ d * 2 ^ k
le-mul-pow d k = grind (arith, pow-pos k)

mul-pow-suc : (d k : ℕ) → d * 2 * 2 ^ k ≡ d * 2 ^ suc k
mul-pow-suc d k = rw pow-suc (grind arith)

jitter_argument : (d : ℕ) → d < 2 ^ 62 → pos_part (int64 (add_ℤ (pos (d / 2)) (pos 1))) ≡ d / 2 + 1
unfolding int64
jitter_argument d h = ground arith

jitter_sum :
    (d r : ℕ) → d < 2 ^ 62 → r < d / 2 + 1 → int64 (add_ℤ (pos (d / 2)) (pos r)) ≡ pos (d / 2 + r)
unfolding int64
jitter_sum d r h small = ground arith

module _ {S : Type 0} (env : Env S) (lawful : IsLawful env) where
  jittered_bounds :
      (d : ℕ) (s : S)
      → d < 2 ^ 62
      → (n : ℕ) × ((jittered env (pos d) s).0 ≡ pos n) × (d / 2 ≤ n) × (n ≤ d)
  unfolding jittered
  jittered_bounds d s h =
      let r = (env.int63n (d / 2 + 1) s).0 in
      let small : r < d / 2 + 1 = lawful.int63n-lt (d / 2 + 1) s (omega arith) in
      (d / 2 + r, rw (jitter_argument d h) (jitter_sum d r h small), omega arith, omega arith)

  jitter_bounds :
      (jitter : Bool) (d : ℕ) (s : S)
      → d < 2 ^ 62
      → (n : ℕ) × ((if jitter && ltb_ℤ (pos 0) (pos d)
            then jittered env (pos d) s
            else (pos d, s)).0
          ≡ pos n)
        × (d / 2 ≤ n)
        × (n ≤ d)
        × (jitter ≡ false → n ≡ d)
  jitter_bounds false d s h = (d, refl, omega arith, omega arith, λ _. refl)
  jitter_bounds true d s h = elim (Bool-cases (ltb_ℤ (pos 0) (pos d))) [
    | inl e ↦ let (n, eq, low, high) = jittered_bounds d s h in (n, rw e eq, low, high, λ f. cc)
    | inr e ↦ (d, rw e, omega arith, omega arith, λ _. refl)
  ]

module _ (p : Policy) (m : ℕ) (max : p.max_delay ≡ pos m) (some_cap : 0 < m)
    (small : m < 2 ^ 62) where
  limit : ℤ → ℤ
  limit d = if exceeds p d then p.max_delay else d

  limit-pos : (d : ℕ) → limit (pos d) ≡ pos (min d m)
  unfolding limit
  limit-pos d = ground arith

  exceeds-pos : (d : ℕ) → exceeds p (pos d) ≡ ltb m d
  exceeds-pos d = ground arith

  limit-grow : (k d : ℕ) → d < 2 ^ 62 → limit (grow p k (pos d)) ≡ pos (min (d * 2 ^ k) m)
  unfolding grow
  limit-grow zero d h = limit-pos d ∙ ap pos (omega arith)
  limit-grow (suc k) d h =
      rw (double-pos d h, exceeds-pos (d * 2))
        (elim (Bool-cases (ltb m (d * 2))) [
          | inl over ↦
              rw (over, max)
                (limit-pos m ∙ ap pos (omega (tests, mul-pow-suc d k, le-mul-pow (d * 2) k)))
          | inr under ↦
              rw under
                (limit-grow k (d * 2) (ground arith) ∙ ap (λ t. pos (min t m)) (mul-pow-suc d k))
        ])

  -- The capped delay before attempt `attempt + 1` is the base delay doubled `attempt - 1` times, or
  -- `MaxDelay` where that is less.
  capped_lem :
      (b attempt : ℕ)
      → p.base_delay ≡ pos b
      → b < 2 ^ 62
      → capped p attempt ≡ pos (min (b * 2 ^ (attempt - 1)) m)
  unfolding capped limit
  capped_lem b attempt base h = rw base (limit-grow (attempt - 1) b h)

  -- Whatever `math/rand` yields, the delay before attempt `attempt + 1` is at most the base delay
  -- doubled `attempt - 1` times and at most `MaxDelay`, and at least half of the lesser of the two;
  -- without jitter it is that lesser value. (The cap is positive, and the base delay and the cap are below 2 ^ 62 nanoseconds, 146 years.)
  pub backoff_bounds :
      {S : Type 0} (env : Env S) (lawful : IsLawful env) (b attempt : ℕ) (s : S)
      → p.base_delay ≡ pos b
      → b < 2 ^ 62
      → (n : ℕ) × ((backoff env p attempt s).0 ≡ pos n)
        × (min (b * 2 ^ (attempt - 1)) m / 2 ≤ n)
        × (n ≤ min (b * 2 ^ (attempt - 1)) m)
        × (p.jitter ≡ false → n ≡ min (b * 2 ^ (attempt - 1)) m)
  unfolding backoff
  backoff_bounds env lawful b attempt s base h =
      rw (capped_lem b attempt base h)
        (jitter_bounds env lawful p.jitter (min (b * 2 ^ (attempt - 1)) m) s (omega arith))

-- Doubling commutes with wrapping.
double-int64 : (x : ℕ) → double (int64 (pos x)) ≡ int64 (pos (x * 2))
unfolding int64
double-int64 x = ground arith

grow_uncapped :
    (p : Policy) (k x : ℕ)
    → ltb_ℤ (pos 0) p.max_delay ≡ false
    → grow p k (int64 (pos x)) ≡ int64 (pos (x * 2 ^ k))
unfolding grow
grow_uncapped p zero x h = ap (λ t. int64 (pos t)) (omega arith)
grow_uncapped p (suc k) x h =
    rw (double-int64 x, h) (grow_uncapped p k (x * 2) h ∙ ap (λ t. int64 (pos t)) (mul-pow-suc x k))

pow_64 : (k : ℕ) → 2 ^ (64 + k) ≡ 2 ^ k * 2 ^ 64
pow_64 zero = refl
pow_64 (suc k) = rw (add-suc, pow-suc, pow-suc, pow_64 k) (omega arith)

wraps_to_zero : (x : ℕ) → int64 (pos (x * 2 ^ 64)) ≡ pos 0
unfolding int64
wraps_to_zero x = ground arith

-- With no cap (`MaxDelay` at most 0) the delay before attempt `attempt + 1` is the int64 to which the
-- base delay doubled `attempt - 1` times wraps.
pub uncapped_doubles :
    (p : Policy) (b attempt : ℕ)
    → p.base_delay ≡ pos b
    → b < 2 ^ 63
    → ltb_ℤ (pos 0) p.max_delay ≡ false
    → capped p attempt ≡ int64 (pos (b * 2 ^ (attempt - 1)))
unfolding capped
uncapped_doubles p b attempt base small h =
    rw (base, ← int64-pos b small, grow_uncapped p (attempt - 1) b h) (rw h)

-- So from the 65th attempt on the delay is 0, whatever the base delay: the next attempt follows at
-- once.
pub uncapped_wraps_to_zero :
    (p : Policy) (b k : ℕ)
    → p.base_delay ≡ pos b
    → b < 2 ^ 63
    → ltb_ℤ (pos 0) p.max_delay ≡ false
    → capped p (65 + k) ≡ pos 0
uncapped_wraps_to_zero p b k base small h =
    uncapped_doubles p b (65 + k) base small h
    ∙ ap (λ t. int64 (pos (b * 2 ^ t))) (omega arith)
    ∙ ap (λ t. int64 (pos (b * t))) (pow_64 k)
    ∙ ap (λ t. int64 (pos t)) (omega arith)
    ∙ wraps_to_zero (b * 2 ^ k)
