-- ===== src/Retry/Pause.antt =====
-- How long `Do` of internal/retry/retry.go sleeps in all.
use llm_gateway_platform.Prelude.{
  ℕ, zero, suc, ◌+◌, ◌-◌, ◌*◌, ◌^◌, ◌≤◌, ◌<◌, ◌≡◌, refl, inl, inr, false, not, ◌||◌, ◌&&◌, Option,
  none, some, arith, ◌==◌, Bool-cases,
}
use llm_gateway_platform.Prelude.Int.{ℤ, pos, pos_part, ltb_ℤ}
use llm_gateway_platform.Provider.Errors.{Err, is_retryable}
use llm_gateway_platform.Runtime.{Env, IsLawful}
use llm_gateway_platform.Retry.{
  Policy, attempts_of, capped, Round, return, again, jittered, backoff, sleep, after_sleep,
  after_call, after_ctx, round, do_loop, run,
}
use llm_gateway_platform.Retry.Backoff.{backoff_bounds}

-- A meter of the time that is slept: a timer adds at most its length, and nothing else adds to it.
pub record SleepMeter {S : Type 0} (env : Env S) (fn : S → Option Err × S) (slept : S → ℕ)
    : Type 0 where
  pub at_ctx : (s : S) → slept (env.ctx_err s).1 ≡ slept s
  pub at_rand : (n : ℕ) (s : S) → slept (env.int63n n s).1 ≡ slept s
  pub at_call : (s : S) → slept (fn s).1 ≡ slept s
  pub at_wait : (d : ℕ) (s : S) → slept (env.wait d s).1 ≤ slept s + d

module _ {S : Type 0} (env : Env S) (lawful : IsLawful env) (p : Policy) (m b : ℕ)
    (cap : p.max_delay ≡ pos m) (some_cap : 0 < m) (small_cap : m < 2 ^ 62)
    (base : p.base_delay ≡ pos b) (small_base : b < 2 ^ 62) (fn : S → Option Err × S)
    (slept : S → ℕ) (metered : SleepMeter env fn slept) where
  backoff_delay : (attempt : ℕ) (s : S) → pos_part (backoff env p attempt s).0 ≤ m
  backoff_delay attempt s =
      let (n, same, low, high, plain) =
        backoff_bounds p m cap some_cap small_cap env lawful b attempt s base small_base in
      rw same (omega (arith, high))

  backoff-slept : (attempt : ℕ) (s : S) → slept (backoff env p attempt s).1 ≡ slept s
  unfolding backoff jittered
  backoff-slept attempt s = elim (Bool-cases (p.jitter && ltb_ℤ (pos 0) (capped p attempt))) [
    | inl e ↦ rw e (metered.at_rand _ s)
    | inr e ↦ rw e refl
  ]

  sleep-slept : (d : ℤ) (s : S) → slept (sleep env d s).1 ≤ slept s + pos_part d
  unfolding sleep
  sleep-slept d s = elim (Bool-cases (ltb_ℤ (pos 0) d)) [
    | inl e ↦ rw e (metered.at_wait (pos_part d) s)
    | inr e ↦ rw e (omega arith)
  ]

  state_of : Round S → S
  state_of (return r s) = s
  state_of (again e s) = s

  -- What a round may add, with `left` rounds to follow.
  abbrev pause : ℕ → ℕ
  pause zero = 0
  pause (suc left) = m

  pause_later :
      (left attempt : ℕ)
      → attempt + left ≡ attempts_of p
      → (attempt == attempts_of p) ≡ false
      → pause left ≡ m
  pause_later zero attempt count other = absurd (ground (arith, count, other))
  pause_later (suc left) attempt count other = refl

  after_sleep-slept :
      (attempts attempt n : ℕ) (e : Err) (x : Option Err × S)
      → slept x.1 ≤ n
      → slept (state_of (after_sleep env p fn attempts attempt e x)) ≤ n
  unfolding after_sleep state_of
  after_sleep-slept attempts attempt n e (some w, s) h = h
  after_sleep-slept attempts attempt n e (none, s) h = h

  after_call-slept :
      (attempt left : ℕ) (x : Option Err × S)
      → attempt + left ≡ attempts_of p
      → slept (state_of (after_call env p fn (attempts_of p) attempt x)) ≤ slept x.1 + pause left
  unfolding after_call state_of
  after_call-slept attempt left (none, s) count = omega arith
  after_call-slept attempt left (some e, s) count =
      elim (Bool-cases (not (is_retryable e) || attempt == attempts_of p)) [
        | inl t ↦ rw t (omega arith)
        | inr t ↦
            let long = pause_later left attempt count (ground (arith, t)) in
            let slept' = sleep-slept (backoff env p attempt s).0 (backoff env p attempt s).1 in
            rw t (
              after_sleep-slept (attempts_of p) attempt (slept s + pause left) e _
                (omega (arith, long, slept', backoff-slept attempt s, backoff_delay attempt s)))
      ]

  after_ctx-slept :
      (attempt left : ℕ) (x : Option Err × S)
      → attempt + left ≡ attempts_of p
      → slept (state_of (after_ctx env p fn (attempts_of p) attempt x)) ≤ slept x.1 + pause left
  unfolding after_ctx state_of
  after_ctx-slept attempt left (some e, s) count = omega arith
  after_ctx-slept attempt left (none, s) count =
      let called = after_call-slept attempt left (fn s) count in
      omega (arith, called, metered.at_call s)

  round-slept :
      (attempt left : ℕ) (s : S)
      → attempt + left ≡ attempts_of p
      → slept (state_of (round env p fn (attempts_of p) attempt s)) ≤ slept s + pause left
  unfolding round
  round-slept attempt left s count =
      let ended = after_ctx-slept attempt left (env.ctx_err s) count in
      omega (arith, ended, metered.at_ctx s)

  pause_le : (left : ℕ) → pause left ≤ left * m
  pause_le zero = omega arith
  pause_le (suc left) = grind arith

  pause_sum : (left : ℕ) → pause left + (left - 1) * m ≤ left * m
  pause_sum zero = omega arith
  pause_sum (suc left) = grind arith

  -- The rest of the loop after a round.
  choice-slept :
      (left n : ℕ) (next : Err → S → Option Err × S) (x : Round S)
      → slept (state_of x) ≤ n + pause left
      → ((e : Err) (s : S) → slept (next e s).1 ≤ slept s + (left - 1) * m)
      → slept (elim x as (λ _. Option Err × S) [ return r s ↦ (r, s) | again e s ↦ next e s ]).1
        ≤ n + left * m
  unfolding state_of
  choice-slept left n next (return r s) h rest = omega (arith, h, pause_le left)
  choice-slept left n next (again e s) h rest = omega (arith, h, rest e s, pause_sum left)

  do_loop-slept :
      (left attempt : ℕ) (err : Option Err) (s : S)
      → attempt + left ≡ suc (attempts_of p)
      → slept (do_loop env p fn (attempts_of p) left attempt err s).1 ≤ slept s + (left - 1) * m
  unfolding do_loop
  do_loop-slept zero attempt err s count = omega arith
  do_loop-slept (suc left) attempt err s count =
      let one_less : suc left - 1 ≡ left = omega arith in
      rw one_less (
        choice-slept left (slept s)
          (λ e s'. do_loop env p fn (attempts_of p) left (attempt + 1) (some e) s')
          (round env p fn (attempts_of p) attempt s)
          (round-slept attempt left s (omega (arith, count)))
          (λ e s'. do_loop-slept left (attempt + 1) (some e) s' (omega (arith, count))))

  -- With a lawful runtime, a positive cap, and a base delay and a cap below 2 ^ 62 nanoseconds: on a
  -- meter that a timer moves by its length at most, and nothing else moves, `Do` sleeps in all at most
  -- `MaxAttempts` - 1 times the cap `MaxDelay` (not at all where `MaxAttempts` is less than 2).
  pub run_sleeps : (s : S) → slept (run env p fn s).1 ≤ slept s + (attempts_of p - 1) * m
  unfolding run
  run_sleeps s = do_loop-slept (attempts_of p) 1 none s (omega arith)
