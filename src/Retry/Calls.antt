-- ===== src/Retry/Calls.antt =====
-- What `Do` of internal/retry/retry.go promises: how often it calls its function, and how it ends.
use llm_gateway_platform.Prelude.{
  ℕ, zero, suc, ◌+◌, ◌≤◌, ◌<◌, ◌≡◌, refl, ◌≢◌, ◌⊎◌, inl, inr, false, not, ◌||◌, ◌&&◌, Option, none,
  some, arith, ◌==◌, Bool-cases,
}
use llm_gateway_platform.Prelude.Int.{ℤ, pos, ltb_ℤ}
use llm_gateway_platform.Provider.Errors.{Err, is_retryable}
use llm_gateway_platform.Runtime.{Env}
use llm_gateway_platform.Retry.{
  Policy, attempts_of, capped, Round, return, again, jittered, backoff, sleep, after_sleep,
  after_call, after_ctx, round, do_loop, run,
}

-- `I n s` says of the state that `n` calls have been made: a call of `fn` counts one, and the
-- context, the timers and the random numbers count none.
pub record Counts {S : Type 0} (env : Env S) (fn : S → Option Err × S) (I : ℕ → S → Type 0)
    : Type 0 where
  pub at_ctx : (n : ℕ) (s : S) → I n s → I n (env.ctx_err s).1
  pub at_wait : (d n : ℕ) (s : S) → I n s → I n (env.wait d s).1
  pub at_rand : (b n : ℕ) (s : S) → I n s → I n (env.int63n b s).1
  pub at_call : (n : ℕ) (s : S) → I n s → I (suc n) (fn s).1

-- The errors with which the context may cut `Do` short satisfy `C`.
pub record Interrupts {S : Type 0} (env : Env S) (C : Err → Type 0) : Type 0 where
  pub at_ctx : (s : S) (e : Err) → (env.ctx_err s).0 ≡ some e → C e
  pub at_wait : (d : ℕ) (s : S) (e : Err) → (env.wait d s).0 ≡ some e → C e

pub attempts-pos : (p : Policy) → 0 < attempts_of p
attempts-pos p = ground arith

module _ {S : Type 0} (env : Env S) (p : Policy) (fn : S → Option Err × S) (C : Err → Type 0) where
  -- How `Do` may end after `k` calls, in the state `s`.
  pub data Ended (k : ℕ) (s : S) : Option Err → Type 0 where
    served : (s₀ : S) → 0 < k → fn s₀ ≡ (none, s) → Ended k s none
    interrupted : (e : Err) → C e → Ended k s (some e)
    refused :
        (e : Err) (s₀ : S)
        → 0 < k
        → fn s₀ ≡ (some e, s)
        → is_retryable e ≡ false
        → Ended k s (some e)
    exhausted : (e : Err) (s₀ : S) → k ≡ attempts_of p → fn s₀ ≡ (some e, s) → Ended k s (some e)

  module _ (I : ℕ → S → Type 0) (counts : Counts env fn I) (cuts : Interrupts env C) where
    pub backoff-counts : (a n : ℕ) (s : S) → I n s → I n (backoff env p a s).1
    unfolding backoff jittered
    backoff-counts a n s h = elim (Bool-cases (p.jitter && ltb_ℤ (pos 0) (capped p a))) [
      | inl e ↦ rw e (counts.at_rand _ n s h)
      | inr e ↦ rw e h
    ]

    pub sleep-counts : (d : ℤ) (n : ℕ) (s : S) → I n s → I n (sleep env d s).1
    unfolding sleep
    sleep-counts d n s h = elim (Bool-cases (ltb_ℤ (pos 0) d)) [
      | inl e ↦ rw e (counts.at_wait _ n s h)
      | inr e ↦ rw e h
    ]

    pub sleep_kind : (d : ℤ) (s : S) (e : Err) → (sleep env d s).0 ≡ some e → C e
    unfolding sleep
    sleep_kind d s e h = elim (Bool-cases (ltb_ℤ (pos 0) d)) [
      | inl t ↦ cuts.at_wait _ s e (rw t at h)
      | inr t ↦ let bad : none ≡ some e = rw t at h in cc
    ]

    module _ (attempts attempt n : ℕ) where
      -- How a round that began after `n` calls may end.
      data RoundEnds : Round S → Type 0 where
        cut :
            (k : ℕ) (e : Err) (s : S)
            → n ≤ k
            → k ≤ suc n
            → I k s
            → C e
            → RoundEnds (return (some e) s)
        done : (s₀ s : S) → fn s₀ ≡ (none, s) → I (suc n) s → RoundEnds (return none s)
        stop :
            (e : Err) (s₀ s : S)
            → fn s₀ ≡ (some e, s)
            → I (suc n) s
            → (is_retryable e ≡ false) ⊎ (attempt ≡ attempts)
            → RoundEnds (return (some e) s)
        more : (e : Err) (s : S) → I (suc n) s → attempt ≢ attempts → RoundEnds (again e s)

      after_sleep-ends :
          (e : Err) (x : Option Err × S)
          → I (suc n) x.1
          → ((w : Err) → x.0 ≡ some w → C w)
          → attempt ≢ attempts
          → RoundEnds (after_sleep env p fn attempts attempt e x)
      unfolding after_sleep
      after_sleep-ends e (some w, s) h kind left =
          cut (suc n) w s (omega arith) (omega arith) h (kind w refl)
      after_sleep-ends e (none, s) h kind left = more e s h left

      after_call-ends :
          (s₀ : S) (x : Option Err × S)
          → fn s₀ ≡ x
          → I (suc n) x.1
          → RoundEnds (after_call env p fn attempts attempt x)
      unfolding after_call
      after_call-ends s₀ (none, s) called h = done s₀ s called h
      after_call-ends s₀ (some e, s) called h =
          elim (Bool-cases (not (is_retryable e) || attempt == attempts)) [
            | inl t ↦ rw t (stop e s₀ s called h (ground arith))
            | inr t ↦
                let (d, s') = backoff env p attempt s in
                rw t (
                  after_sleep-ends e (sleep env d s')
                    (sleep-counts d (suc n) s' (backoff-counts attempt (suc n) s h))
                    (sleep_kind d s') (ground arith))
          ]

      after_ctx-ends :
          (x : Option Err × S)
          → I n x.1
          → ((e : Err) → x.0 ≡ some e → C e)
          → RoundEnds (after_ctx env p fn attempts attempt x)
      unfolding after_ctx
      after_ctx-ends (some e, s) h kind = cut n e s (omega arith) (omega arith) h (kind e refl)
      after_ctx-ends (none, s) h kind = after_call-ends s (fn s) refl (counts.at_call n s h)

      round-ends : (s : S) → I n s → RoundEnds (round env p fn attempts attempt s)
      unfolding round
      round-ends s h = after_ctx-ends (env.ctx_err s) (counts.at_ctx n s h) (cuts.at_ctx s)

    -- `Do` has ended after some number of calls, not above the number of attempts.
    abbrev pub Result : Option Err × S → Type 0
    Result x = (k : ℕ) × (k ≤ attempts_of p) × I k x.1 × Ended k x.1 x.0

    -- The loop's choice after a round, with `next` for the rest of the loop.
    choice-ends :
        (attempt n : ℕ) (next : Err → S → Option Err × S) (x : Round S)
        → attempt ≡ suc n
        → attempt ≤ attempts_of p
        → RoundEnds (attempts_of p) attempt n x
        → ((e : Err) (s : S) → I (suc n) s → attempt ≢ attempts_of p → Result (next e s))
        → Result (elim x [ return r s ↦ (r, s) | again e s ↦ next e s ])
    choice-ends attempt n next x at fits (cut k e s low high h kind) ih =
        (k, omega arith, h, interrupted e kind)
    choice-ends attempt n next x at fits (done s₀ s called h) ih =
        (suc n, omega arith, h, served s₀ (omega arith) called)
    choice-ends attempt n next x at fits (stop e s₀ s called h (inl final)) ih =
        (suc n, omega arith, h, refused e s₀ (omega arith) called final)
    choice-ends attempt n next x at fits (stop e s₀ s called h (inr last)) ih =
        (suc n, omega arith, h, exhausted e s₀ (omega arith) called)
    choice-ends attempt n next x at fits (more e s h left) ih = ih e s h left

    do_loop-ends :
        (left attempt n : ℕ) (err : Option Err) (s : S)
        → attempt ≡ suc n
        → left + n ≡ attempts_of p
        → 0 < left
        → I n s
        → Result (do_loop env p fn (attempts_of p) left attempt err s)
    unfolding do_loop
    do_loop-ends zero attempt n err s at count some_left h = absurd (omega arith)
    do_loop-ends (suc left) attempt n err s at count some_left h =
        choice-ends attempt n
          (λ e s'. do_loop env p fn (attempts_of p) left (attempt + 1) (some e) s')
          (round env p fn (attempts_of p) attempt s) at (omega arith)
          (round-ends (attempts_of p) attempt n s h)
          λ e s' h' more.
            do_loop-ends left (attempt + 1) (suc n) (some e) s' (omega arith) (omega arith)
              (omega arith) h'

  -- `Do` returns after at most `MaxAttempts` calls of its function (1 where `MaxAttempts` is less),
  -- and in one of four ways: with nil, which its last call returned; with an error of the context;
  -- with the error of its last call, which is not retryable; or with the error of its last call, the
  -- number of calls being `MaxAttempts`.
  pub run_ends :
      (I : ℕ → S → Type 0)
      → Counts env fn I
      → Interrupts env C
      → (s : S) → I 0 s
      → (k : ℕ) × (k ≤ attempts_of p)
        × I k (run env p fn s).1
        × Ended k (run env p fn s).1 (run env p fn s).0
  unfolding run
  run_ends I counts cuts s h =
      do_loop-ends I counts cuts (attempts_of p) 1 0 none s refl (omega arith) (attempts-pos p) h
