-- ===== src/Retry.antt =====
-- internal/retry/retry.go: bounded retry with exponential backoff and jitter.
pub mod Backoff
pub mod Calls
pub mod Exhaustion
pub mod Steady
pub mod Trials
pub mod Pause
use llm_gateway_platform.Prelude.{
  ℕ, zero, suc, ◌+◌, ◌-◌, ◌*◌, ◌/◌, ◌<◌, Bool, true, ◌&&◌, ◌||◌, not, Option, none, some, ◌==◌,
  if◌then◌else◌,
}
use llm_gateway_platform.Prelude.Int.{ℤ, pos, negsuc, add_ℤ, ltb_ℤ, half_ℤ, pos_part, int64}
use llm_gateway_platform.Provider.Errors.{Err, is_retryable}
use llm_gateway_platform.Runtime.{Env}

-- A `time.Duration` is an int64 of nanoseconds, and `MaxAttempts` an int.
pub record Policy : Type 0 where
  pub max_attempts : ℤ
  pub base_delay : ℤ
  pub max_delay : ℤ
  pub jitter : Bool

-- `DefaultPolicy`
abbrev pub default_policy : Policy
default_policy = record {
  max_attempts = pos 3;
  base_delay = pos 200_000_000;
  max_delay = pos 5_000_000_000;
  jitter = true;
}

-- `p.MaxDelay > 0 && delay > p.MaxDelay`
abbrev exceeds : Policy → ℤ → Bool
exceeds p delay = ltb_ℤ (pos 0) p.max_delay && ltb_ℤ p.max_delay delay

-- `delay *= 2`
abbrev double : ℤ → ℤ
double delay = int64 (add_ℤ delay delay)

-- The loop of `backoff`, with `k` rounds to go.
unfoldable pub grow : Policy → ℕ → ℤ → ℤ
unfolding int64
grow p zero delay = delay
grow p (suc k) delay =
    let next = double delay in
    let rest = grow p k next in if exceeds p next then p.max_delay else rest

-- `backoff` up to the jitter; `attempt` is at least 1.
unfoldable pub capped : Policy → ℕ → ℤ
unfolding grow
capped p attempt =
    let delay = grow p (attempt - 1) p.base_delay in if exceeds p delay then p.max_delay else delay

-- The number of attempts: `MaxAttempts`, and 1 where that is less than 1.
abbrev pub attempts_of : Policy → ℕ
attempts_of p = if ltb_ℤ p.max_attempts (pos 1) then 1 else pos_part p.max_attempts

-- How a round of the loop ends: `Do` returns, or goes on after an error of `fn`.
pub data Round (S : Type 0) : Type 0 where
  return : Option Err → S → Round S
  again : Err → S → Round S

module _ {S : Type 0} (env : Env S) where
  -- The jitter of `backoff`: `half + time.Duration(rand.Int63n(int64(half)+1))`.
  unfoldable pub jittered : ℤ → S → ℤ × S
  unfolding int64
  jittered delay s =
      let half = half_ℤ delay in
      let (r, s') = env.int63n (pos_part (int64 (add_ℤ half (pos 1)))) s in
      (int64 (add_ℤ half (pos r)), s')

  -- `backoff`
  unfoldable pub backoff : Policy → ℕ → S → ℤ × S
  backoff p attempt s =
      let delay = capped p attempt in
      if p.jitter && ltb_ℤ (pos 0) delay then jittered delay s else (delay, s)

  -- `sleep`
  unfoldable pub sleep : ℤ → S → Option Err × S
  sleep d s = if not (ltb_ℤ (pos 0) d) then (none, s) else env.wait (pos_part d) s

  module _ (p : Policy) (fn : S → Option Err × S) where
    module _ (attempts attempt : ℕ) where
      -- After `sleep`.
      unfoldable pub after_sleep : Err → Option Err × S → Round S
      after_sleep e (some wait_err, s) = return (some wait_err) s
      after_sleep e (none, s) = again e s

      -- After `fn(ctx)`.
      unfoldable pub after_call : Option Err × S → Round S
      after_call (none, s) = return none s
      after_call (some e, s) =
          if not (is_retryable e) || attempt == attempts
          then return (some e) s
          else let (d, s') = backoff p attempt s in after_sleep e (sleep d s')

      -- After `ctx.Err()`.
      unfoldable pub after_ctx : Option Err × S → Round S
      after_ctx (some ctx_err, s) = return (some ctx_err) s
      after_ctx (none, s) = after_call (fn s)

      -- One round of the `for` loop of `Do`.
      unfoldable pub round : S → Round S
      round s = after_ctx (env.ctx_err s)

    -- The loop, with `left` rounds to go; `err` is the last error of `fn`.
    unfoldable pub do_loop : (attempts left attempt : ℕ) → Option Err → S → Option Err × S
    do_loop attempts zero attempt err s = (err, s)
    do_loop attempts (suc left) attempt err s = elim (round attempts attempt s) [
      | return result s' ↦ (result, s')
      | again e s' ↦ do_loop attempts left (attempt + 1) (some e) s'
    ]

    -- `Do`; `do` is a reserved word.
    unfoldable pub run : S → Option Err × S
    run s = do_loop (attempts_of p) (attempts_of p) 1 none s
