-- ===== src/Tests/Retry.antt =====
-- Retries at fixed inputs.
use llm_gateway_platform.Prelude.{
  ℕ, zero, suc, ◌+◌, ◌-◌, ◌*◌, ◌/◌, ◌^◌, ◌≤◌, min, ◌≡◌, refl, true, false, Option, none, some,
  arith,
}
use llm_gateway_platform.Prelude.Int.{pos}
use llm_gateway_platform.Provider.Errors.{Err, is_retryable, new_http_error}
use llm_gateway_platform.Runtime.{Env, IsLawful}
use llm_gateway_platform.Retry.{
  Policy, default_policy, attempts_of, capped, jittered, backoff, sleep, after_sleep, after_call,
  after_ctx, round, do_loop, run,
}
use llm_gateway_platform.Retry.Backoff.{backoff_bounds, uncapped_wraps_to_zero}
use llm_gateway_platform.Retry.Calls.{Counts, Interrupts, Ended, run_ends}
use llm_gateway_platform.Retry.Pause.{SleepMeter, run_sleeps}
use llm_gateway_platform.Retry.Trials.{trials, run-trials}
use llm_gateway_platform.Retry.Exhaustion.{run_exhausts}

-- A world that only counts the calls; its context is never done.
abbrev pub quiet : Env ℕ
quiet = record { ctx_err = λ w. (none, w); wait = λ d w. (none, w); int63n = λ n w. (0, w) }

pub quiet-IsLawful : IsLawful quiet
quiet-IsLawful = record {
  ctx_err_kind = λ w e h. cc;
  wait_kind = λ n w e h. cc;
  int63n-lt = λ n w h. h;
}

pub quiet-Interrupts : Interrupts quiet (λ _. ⊥)
quiet-Interrupts = record { at_ctx = λ s e h. cc; at_wait = λ d s e h. cc }

-- A function that always answers 503.
abbrev overloaded : ℕ → Option Err × ℕ
overloaded w = (some (new_http_error "openai" 503 "" "overloaded"), suc w)

overloaded-Counts : Counts quiet overloaded (λ n s. s ≡ n)
overloaded-Counts = record {
  at_ctx = λ n s h. h;
  at_wait = λ d n s h. h;
  at_rand = λ b n s h. h;
  at_call = λ n s h. omega (arith, h);
}

overloaded_runs :
    run quiet default_policy overloaded 0 ≡ (some (new_http_error "openai" 503 "" "overloaded"), 3)
unfolding run do_loop round after_ctx after_call after_sleep backoff jittered sleep capped
    is_retryable new_http_error
overloaded_runs = refl

backoff_bounds_example :
    (n : ℕ) × ((backoff quiet default_policy 4 0).0 ≡ pos n)
    × (min (200_000_000 * 2 ^ (4 - 1)) 5_000_000_000 / 2 ≤ n)
    × (n ≤ min (200_000_000 * 2 ^ (4 - 1)) 5_000_000_000)
    × (default_policy.jitter ≡ false → n ≡ min (200_000_000 * 2 ^ (4 - 1)) 5_000_000_000)
backoff_bounds_example =
    backoff_bounds default_policy 5_000_000_000 refl (omega arith) (omega arith) quiet
      quiet-IsLawful 200_000_000 4 0 refl (omega arith)

abbrev uncapped : Policy
uncapped = record default_policy { max_delay = pos 0 }

uncapped_wraps_to_zero_example : capped uncapped (65 + 2) ≡ pos 0
uncapped_wraps_to_zero_example =
    uncapped_wraps_to_zero uncapped 200_000_000 2 refl (omega arith) refl

run_ends_example :
    (k : ℕ) × (k ≤ attempts_of default_policy)
    × ((run quiet default_policy overloaded 0).1 ≡ k)
    × Ended quiet default_policy overloaded
        (λ _. ⊥)
        k
        (run quiet default_policy overloaded 0).1
        (run quiet default_policy overloaded 0).0
run_ends_example =
    run_ends quiet default_policy overloaded (λ _. ⊥) (λ n s. s ≡ n) overloaded-Counts
      quiet-Interrupts 0 refl

overloaded_retryable : (s : ℕ) → (e : Err) × ((overloaded s).0 ≡ some e) × (is_retryable e ≡ true)
unfolding is_retryable new_http_error
overloaded_retryable s = (new_http_error "openai" 503 "" "overloaded", refl, refl)

run_exhausts_example :
    ((run quiet default_policy overloaded 0).1 ≡ attempts_of default_policy)
    × ((s₀ : ℕ) × (overloaded s₀ ≡ run quiet default_policy overloaded 0))
run_exhausts_example =
    run_exhausts quiet default_policy overloaded (λ n s. s ≡ n) overloaded-Counts quiet-Interrupts
      overloaded_retryable 0 refl

-- A world that adds up the timers, and a function that always answers 503.
abbrev drowsy : Env ℕ
drowsy = record { ctx_err = λ w. (none, w); wait = λ d w. (none, w + d); int63n = λ n w. (0, w) }

drowsy-IsLawful : IsLawful drowsy
drowsy-IsLawful = record {
  ctx_err_kind = λ w e h. cc;
  wait_kind = λ n w e h. cc;
  int63n-lt = λ n w h. h;
}

abbrev busy : ℕ → Option Err × ℕ
busy w = (some (new_http_error "openai" 503 "" "overloaded"), w)

busy-SleepMeter : SleepMeter drowsy busy (λ w. w)
busy-SleepMeter = record {
  at_ctx = λ w. refl;
  at_rand = λ n w. refl;
  at_call = λ w. refl;
  at_wait = λ d w. omega arith;
}

run_sleeps_example :
    (run drowsy default_policy busy 0).1 ≤ 0 + (attempts_of default_policy - 1) * 5_000_000_000
run_sleeps_example =
    run_sleeps drowsy drowsy-IsLawful default_policy 5_000_000_000 200_000_000 refl (omega arith)
      (omega arith) refl (omega arith) busy (λ w. w) busy-SleepMeter 0

-- A function that answers 503 and then 400.
abbrev script : ℕ → Option Err
script zero = some (new_http_error "openai" 503 "" "overloaded")
script (suc n) = some (new_http_error "openai" 400 "" "bad request")

abbrev scripted : ℕ → Option Err × ℕ
scripted w = (script w, suc w)

scripted-Counts : Counts quiet scripted (λ n s. s ≡ n)
scripted-Counts = record {
  at_ctx = λ n s h. h;
  at_wait = λ d n s h. h;
  at_rand = λ b n s h. h;
  at_call = λ n s h. omega (arith, h);
}

run-trials_example :
    ◌≡◌ {A = ℕ × Option Err}
      ((run quiet default_policy scripted 0).1, (run quiet default_policy scripted 0).0)
      (2, some (new_http_error "openai" 400 "" "bad request"))
unfolding trials is_retryable new_http_error
run-trials_example =
    run-trials quiet default_policy scripted quiet-Interrupts (λ s. s) script scripted-Counts
      (λ s. refl) 0
