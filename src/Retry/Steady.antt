-- ===== src/Retry/Steady.antt =====
-- `Do` of internal/retry/retry.go on a function whose result does not change from call to call.
use mathlib.Core.Option.{some-injective}
use llm_gateway_platform.Prelude.{
  false, ℕ, zero, suc, ◌<◌, ◌≡◌, refl, sym, ◌∙◌, ap, Option, none, some, arith,
}
use llm_gateway_platform.Provider.Errors.{Err, is_retryable}
use llm_gateway_platform.Runtime.{Env}
use llm_gateway_platform.Retry.{
  Policy, attempts_of, return, after_call, after_ctx, round, do_loop, run,
}
use llm_gateway_platform.Retry.Calls.{
  Interrupts, Ended, served, interrupted, refused, exhausted, run_ends, attempts-pos,
}

module _ {S : Type 0} (env : Env S) (p : Policy) (fn : S → Option Err × S)
    (live : Interrupts env (λ _. ⊥)) where
  after_ctx-live :
      (attempts attempt : ℕ) (x : Option Err × S)
      → ((e : Err) → x.0 ≡ some e → ⊥)
      → after_ctx env p fn attempts attempt x ≡ after_call env p fn attempts attempt (fn x.1)
  unfolding after_ctx
  after_ctx-live attempts attempt (none, s) never = refl
  after_ctx-live attempts attempt (some e, s) never = absurd (never e refl)

  after_call-none :
      (attempts attempt : ℕ) (x : Option Err × S)
      → x.0 ≡ none
      → after_call env p fn attempts attempt x ≡ return x.0 x.1
  unfolding after_call
  after_call-none attempts attempt (none, s) h = refl
  after_call-none attempts attempt (some e, s) h = cc

  do_loop-serves :
      (attempts left attempt : ℕ) (err : Option Err) (s : S)
      → 0 < left
      → ((s : S) → (fn s).0 ≡ none)
      → do_loop env p fn attempts left attempt err s ≡ fn (env.ctx_err s).1
  unfolding do_loop round
  do_loop-serves attempts zero attempt err s some_left serves = absurd (omega (arith, some_left))
  do_loop-serves attempts (suc left) attempt err s some_left serves =
      rw
        (
          after_ctx-live attempts attempt (env.ctx_err s) (live.at_ctx s),
          after_call-none attempts attempt (fn (env.ctx_err s).1) (serves (env.ctx_err s).1),
          do_loop,
          round,
        )
        refl

  -- A function that always succeeds is called once.
  pub run-serves : (s : S) → ((s : S) → (fn s).0 ≡ none) → run env p fn s ≡ fn (env.ctx_err s).1
  unfolding run
  run-serves s serves =
      do_loop-serves (attempts_of p) (attempts_of p) 1 none s (attempts-pos p) serves

  after_call-final :
      (attempts attempt : ℕ) (e : Err) (x : Option Err × S)
      → x.0 ≡ some e
      → is_retryable e ≡ false
      → after_call env p fn attempts attempt x ≡ return x.0 x.1
  unfolding after_call
  after_call-final attempts attempt e (none, s) h final = cc
  after_call-final attempts attempt e (some e', s) h final =
      let here : is_retryable e' ≡ false = ap is_retryable (some-injective _ _ h) ∙ final in
      rw here refl

  do_loop-final :
      (attempts left attempt : ℕ) (err : Option Err) (e : Err) (s : S)
      → 0 < left
      → (fn (env.ctx_err s).1).0 ≡ some e
      → is_retryable e ≡ false
      → do_loop env p fn attempts left attempt err s ≡ fn (env.ctx_err s).1
  unfolding do_loop round
  do_loop-final attempts zero attempt err e s some_left h final = absurd (omega (arith, some_left))
  do_loop-final attempts (suc left) attempt err e s some_left h final =
      rw
        (
          after_ctx-live attempts attempt (env.ctx_err s) (live.at_ctx s),
          after_call-final attempts attempt e (fn (env.ctx_err s).1) h final,
          do_loop,
          round,
        )
        refl

  -- A function that fails with an error that is not retryable is called once.
  pub run-final :
      (e : Err) (s : S)
      → (fn (env.ctx_err s).1).0 ≡ some e
      → is_retryable e ≡ false
      → run env p fn s ≡ fn (env.ctx_err s).1
  unfolding run
  run-final e s h final =
      do_loop-final (attempts_of p) (attempts_of p) 1 none e s (attempts-pos p) h final

  fails_with :
      (e : Err) (k : ℕ) (s : S) (result : Option Err)
      → ((s : S) → (fn s).0 ≡ some e)
      → Ended env p fn (λ _. ⊥) k s result
      → result ≡ some e
  fails_with e k s result fails (served s₀ some_call called) =
      let bad : none ≡ some e = sym (ap (λ x. x.0) called) ∙ fails s₀ in cc
  fails_with e k s result fails (interrupted e' bad) = absurd bad
  fails_with e k s result fails (refused e' s₀ some_call called final) =
      sym (ap (λ x. x.0) called) ∙ fails s₀
  fails_with e k s result fails (exhausted e' s₀ all called) = sym (ap (λ x. x.0) called) ∙ fails s₀

  -- A function that always fails with the same error makes `Do` fail with it.
  pub run-fails : (e : Err) (s : S) → ((s : S) → (fn s).0 ≡ some e) → (run env p fn s).0 ≡ some e
  run-fails e s fails =
      let (k, few, none_counted, ended) =
        run_ends env p fn (λ _. ⊥) (λ _ _. Unit)
          (record {
            at_ctx = λ _ _ _. tt;
            at_wait = λ _ _ _ _. tt;
            at_rand = λ _ _ _ _. tt;
            at_call = λ _ _ _. tt;
          })
          live s tt in
      fails_with e k _ _ fails ended
