-- ===== src/Retry/Exhaustion.antt =====
-- `Do` of internal/retry/retry.go on a function that keeps failing.
use mathlib.Core.Path.{subst}
use llm_gateway_platform.Prelude.{ℕ, ◌≡◌, sym, ◌∙◌, ap, true, Option, none, some}
use llm_gateway_platform.Provider.Errors.{Err, is_retryable}
use llm_gateway_platform.Runtime.{Env}
use llm_gateway_platform.Retry.{Policy, attempts_of, run}
use llm_gateway_platform.Retry.Calls.{
  Counts, Interrupts, Ended, served, interrupted, refused, exhausted, run_ends,
}

-- Whatever the state, the call fails, with a retryable error.
abbrev pub AlwaysFails : {S : Type 0} → (S → Option Err × S) → Type 0
AlwaysFails {S} fn = (s : S) → (e : Err) × ((fn s).0 ≡ some e) × (is_retryable e ≡ true)

module _ {S : Type 0} (env : Env S) (p : Policy) (fn : S → Option Err × S)
    (I : ℕ → S → Type 0) where
  only_exhausted :
      (k : ℕ) (s : S) (r : Option Err)
      → AlwaysFails fn
      → I k s
      → Ended env p fn (λ _. ⊥) k s r
      → I (attempts_of p) s × ((s₀ : S) × (fn s₀ ≡ (r, s)))
  only_exhausted k s r fails h (served s₀ some_call called) =
      let (e, failed, again) = fails s₀ in
      let bad : some e ≡ none = sym failed ∙ ap (λ x. x.0) called in cc
  only_exhausted k s r fails h (interrupted e bad) = absurd bad
  only_exhausted k s r fails h (refused e s₀ some_call called final) =
      let (e', failed, again) = fails s₀ in
      let same : some e' ≡ some e = sym failed ∙ ap (λ x. x.0) called in cc
  only_exhausted k s r fails h (exhausted e s₀ all called) =
      (subst (λ n. I n s) all h, (s₀, called))

  -- If the context is never done and the function always fails with a retryable error, `Do` calls it
  -- exactly `MaxAttempts` times (once where `MaxAttempts` is less than 1) and ends as its last call.
  pub run_exhausts :
      Counts env fn I
      → Interrupts env (λ _. ⊥)
      → AlwaysFails fn
      → (s : S) → I 0 s
      → I (attempts_of p) (run env p fn s).1 × ((s₀ : S) × (fn s₀ ≡ run env p fn s))
  run_exhausts counts never fails s h =
      let (k, fits, at_end, ended) = run_ends env p fn (λ _. ⊥) I counts never s h in
      only_exhausted k (run env p fn s).1 (run env p fn s).0 fails at_end ended
