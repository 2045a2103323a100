-- ===== src/Retry/Trials.antt =====
-- `Do` of internal/retry/retry.go, against a description without the context, the delays and the state.
use llm_gateway_platform.Prelude.{
  ℕ, zero, suc, ◌+◌, ◌<◌, ◌≡◌, refl, sym, ◌∙◌, ap, not, ◌||◌, Option, none, some, arith, ◌==◌,
  if◌then◌else◌, Bool-cases, inl, inr,
}
use llm_gateway_platform.Provider.Errors.{Err, is_retryable}
use llm_gateway_platform.Runtime.{Env}
use llm_gateway_platform.Retry.{
  Policy, attempts_of, Round, return, again, backoff, sleep, after_sleep, after_call, after_ctx,
  round, do_loop, run,
}
use llm_gateway_platform.Retry.Calls.{
  Counts, Interrupts, attempts-pos, backoff-counts, sleep-counts, sleep_kind,
}

-- How many calls are made in all, and what the last one returns, where `n` calls have been made, the
-- call after `n` others returns `errs n`, and `left` more are allowed: the calls go on while they fail
-- with retryable errors.
unfoldable pub trials : (ℕ → Option Err) → ℕ → ℕ → ℕ × Option Err
trials errs zero n = (n, none)
trials errs (suc left) n =
    let rest = trials errs left (suc n) in
    elim (errs n) [
      | none ↦ (suc n, none)
      | some e ↦ if not (is_retryable e) || left == 0 then (suc n, some e) else rest
    ]

trials-none :
    (errs : ℕ → Option Err) (left n : ℕ) → errs n ≡ none → trials errs (suc left) n ≡ (suc n, none)
unfolding trials
trials-none errs left n h = rw (h, trials) refl

trials-some :
    (errs : ℕ → Option Err) (left n : ℕ) (e : Err)
    → errs n ≡ some e
    → trials errs (suc left) n
      ≡ (if not (is_retryable e) || left == 0 then (suc n, some e) else trials errs left (suc n))
unfolding trials
trials-some errs left n e h = rw (h, trials) refl

module _ {S : Type 0} (env : Env S) (p : Policy) (fn : S → Option Err × S)
    (live : Interrupts env (λ _. ⊥)) (count : S → ℕ) (errs : ℕ → Option Err)
    (counts : Counts env fn (λ n s. count s ≡ n))
    (script : (s : S) → (fn s).0 ≡ errs (count s)) where
  -- What a round after `n` calls, with `left` more rounds to go, must be like.
  data Follows (left n : ℕ) : Round S → Type 0 where
    over :
        (result : Option Err) (s : S)
        → (count s, result) ≡ trials errs (suc left) n
        → Follows left n (return result s)
    onward :
        (e : Err) (s : S)
        → 0 < left
        → count s ≡ suc n
        → trials errs (suc left) n ≡ trials errs left (suc n)
        → Follows left n (again e s)

  module _ (attempts attempt left n : ℕ) (at : attempt + left ≡ attempts) where
    last_round : (attempt == attempts) ≡ (left == 0)
    last_round = ground arith

    after_sleep-Follows :
        (e : Err) (x : Option Err × S)
        → ((w : Err) → x.0 ≡ some w → ⊥)
        → 0 < left
        → count x.1 ≡ suc n
        → trials errs (suc left) n ≡ trials errs left (suc n)
        → Follows left n (after_sleep env p fn attempts attempt e x)
    unfolding after_sleep
    after_sleep-Follows e (some w, s) never more counted same = absurd (never w refl)
    after_sleep-Follows e (none, s) never more counted same = onward e s more counted same

    after_call-Follows :
        (x : Option Err × S)
        → count x.1 ≡ suc n
        → x.0 ≡ errs n
        → Follows left n (after_call env p fn attempts attempt x)
    unfolding after_call
    after_call-Follows (none, s) counted called =
        over none s (ap (λ k. (k, none)) counted ∙ sym (trials-none errs left n (sym called)))
    after_call-Follows (some e, s) counted called =
        elim (Bool-cases (not (is_retryable e) || left == 0)) [
          | inl stops ↦
              rw (last_round, stops)
                (over (some e) s (
                  ap (λ k. (k, some e)) counted
                  ∙ sym (trials-some errs left n e (sym called) ∙ rw stops refl)))
          | inr on ↦
              let (d, s') = backoff env p attempt s in
              rw (last_round, on)
                (after_sleep-Follows e (sleep env d s')
                  (sleep_kind env p fn (λ _. ⊥) (λ n s. count s ≡ n) counts live d s')
                  (ground (arith, on))
                  (sleep-counts env p fn (λ _. ⊥) (λ n s. count s ≡ n) counts live d (suc n) s'
                    (backoff-counts env p fn (λ _. ⊥) (λ n s. count s ≡ n) counts live attempt
                      (suc n) s counted))
                  (trials-some errs left n e (sym called) ∙ rw on refl))
        ]

    after_ctx-Follows :
        (x : Option Err × S)
        → ((e : Err) → x.0 ≡ some e → ⊥)
        → count x.1 ≡ n
        → Follows left n (after_ctx env p fn attempts attempt x)
    unfolding after_ctx
    after_ctx-Follows (some e, s) never counted = absurd (never e refl)
    after_ctx-Follows (none, s) never counted =
        after_call-Follows (fn s) (counts.at_call n s counted) (script s ∙ ap errs counted)

    round-Follows : (s : S) → count s ≡ n → Follows left n (round env p fn attempts attempt s)
    unfolding round
    round-Follows s counted =
        after_ctx-Follows (env.ctx_err s) (live.at_ctx s) (counts.at_ctx n s counted)

  -- The calls made, and the result.
  abbrev seen : Option Err × S → ℕ × Option Err
  seen (result, s) = (count s, result)

  choice-seen :
      (left n : ℕ) (next : Err → S → Option Err × S) (x : Round S)
      → Follows left n x
      → ((e : Err) (s : S)
          → 0 < left
          → count s ≡ suc n
          → seen (next e s) ≡ trials errs left (suc n))
      → seen (elim x [ return r s ↦ (r, s) | again e s ↦ next e s ]) ≡ trials errs (suc left) n
  choice-seen left n next x (over result s same) ih = same
  choice-seen left n next x (onward e s more counted same) ih = ih e s more counted ∙ sym same

  do_loop-seen :
      (left attempt n : ℕ) (err : Option Err) (s : S)
      → 0 < left
      → attempt + left ≡ suc (attempts_of p)
      → count s ≡ n
      → seen (do_loop env p fn (attempts_of p) left attempt err s) ≡ trials errs left n
  unfolding do_loop
  do_loop-seen zero attempt n err s some_left at counted = absurd (omega arith)
  do_loop-seen (suc left) attempt n err s some_left at counted =
      choice-seen left n (λ e s'. do_loop env p fn (attempts_of p) left (attempt + 1) (some e) s')
        (round env p fn (attempts_of p) attempt s)
        (round-Follows (attempts_of p) attempt left n (omega arith) s counted)
        (λ e s' more counted'.
          do_loop-seen left (attempt + 1) (suc n) (some e) s' more (omega arith) counted')

  -- Where the context is never done, and the calls of a function are counted and return what a script
  -- says: `Do` makes the calls that `trials` lists for `MaxAttempts`, no more and no fewer, and returns
  -- what the last of them returned. So it goes on after retryable errors only, whatever the delays are.
  pub run-trials :
      (s : S)
      → (count (run env p fn s).1, (run env p fn s).0) ≡ trials errs (attempts_of p) (count s)
  unfolding run
  run-trials s = do_loop-seen (attempts_of p) 1 (count s) none s (attempts-pos p) (omega arith) refl
