-- ===== src/Tests/RateLimit.antt =====
-- The token bucket at fixed inputs, over decimal fixed-point numbers.
use llm_gateway_platform.Prelude.{
  ℕ, zero, suc, ◌<◌, ◌≡◌, refl, ap, true, false, Option, none, some, [], ◌∷◌, arith,
}
use llm_gateway_platform.Prelude.Int.{ℤ, pos}
use llm_gateway_platform.Float.Nano.{nano, nano-IsIeee}
use llm_gateway_platform.Provider.Errors.{Err, deadline_exceeded}
use llm_gateway_platform.Runtime.{Env}
use llm_gateway_platform.RateLimit.{
  Limiter, new, refill, spend, allow, Cell, allow_in, wait, wait_time,
}
use llm_gateway_platform.RateLimit.Bounds.{IsValid, allow-IsValid}
use llm_gateway_platform.RateLimit.Burst.{budget, answers, new_lets_burst_through}

-- Two requests a second, with a burst of three, made at the time 0.
abbrev pub bucket : Limiter ℤ
bucket = record {
  rate = pos 2_000_000_000;
  burst = pos 3_000_000_000;
  tokens = pos 3_000_000_000;
  last = pos 0;
}

new-bucket : new nano (pos 2_000_000_000) (pos 3) (pos 0) ≡ bucket
unfolding new
new-bucket = refl

-- Three at once, then one more after half a second.
bucket-answers :
    answers nano (pos 0 ∷ pos 0 ∷ pos 0 ∷ pos 0 ∷ pos 499_999_999 ∷ pos 500_000_000 ∷ []) bucket
    ≡ true ∷ true ∷ true ∷ false ∷ false ∷ true ∷ []
unfolding answers allow refill spend
bucket-answers = refl

pub bucket-IsValid : IsValid nano bucket
bucket-IsValid = record { rate_pos = refl; room = refl; nonneg = refl; capped = refl }

allow-IsValid_example : IsValid nano (allow nano (pos 500_000_000) bucket).1
allow-IsValid_example = allow-IsValid nano nano-IsIeee (pos 500_000_000) bucket bucket-IsValid

new_lets_burst_through_example :
    answers nano (pos 5 ∷ pos 5 ∷ pos 4 ∷ []) (new nano (pos 1_000_000_000) (pos 2) (pos 5))
    ≡ budget 2 (pos 5 ∷ pos 5 ∷ pos 4 ∷ [])
new_lets_burst_through_example =
    new_lets_burst_through nano nano-IsIeee (pos 1_000_000_000) 2 (pos 5)
      (pos 5 ∷ pos 5 ∷ pos 4 ∷ []) (omega arith) (omega arith) (refl, (refl, (refl, tt)))

-- A world that holds a limiter, whose clock stands still, and the number of sleeps after which the
-- context is done.
abbrev pub Shop : Type 0
Shop = Limiter ℤ × ℕ

abbrev pub shop_cell : Cell ℤ Shop
shop_cell = record { get = λ s. s.0; put = λ l s. (l, s.1); now = λ s. (pos 0, s) }

abbrev doze : Shop → Option Err × Shop
doze (l, zero) = (some deadline_exceeded, (l, zero))
doze (l, suc k) = (none, (l, k))

abbrev pub sleepy : Env Shop
sleepy = record { ctx_err = λ s. (none, s); wait = λ d s. doze s; int63n = λ n s. (0, s) }

doze_falls : (s s' : Shop) → doze s ≡ (none, s') → s'.1 < s.1
doze_falls (l, zero) s' h = let bad : some deadline_exceeded ≡ none = ap (λ x. x.0) h in cc
doze_falls (l, suc k) s' h = rw (← ap (λ x. x.1.1) h) (omega arith)

abbrev pub empty_bucket : Limiter ℤ
empty_bucket = record bucket { tokens = pos 0 }

pub empty_bucket-IsValid : IsValid nano empty_bucket
empty_bucket-IsValid = record { rate_pos = refl; room = refl; nonneg = refl; capped = refl }

wait_runs :
    (wait nano shop_cell sleepy 5 (bucket, 2)
      ≡ some (none, (record bucket { tokens = pos 2_000_000_000 }, 2)))
    × (wait nano shop_cell sleepy 5 (empty_bucket, 2)
        ≡ some (some deadline_exceeded, (empty_bucket, 0)))
unfolding wait allow_in allow refill spend wait_time
wait_runs = (refl, refl)
