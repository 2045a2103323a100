-- ===== src/RateLimit.antt =====
-- internal/ratelimit/ratelimit.go: the token bucket. A method holds the mutex from its start to its
-- end (`Wait` between two sleeps), so it is one step on the limiter.
pub mod Bounds
pub mod Burst
pub mod Throughput
pub mod Wait
use llm_gateway_platform.Prelude.{
  ℕ, zero, suc, ◌+◌, ◌-◌, ◌≤◌, ◌<◌, ◌^◌, ◌*◌, Bool, true, false, not, Option, none, some, leb,
  if◌then◌else◌,
}
use llm_gateway_platform.Prelude.Int.{ℤ, pos, negsuc, sub_ℤ, ltb_ℤ, pos_part, neg_part, int64}
use llm_gateway_platform.Float.{Float}
use llm_gateway_platform.Provider.Errors.{Err}
use llm_gateway_platform.Runtime.{Env}

-- `Limiter`, but for its mutex and its clock `now`. A time is a number of nanoseconds.
pub record Limiter (F : Type 0) : Type 0 where
  pub rate : F
  pub burst : F
  pub tokens : F
  pub last : ℤ

-- `now.Sub(l.last)`: the difference of two times, which stops at the ends of int64.
abbrev pub sub_time : ℤ → ℤ → ℤ
sub_time t u =
    let d = sub_ℤ t u in
    if leb (2 ^ 63) (pos_part d)
    then pos (2 ^ 63 - 1)
    else if leb (2 ^ 63) (neg_part d)
    then negsuc (2 ^ 63 - 1)
    else d

module _ {F : Type 0} (f : Float F) where
  open f use {zero as nought, one, add, sub, mul, div, lt, le, of_int, to_int, seconds}

  -- `New`, at the time `now`
  unfoldable pub new : F → ℤ → ℤ → Limiter F
  new rate_per_second burst now =
      let rate = if le rate_per_second nought then one else rate_per_second in
      let burst' = if ltb_ℤ burst (pos 1) then pos 1 else burst in
      record { rate = rate; burst = of_int burst'; tokens = of_int burst'; last = now }

  -- `l.tokens += elapsed * l.rate`, and the cap
  abbrev accrue : F → ℤ → Limiter F → Limiter F
  accrue elapsed now l =
      let tokens = add l.tokens (mul elapsed l.rate) in
      record l { tokens = if lt l.burst tokens then l.burst else tokens; last = now }

  -- `refill`, where the clock reads `now`
  unfoldable pub refill : ℤ → Limiter F → Limiter F
  refill now l =
      let elapsed = seconds (sub_time now l.last) in
      if le elapsed nought then l else accrue elapsed now l

  -- `if l.tokens >= 1 { l.tokens--; … }`
  unfoldable pub spend : Limiter F → Bool × Limiter F
  spend l = if le one l.tokens then (true, record l { tokens = sub l.tokens one }) else (false, l)

  -- `Allow`, where the clock reads `now`
  unfoldable pub allow : ℤ → Limiter F → Bool × Limiter F
  unfolding refill spend
  allow now l = spend (refill now l)

  -- The time that `Wait` sleeps for.
  unfoldable pub wait_time : Limiter F → ℤ
  wait_time l =
      let wait = to_int (mul (div (sub one l.tokens) l.rate) (of_int (pos 1_000_000_000))) in
      if not (ltb_ℤ (pos 0) wait) then pos 1_000_000 else wait

-- Where a limiter object lives: in the world that the goroutines share.
pub record Cell (F W : Type 0) : Type 0 where
  pub get : W → Limiter F
  pub put : Limiter F → W → W
  pub now : W → ℤ × W  -- the limiter's clock

module _ {F W : Type 0} (f : Float F) (c : Cell F W) where
  -- `Allow` on a limiter in the world
  unfoldable pub allow_in : W → Bool × W
  allow_in w = let (now, w₁) = c.now w in let (ok, l) = allow f now (c.get w₁) in (ok, c.put l w₁)

  module _ (env : Env W) where
    -- `Wait`. The loop may turn for ever, so it runs on fuel: `none` says that it has slept as often as
    -- the fuel allows. The mutex is free during a sleep: `env.wait` may change the limiter.
    unfoldable pub wait : ℕ → W → Option (Option Err × W)
    unfolding allow_in
    wait zero w = none
    wait (suc fuel) w =
        let (ok, w₁) = allow_in w in
        elim ok [
          | true ↦ some (none, w₁)
          | false ↦
              let (err, w₂) = env.wait (pos_part (wait_time f (c.get w₁))) w₁ in
              elim err [ some e ↦ some (some e, w₂) | none ↦ wait fuel w₂ ]
        ]
