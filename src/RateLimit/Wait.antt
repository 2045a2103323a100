-- ===== src/RateLimit/Wait.antt =====
-- `Wait` of internal/ratelimit/ratelimit.go: how much fuel is enough.
use llm_gateway_platform.Prelude.{
  ℕ, zero, suc, ◌<◌, ◌≡◌, refl, Bool, true, false, Option, none, some, arith,
}
use llm_gateway_platform.Prelude.Int.{pos_part}
use llm_gateway_platform.Float.{Float}
use llm_gateway_platform.Provider.Errors.{Err}
use llm_gateway_platform.Runtime.{Env}
use llm_gateway_platform.RateLimit.{wait_time, Cell, allow_in, wait}

module _ {F W : Type 0} (f : Float F) (c : Cell F W) (env : Env W) where
  -- How `Wait` ends in the world `w`: an `Allow` has just let the request through, or a sleep that
  -- followed a refused `Allow` was cut short with the error `e`.
  pub data Ends (w : W) : Option Err → Type 0 where
    token : (w₀ : W) → allow_in f c w₀ ≡ (true, w) → Ends w none
    cut :
        (e : Err) (w₀ w₁ : W)
        → allow_in f c w₀ ≡ (false, w₁)
        → env.wait (pos_part (wait_time f (c.get w₁))) w₁ ≡ (some e, w)
        → Ends w (some e)

  abbrev pub EndsIn : Option (Option Err × W) → Type 0
  EndsIn r = (err : Option Err) × (w : W) × (r ≡ some (err, w)) × Ends w err

  -- `sleeps w` bounds the number of times that `Wait` sleeps to the end from `w` on: each such sleep
  -- leaves a world with a smaller bound, or the next `Allow` lets the request through.
  pub record Bounded (sleeps : W → ℕ) : Type 0 where
    pub falls :
        (w w₁ w₂ : W)
        → allow_in f c w ≡ (false, w₁)
        → env.wait (pos_part (wait_time f (c.get w₁))) w₁ ≡ (none, w₂)
        → sleeps w₂ < sleeps w

  wait_again :
      (fuel : ℕ) (w w₁ : W) (x : Option Err × W)
      → allow_in f c w ≡ (false, w₁)
      → env.wait (pos_part (wait_time f (c.get w₁))) w₁ ≡ x
      → ((w₂ : W) → x ≡ (none, w₂) → EndsIn (wait f c env fuel w₂))
      → EndsIn (elim x.0 [ some e ↦ some (some e, x.1) | none ↦ wait f c env fuel x.1 ])
  wait_again fuel w w₁ (some e, w₂) refused slept ih = (some e, w₂, refl, cut e w w₁ refused slept)
  wait_again fuel w w₁ (none, w₂) refused slept ih = ih w₂ refl

  wait_after :
      (fuel : ℕ) (w : W) (x : Bool × W)
      → allow_in f c w ≡ x
      → ((w₁ w₂ : W)
          → x ≡ (false, w₁)
          → env.wait (pos_part (wait_time f (c.get w₁))) w₁ ≡ (none, w₂)
          → EndsIn (wait f c env fuel w₂))
      → EndsIn (elim x.0 [
        | true ↦ some (none, x.1)
        | false ↦ elim (env.wait (pos_part (wait_time f (c.get x.1))) x.1).0 [
          | some e ↦ some (some e, (env.wait (pos_part (wait_time f (c.get x.1))) x.1).1)
          | none ↦ wait f c env fuel (env.wait (pos_part (wait_time f (c.get x.1))) x.1).1
        ]
      ])
  wait_after fuel w (true, w₁) tried ih = (none, w₁, refl, token w tried)
  wait_after fuel w (false, w₁) tried ih =
      wait_again fuel w w₁ (env.wait (pos_part (wait_time f (c.get w₁))) w₁) tried refl
        (λ w₂ e. ih w₁ w₂ refl e)

  -- If the number of whole sleeps is bounded, more fuel than sleeps is enough: `Wait` then ends with
  -- nil right after an `Allow` that let the request through, or with the context's error right after a
  -- refused `Allow`.
  pub wait_ends :
      (sleeps : W → ℕ)
      → Bounded sleeps
      → (fuel : ℕ) (w : W) → sleeps w < fuel
      → EndsIn (wait f c env fuel w)
  unfolding wait
  wait_ends sleeps bounded zero w h = absurd (omega arith)
  wait_ends sleeps bounded (suc fuel) w h =
      wait_after fuel w (allow_in f c w) refl λ w₁ w₂ refused slept.
        wait_ends sleeps bounded fuel w₂ (omega (arith, bounded.falls w w₁ w₂ refused slept))
