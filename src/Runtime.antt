-- ===== src/Runtime.antt =====
-- What the code takes from the Go runtime while a request runs: its `context.Context`, the timers and
-- `math/rand`. `W` is the state of the world outside the model, which every call may change: time
-- passes, other goroutines run. A call thus returns the world that it leaves.
use llm_gateway_platform.Prelude.{ℕ, ◌<◌, ◌≡◌, ◌⊎◌, Option, some}
use llm_gateway_platform.Provider.Errors.{Err, canceled, deadline_exceeded}

pub record Env (W : Type 0) : Type 0 where
  -- ctx.Err()
  pub ctx_err : W → Option Err × W
  -- select { case <-ctx.Done(): ctx.Err() case <-timer.C: nil } for a timer of that many nanoseconds
  pub wait : ℕ → W → Option Err × W
  -- rand.Int63n(n), for n > 0
  pub int63n : ℕ → W → ℕ × W

abbrev pub IsContextError : Err → Type 0
IsContextError e = (e ≡ canceled) ⊎ (e ≡ deadline_exceeded)

-- What the packages `context` and `math/rand` document.
pub record IsLawful {W : Type 0} (env : Env W) : Type 0 where
  pub ctx_err_kind : (w : W) (e : Err) → (env.ctx_err w).0 ≡ some e → IsContextError e
  pub wait_kind : (n : ℕ) (w : W) (e : Err) → (env.wait n w).0 ≡ some e → IsContextError e
  pub int63n-lt : (n : ℕ) (w : W) → 0 < n → (env.int63n n w).0 < n
