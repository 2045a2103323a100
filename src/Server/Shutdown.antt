-- ===== src/Server/Shutdown.antt =====
-- What `Start` of internal/server/server.go promises, whatever the order of its goroutines' steps.
use mathlib.Core.Path.{subst}
use llm_gateway_platform.Prelude.{
  ℕ, suc, ◌+◌, ◌≤◌, ◌<◌, ◌≡◌, refl, sym, ◌≢◌, ◌⊎◌, inl, inr, Bool, true, false, Option, none, [],
  arith, All, Bool-cases,
}
use llm_gateway_platform.Provider.Errors.{Err}
use llm_gateway_platform.Server.Lifecycle.{
  Listener, listening, sending, ended, Caller, selecting, draining, returned, State, capacity,
  to_send, Left, Step, cancel, serve_fails, serve_closes, send, receive, drain, shut_down, started,
  Run, begin, later,
}

-- The goroutine is not about to send nil.
abbrev SendsError : Listener → Type 0
SendsError (sending v) = v ≢ none
SendsError listening = Unit
SendsError ended = Unit

-- The goroutine's send is still to come.
abbrev Unsent : Listener → Type 0
Unsent ended = ⊥
Unsent listening = Unit
Unsent (sending v) = Unit

-- The invariant. The buffer is empty until the goroutine has sent; nothing but errors is sent before
-- `Start` has left its `select`; and `Start` drains, or returns nil, only on a context that is done.
record Inv (s : State) : Type 0 where
  pub unsent : Unsent s.listener → s.channel ≡ []
  pub sends_error : s.caller ≡ selecting → SendsError s.listener
  pub holds_errors : s.caller ≡ selecting → All (λ v. v ≢ none) s.channel
  pub drains : s.caller ≡ draining → s.ctx_done ≡ true
  pub returns_nil : s.caller ≡ returned none → s.ctx_done ≡ true

started-Inv : Inv started
started-Inv = record {
  unsent = λ _. refl;
  sends_error = λ _. tt;
  holds_errors = λ _. tt;
  drains = λ h. cc;
  returns_nil = λ h. cc;
}

Step-Inv : (s t : State) → Inv s → Step s t → Inv t
unfolding to_send
Step-Inv s t inv (cancel live) = record {
  unsent = inv.unsent;
  sends_error = inv.sends_error;
  holds_errors = inv.holds_errors;
  drains = λ _. refl;
  returns_nil = λ _. refl;
}
Step-Inv s t inv (serve_fails e at) = record {
  unsent = λ _. inv.unsent (subst Unsent (sym at) tt);
  sends_error = λ _ h. cc;
  holds_errors = inv.holds_errors;
  drains = inv.drains;
  returns_nil = inv.returns_nil;
}
Step-Inv s t inv (serve_closes at left) = record {
  unsent = λ _. inv.unsent (subst Unsent (sym at) tt);
  sends_error = λ h. absurd (subst Left h left);
  holds_errors = inv.holds_errors;
  drains = inv.drains;
  returns_nil = inv.returns_nil;
}
Step-Inv s t inv (send v at room) = record {
  unsent = λ h. absurd h;
  sends_error = λ _. tt;
  holds_errors =
      λ h. rw (inv.unsent (subst Unsent (sym at) tt)) (subst SendsError at (inv.sends_error h), tt);
  drains = inv.drains;
  returns_nil = inv.returns_nil;
}
Step-Inv s t inv (receive v rest at full) = record {
  unsent = λ h. let bad = inv.unsent h in cc;
  sends_error = λ h. cc;
  holds_errors = λ h. cc;
  drains = λ h. cc;
  returns_nil = λ h.
      let (error, _) = subst (All (λ v. v ≢ none)) full (inv.holds_errors at) in
      absurd (error (cc h));
}
Step-Inv s t inv (drain at done) = record {
  unsent = inv.unsent;
  sends_error = λ h. cc;
  holds_errors = λ h. cc;
  drains = λ _. done;
  returns_nil = λ h. cc;
}
Step-Inv s t inv (shut_down r at) = record {
  unsent = inv.unsent;
  sends_error = λ h. cc;
  holds_errors = λ h. cc;
  drains = λ h. cc;
  returns_nil = λ _. inv.drains at;
}

Run-Inv : (n : ℕ) (s : State) → Run n s → Inv s
Run-Inv n s begin = started-Inv
Run-Inv n t (later m s _ before step) = Step-Inv s t (Run-Inv m s before) step

-- `Start` returns nil only after its context is done: a listener that stops by itself makes it return
-- an error.
pub nil_after_cancel : (n : ℕ) (s : State) → Run n s → s.caller ≡ returned none → s.ctx_done ≡ true
nil_after_cancel n s run = (Run-Inv n s run).returns_nil

-- The steps that may still come.
abbrev listener_steps : Listener → ℕ
listener_steps listening = 2
listener_steps (sending v) = 1
listener_steps ended = 0

abbrev caller_steps : Caller → ℕ
caller_steps selecting = 2
caller_steps draining = 1
caller_steps (returned r) = 0

abbrev signal_steps : Bool → ℕ
signal_steps true = 0
signal_steps false = 1

abbrev steps_left : State → ℕ
steps_left s = listener_steps s.listener + caller_steps s.caller + signal_steps s.ctx_done

Step_decreases : (s t : State) → Step s t → steps_left t < steps_left s
Step_decreases s t (cancel live) = rw live (omega arith)
Step_decreases s t (serve_fails e at) = rw at (omega arith)
Step_decreases s t (serve_closes at left) = rw at (omega arith)
Step_decreases s t (send v at room) = rw at (omega arith)
Step_decreases s t (receive v rest at full) = rw at (omega arith)
Step_decreases s t (drain at done) = rw at (omega arith)
Step_decreases s t (shut_down r at) = rw at (omega arith)

Run-bounded : (n : ℕ) (s : State) → Run n s → n + steps_left s ≤ 5
Run-bounded n s begin = omega arith
Run-bounded (suc n) t (later _ s _ before step) =
    omega (arith, Run-bounded n s before, Step_decreases s t step)

-- `Start` has returned, and its goroutine has ended.
abbrev pub Finished : State → Type 0
Finished s = ((r : Option Err) × (s.caller ≡ returned r)) × (s.listener ≡ ended)

abbrev pub CanStep : State → Type 0
CanStep s = (t : State) × Step s t

sending_steps : (s : State) (v : Option Err) → Inv s → s.listener ≡ sending v → CanStep s
unfolding capacity
sending_steps s v inv at = (_, send v at (rw (inv.unsent (subst Unsent (sym at) tt)) (omega arith)))

listening_steps : (s : State) (c : Caller) → s.caller ≡ c → s.listener ≡ listening → CanStep s
listening_steps s selecting here at = elim (Bool-cases s.ctx_done) [
  | inl done ↦ (_, drain here done)
  | inr live ↦ (_, cancel live)
]
listening_steps s draining here at = (_, shut_down none here)
listening_steps s (returned r) here at = (_, serve_closes at (subst Left (sym here) tt))

ended_steps : (s : State) (c : Caller) → s.caller ≡ c → s.listener ≡ ended → CanStep s ⊎ Finished s
ended_steps s selecting here at = elim (Bool-cases s.ctx_done) [
  | inl done ↦ inl (_, drain here done)
  | inr live ↦ inl (_, cancel live)
]
ended_steps s draining here at = inl (_, shut_down none here)
ended_steps s (returned r) here at = inr ((r, here), at)

steps_or_Finished : (s : State) (l : Listener) → Inv s → s.listener ≡ l → CanStep s ⊎ Finished s
steps_or_Finished s listening inv at = inl (listening_steps s s.caller refl at)
steps_or_Finished s (sending v) inv at = inl (sending_steps s v inv at)
steps_or_Finished s ended inv at = ended_steps s s.caller refl at

-- No run of `Start` has more than five steps, in whatever order its two goroutines take theirs, the
-- arrival of the signal being one of them; and where no step at all can follow, `Start` has returned
-- and its goroutine has ended: neither is blocked for good, on the channel or elsewhere.
pub every-Run_ends : (n : ℕ) (s : State) → Run n s → (n ≤ 5) × (CanStep s ⊎ Finished s)
every-Run_ends n s run =
    (omega (arith, Run-bounded n s run), steps_or_Finished s s.listener (Run-Inv n s run) refl)
