-- ===== src/Server/Lifecycle.antt =====
-- `Start` of internal/server/server.go as steps of its two goroutines: the one that listens, and the
-- caller's, which selects between the listener's error and the end of the context. Logging is left
-- out. Of net/http the steps use what it documents: `ListenAndServe` returns a non-nil error, which is
-- ErrServerClosed only after a call of `Shutdown`; and `Shutdown`, given a context with a timeout,
-- returns.
use llm_gateway_platform.Prelude.{
  ℕ, suc, ◌<◌, ◌≡◌, Bool, true, false, Option, none, some, List, [], ◌∷◌, ◌++◌, length,
}
use llm_gateway_platform.Provider.Errors.{Err}

-- What `ListenAndServe` returns.
pub data ServeError : Type 0 where
  err_server_closed : ServeError
  other : Err → ServeError

-- Where the goroutine stands: in `ListenAndServe`, before a send on errCh, or at its end.
pub data Listener : Type 0 where
  listening : Listener
  sending : Option Err → Listener
  ended : Listener

-- Where `Start` stands: in the `select`, in `Shutdown`, or at its return.
pub data Caller : Type 0 where
  selecting : Caller
  draining : Caller
  returned : Option Err → Caller

pub record State : Type 0 where
  pub listener : Listener
  pub channel : List (Option Err)  -- the buffer of errCh
  pub caller : Caller
  pub ctx_done : Bool

-- make(chan error, 1)
unfoldable pub capacity : ℕ
capacity = 1

-- What the goroutine sends: nil for ErrServerClosed, and any other error as it is.
unfoldable pub to_send : Option ServeError → Option Err
to_send none = none
to_send (some err_server_closed) = none
to_send (some (other e)) = some e

-- `Shutdown` may have been called.
abbrev pub Left : Caller → Type 0
Left selecting = ⊥
Left draining = Unit
Left (returned r) = Unit

pub data Step (s : State) : State → Type 0 where
  -- a signal arrives
  cancel : s.ctx_done ≡ false → Step s (record s { ctx_done = true })
  -- `ListenAndServe` returns
  serve_fails :
      (e : Err)
      → s.listener ≡ listening
      → Step s (record s { listener = sending (to_send (some (other e))) })
  serve_closes :
      s.listener ≡ listening
      → Left s.caller
      → Step s (record s { listener = sending (to_send (some err_server_closed)) })
  -- errCh <- err
  send :
      (v : Option Err)
      → s.listener ≡ sending v
      → length s.channel < capacity
      → Step s (record s { listener = ended; channel = s.channel ++ v ∷ [] })
  -- case err := <-errCh: return err
  receive :
      (v : Option Err) (rest : List (Option Err))
      → s.caller ≡ selecting
      → s.channel ≡ v ∷ rest
      → Step s (record s { channel = rest; caller = returned v })
  -- case <-ctx.Done():
  drain : s.caller ≡ selecting → s.ctx_done ≡ true → Step s (record s { caller = draining })
  -- return s.http.Shutdown(shutdownCtx)
  shut_down : (r : Option Err) → s.caller ≡ draining → Step s (record s { caller = returned r })

-- `Start` at its `select`, the goroutine just started
abbrev pub started : State
started = record { listener = listening; channel = []; caller = selecting; ctx_done = false }

-- A state after `n` steps.
pub data Run : ℕ → State → Type 0 where
  begin : Run 0 started
  later : (n : ℕ) (s t : State) → Run n s → Step s t → Run (suc n) t
