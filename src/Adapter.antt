-- ===== src/Adapter.antt =====
-- The two results of the method `Chat` of the interface `Provider` in pkg/provider/provider.go, and the
-- shape that `Chat` of the three adapters of pkg/provider has: build a request, send it, read the reply.
use llm_gateway_platform.Prelude.{ℕ, String, ◌≡◌, refl, false, Option, none, some}
use llm_gateway_platform.Prelude.Text.{Text}
use llm_gateway_platform.Provider.{Name, ChatRequest, ChatResponse}
use llm_gateway_platform.Provider.Errors.{
  Err, errorf, errorf_wrap, ErrorInfo, as_provider_error, is_retryable, retryable_status,
  new_transport_error, new_http_error,
}
use llm_gateway_platform.Http.{Fallible, ok, fail, Request, Response, Doer}
use llm_gateway_platform.Router.{Provider, Router, lookup_provider}

-- The two results of `Chat`.
abbrev pub Results : Type 0
Results = Option ChatResponse × Option Err

abbrev pub fails : Err → Results
fails e = (none, some e)

-- One of them only: a response that names the provider, or an error, and never both or none.
pub data Exclusive (name : Name) : Option ChatResponse → Option Err → Type 0 where
  answered : {r : ChatResponse} → r.provider ≡ name → Exclusive name (some r) none
  failed : {e : Err} → Exclusive name none (some e)

pub record IsExclusive {F W : Type 0} (p : Provider F W) : Type 0 where
  pub at : (req : ChatRequest F) (w : W) → Exclusive p.name (p.chat req w).0 (p.chat req w).1

-- Every registered provider returns one of the two, and stands under its own name.
abbrev pub AllExclusive : {F W : Type 0} → Router F W → Type 0
AllExclusive {F} {W} r =
    (name : Name) (p : Provider F W)
    → lookup_provider r name ≡ some p
    → IsExclusive p × (p.name ≡ name)

-- The status of the `*provider.Error` that an error is or wraps.
abbrev pub Blames : Err → Name → ℕ → Type 0
Blames e name status =
    (i : ErrorInfo) × (as_provider_error e ≡ some i)
    × (i.provider ≡ name)
    × (i.status ≡ status)
    × (i.retryable ≡ retryable_status status)

-- How a call ends that got `reply` from the transport, where `Reads payload r` says that the response
-- `r` is what a payload decodes to.
pub data ReplyEnds (name : Name) (Reads : String → ChatResponse → Type 0)
    : Fallible Response → Option ChatResponse → Option Err → Type 0 where
  unsent_reply :
      {cause : Err} → ReplyEnds name Reads (fail cause) none (some (new_transport_error name cause))
  cut_off :
      {resp : Response} {cause : Err}
      → resp.body ≡ fail cause
      → ReplyEnds name Reads (ok resp) none (some (new_transport_error name cause))
  refused :
      {resp : Response} {payload : String} {e : Err}
      → resp.body ≡ ok payload
      → ¬ (resp.status_code ≡ 200)
      → Blames e name resp.status_code
      → ReplyEnds name Reads (ok resp) none (some e)
  garbled :
      {resp : Response} {payload : String} {e : Err}
      → resp.body ≡ ok payload
      → resp.status_code ≡ 200
      → ((r : ChatResponse) → ¬ Reads payload r)
      → is_retryable e ≡ false
      → ReplyEnds name Reads (ok resp) none (some e)
  read :
      {resp : Response} {payload : String} {r : ChatResponse}
      → resp.body ≡ ok payload
      → resp.status_code ≡ 200
      → Reads payload r
      → ReplyEnds name Reads (ok resp) (some r) none

-- How a call ends that starts in the world `w`: it does nothing and fails for good, for the reason
-- `Unsendable`, or it sends one request, for which `IsSent` holds.
pub data CallEnds {W : Type 0} (name : Name) (Reads : String → ChatResponse → Type 0)
    (http : Doer W) (Unsendable : Type 0) (IsSent : Request → Type 0) (w : W)
    : Option ChatResponse → Option Err → W → Type 0 where
  unsent :
      {e : Err}
      → Unsendable
      → is_retryable e ≡ false
      → CallEnds name Reads http Unsendable IsSent w none (some e) w
  sent :
      {q : Request} {resp : Option ChatResponse} {e : Option Err}
      → IsSent q
      → ReplyEnds name Reads (http.perform q w).0 resp e
      → CallEnds name Reads http Unsendable IsSent w resp e (http.perform q w).1

-- An error that wraps one which is not retryable is not either.
pub wrap_plain :
    (t : Text) (e : Err) → is_retryable e ≡ false → is_retryable (errorf_wrap t e) ≡ false
unfolding is_retryable
wrap_plain t e h = h

pub errorf_plain : (t : Text) → is_retryable (errorf t) ≡ false
unfolding is_retryable
errorf_plain t = refl

pub Blames-http_error :
    (name : Name) (status : ℕ) (code message : String)
    → Blames (new_http_error name status code message) name status
unfolding new_http_error as_provider_error
Blames-http_error name status code message = (_, refl, refl, refl, refl)

module _ {name : Name} {Reads : String → ChatResponse → Type 0}
    (names : (payload : String) (r : ChatResponse) → Reads payload r → r.provider ≡ name) where
  ReplyEnds-Exclusive :
      {reply : Fallible Response} {resp : Option ChatResponse} {e : Option Err}
      → ReplyEnds name Reads reply resp e
      → Exclusive name resp e
  ReplyEnds-Exclusive unsent_reply = failed
  ReplyEnds-Exclusive (cut_off _) = failed
  ReplyEnds-Exclusive (refused _ _ _) = failed
  ReplyEnds-Exclusive (garbled _ _ _ _) = failed
  ReplyEnds-Exclusive (read {payload} {r} _ _ d) = answered (names payload r d)

  pub CallEnds-Exclusive :
      {W : Type 0} {http : Doer W} {Unsendable : Type 0} {IsSent : Request → Type 0} {w w' : W}
      {resp : Option ChatResponse} {e : Option Err}
      → CallEnds name Reads http Unsendable IsSent w resp e w'
      → Exclusive name resp e
  CallEnds-Exclusive (unsent _ _) = failed
  CallEnds-Exclusive (sent _ r) = ReplyEnds-Exclusive r
