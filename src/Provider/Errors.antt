-- ===== src/Provider/Errors.antt =====
-- pkg/provider/errors.go, and the part of Go's `error` values that the program uses: wrapping, and
-- the walk along the wrapped errors that `errors.Is` and `errors.As` make.
pub mod Laws
use llm_gateway_platform.Prelude.{
  ℕ, String, Bool, true, false, ◌||◌, Option, none, some, [], ◌∷◌, ◌++◌, ◌==◌, if◌then◌else◌,
}
use llm_gateway_platform.Prelude.Text.{Text, words, number}
use llm_gateway_platform.Provider.{Name}

-- The fields of `Error` but `wrapped`. A transport failure has the status 0.
pub record ErrorInfo : Type 0 where
  pub provider : Name
  pub status : ℕ
  pub code : String
  pub message : Text
  pub retryable : Bool

-- A non-nil `error`.
pub data Err : Type 0 where
  canceled : Err  -- context.Canceled
  deadline_exceeded : Err  -- context.DeadlineExceeded
  client_timeout : Text → Err  -- net/http on Client.Timeout; it `Is` context.DeadlineExceeded
  errorf : Text → Err  -- fmt.Errorf with no %w
  errorf_wrap : Text → Err → Err  -- fmt.Errorf that ends in %w
  provider_error : ErrorInfo → Err  -- *Error with `wrapped` nil
  provider_wrap : ErrorInfo → Err → Err  -- *Error with `wrapped` set

-- `(*Error).Error`
unfoldable pub info_text : ErrorInfo → Text
info_text e =
    if e.status == 0
    then words "provider " ∷ words e.provider ∷ words ": " ∷ e.message
    else words "provider "
      ∷ words e.provider
      ∷ words ": status "
      ∷ number e.status
      ∷ words ": "
      ∷ e.message

-- `err.Error()`
unfoldable pub error_text : Err → Text
unfolding info_text
error_text canceled = words "context canceled" ∷ []
error_text deadline_exceeded = words "context deadline exceeded" ∷ []
error_text (client_timeout t) = t
error_text (errorf t) = t
error_text (errorf_wrap t e) = t ++ error_text e
error_text (provider_error i) = info_text i
error_text (provider_wrap i e) = info_text i

-- `errors.Unwrap`; for an `*Error` this is its method `Unwrap`.
unfoldable pub unwrap : Err → Option Err
unwrap (errorf_wrap t e) = some e
unwrap (provider_wrap i e) = some e
unwrap canceled = none
unwrap _ = none

-- errors.Is(err, context.Canceled)
unfoldable pub is_canceled : Err → Bool
is_canceled canceled = true
is_canceled (errorf_wrap t e) = is_canceled e
is_canceled (provider_wrap i e) = is_canceled e
is_canceled _ = false

-- errors.Is(err, context.DeadlineExceeded)
unfoldable pub is_deadline_exceeded : Err → Bool
is_deadline_exceeded deadline_exceeded = true
is_deadline_exceeded (client_timeout t) = true
is_deadline_exceeded (errorf_wrap t e) = is_deadline_exceeded e
is_deadline_exceeded (provider_wrap i e) = is_deadline_exceeded e
is_deadline_exceeded _ = false

-- errors.As(err, &pErr): the first `*Error` on the way.
unfoldable pub as_provider_error : Err → Option ErrorInfo
as_provider_error (errorf_wrap t e) = as_provider_error e
as_provider_error (provider_error i) = some i
as_provider_error (provider_wrap i e) = some i
as_provider_error _ = none

retryable_info : Option ErrorInfo → Bool
retryable_info none = false
retryable_info (some i) = i.retryable

-- `IsRetryable`
unfoldable pub is_retryable : Err → Bool
unfolding retryable_info as_provider_error
is_retryable e = retryable_info (as_provider_error e)

-- `retryableStatus`
unfoldable pub retryable_status : ℕ → Bool
retryable_status s = s == 429 || s == 500 || s == 502 || s == 503 || s == 504 || s == 529

-- `NewHTTPError`
unfoldable pub new_http_error : Name → ℕ → String → String → Err
unfolding retryable_status
new_http_error p status code message = provider_error (record {
  provider = p;
  status = status;
  code = code;
  message = words message ∷ [];
  retryable = retryable_status status;
})

-- `NewTransportError`
unfoldable pub new_transport_error : Name → Err → Err
unfolding error_text
new_transport_error p err =
    provider_wrap
      (record {
        provider = p;
        status = 0;
        code = "";
        message = words "transport error: " ∷ error_text err;
        retryable = true;
      })
      err
