-- ===== src/Provider/Errors/Laws.antt =====
-- How pkg/provider/errors.go classifies errors.
use mathlib.Core.Path.{subst}
use mathlib.Core.Option.{some-injective}
use llm_gateway_platform.Prelude.{
  ℕ, String, ◌≡◌, refl, sym, ◌∙◌, ◌↔◌, ◌⊎◌, inl, inr, true, none, some, arith,
}
use llm_gateway_platform.Provider.{Name}
use llm_gateway_platform.Provider.Errors.{
  Err, canceled, errorf_wrap, provider_wrap, unwrap, is_canceled, is_deadline_exceeded,
  is_retryable, new_http_error, new_transport_error,
}

-- The statuses that the code counts as transient.
abbrev pub IsTransient : ℕ → Type 0
IsTransient s = (s ≡ 429) ⊎ (s ≡ 500) ⊎ (s ≡ 502) ⊎ (s ≡ 503) ⊎ (s ≡ 504) ⊎ (s ≡ 529)

-- An error built from an HTTP response is retryable exactly when its status is one of 429, 500, 502,
-- 503, 504 and 529; the other 5xx statuses are not.
pub http_error_retryable_iff :
    (p : Name) (status : ℕ) (code message : String)
    → (is_retryable (new_http_error p status code message) ≡ true) ↔ IsTransient status
unfolding is_retryable new_http_error
http_error_retryable_iff p status code message = ground arith

-- A transport error is retryable whatever caused it, and is still found to be a cancellation or a
-- deadline exactly when its cause is one.
pub transport_error_keeps_cause :
    (p : Name) (e : Err)
    → (is_retryable (new_transport_error p e) ≡ true)
      × (is_canceled (new_transport_error p e) ≡ is_canceled e)
      × (is_deadline_exceeded (new_transport_error p e) ≡ is_deadline_exceeded e)
unfolding is_retryable new_transport_error is_canceled is_deadline_exceeded
transport_error_keeps_cause p e = (refl, refl, refl)

-- `Wraps e c`: unwrapping `e` again and again leads to `c`.
pub data Wraps (c : Err) : Err → Type 0 where
  itself : {e : Err} → e ≡ c → Wraps c e
  deeper : {e d : Err} → unwrap e ≡ some d → Wraps c d → Wraps c e

Wraps-unwrap : {c e d : Err} → unwrap e ≡ some d → Wraps c e → (e ≡ c) ⊎ Wraps c d
Wraps-unwrap h (itself p) = inl p
Wraps-unwrap {c} h (deeper u w) = inr (subst (Wraps c) (some-injective _ _ (sym u ∙ h)) w)

Wraps-end : {c e : Err} → unwrap e ≡ none → Wraps c e → e ≡ c
Wraps-end h (itself p) = p
Wraps-end h (deeper u w) = cc

is_canceled_sound : (e : Err) → is_canceled e ≡ true → Wraps canceled e
unfolding is_canceled unwrap
is_canceled_sound canceled h = itself refl
is_canceled_sound (errorf_wrap t e) h = deeper refl (is_canceled_sound e h)
is_canceled_sound (provider_wrap i e) h = deeper refl (is_canceled_sound e h)
is_canceled_sound _ h = cc

is_canceled_complete : (e : Err) → Wraps canceled e → is_canceled e ≡ true
unfolding is_canceled unwrap
is_canceled_complete canceled w = refl
is_canceled_complete (errorf_wrap t e) w = elim (Wraps-unwrap {d = e} refl w) [
  | inl p ↦ cc
  | inr v ↦ is_canceled_complete e v
]
is_canceled_complete (provider_wrap i e) w = elim (Wraps-unwrap {d = e} refl w) [
  | inl p ↦ cc
  | inr v ↦ is_canceled_complete e v
]
is_canceled_complete _ w = let p = Wraps-end refl w in cc

-- `errors.Is(err, context.Canceled)` holds exactly when `context.Canceled` can be reached from the
-- error by unwrapping.
pub is_canceled_iff : (e : Err) → (is_canceled e ≡ true) ↔ Wraps canceled e
is_canceled_iff e = (is_canceled_sound e, is_canceled_complete e)
