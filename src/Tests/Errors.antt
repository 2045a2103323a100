-- ===== src/Tests/Errors.antt =====
-- Errors at fixed inputs.
use llm_gateway_platform.Prelude.{◌≡◌, refl, true, false, [], ◌∷◌}
use llm_gateway_platform.Prelude.Text.{words}
use llm_gateway_platform.Provider.Errors.{
  Err, canceled, errorf_wrap, is_canceled, is_retryable, new_http_error,
}

abbrev cut_off : Err
cut_off = errorf_wrap (words "Post \"https://api.openai.com\": " ∷ []) canceled

statuses :
    (is_retryable (new_http_error "openai" 429 "" "") ≡ true)
    × (is_retryable (new_http_error "openai" 400 "" "") ≡ false)
    × (is_canceled cut_off ≡ true)
unfolding is_retryable new_http_error is_canceled
statuses = (refl, refl, refl)
