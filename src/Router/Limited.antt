-- ===== src/Router/Limited.antt =====
-- A limiter of internal/ratelimit/ratelimit.go before a provider of internal/router/router.go.
use llm_gateway_platform.Prelude.{
  ◌≡◌, true, false, none, some, List, if◌then◌else◌, Bool-cases, inl, inr,
}
use llm_gateway_platform.Float.{Float}
use llm_gateway_platform.RateLimit.{Cell, allow, allow_in, refill, spend}
use llm_gateway_platform.Provider.{ChatRequest}
use llm_gateway_platform.Provider.Errors.{new_http_error}
use llm_gateway_platform.Runtime.{Env}
use llm_gateway_platform.Router.{
  Target, Provider, Limiter, Router, TargetFailure, record_failure, lookup_provider, lookup_limiter,
}
use llm_gateway_platform.Router.Chat.{
  next, after_ctx, after_lookup, after_allow, visit, call_provider,
}

-- The limiter of a cell, as the router uses it.
abbrev pub as_limiter : {F W : Type 0} → Float F → Cell F W → Limiter W
as_limiter f c = record { allow = allow_in f c }

allow_in_lem :
    {F W : Type 0} (f : Float F) (c : Cell F W) (w : W)
    → let (now, w₁) = c.now w in
      let l = refill f now (c.get w₁) in
      allow_in f c w ≡ (
        if f.le f.one l.tokens
        then (true, c.put (record l { tokens = f.sub l.tokens f.one }) w₁)
        else (false, c.put l w₁))
unfolding allow_in allow spend
allow_in_lem f c w =
    let (now, w₁) = c.now w in
    elim (Bool-cases (f.le f.one (refill f now (c.get w₁)).tokens)) [ inl e ↦ rw e | inr e ↦ rw e ]

module _ {F W : Type 0} (f : Float F) (c : Cell F W) (env : Env W) (r : Router F W)
    (req : ChatRequest F) where
  -- While the context is live, a target whose provider has a limiter takes one token of the refilled
  -- bucket and is called, if the bucket holds a token; if not, it is passed over with the local error
  -- 429 and without a call of the provider, and only the refill is kept.
  pub visit_limited :
      (target : Target) (failures : List TargetFailure) (p : Provider F W) (w w₁ : W)
      → lookup_provider r target.provider ≡ some p
      → lookup_limiter r target.provider ≡ some (as_limiter f c)
      → env.ctx_err w ≡ (none, w₁)
      → let (now, w₂) = c.now w₁ in
        let l = refill f now (c.get w₂) in
        visit env r req target failures w ≡ (
          if f.le f.one l.tokens
          then call_provider env r req target failures p
              (c.put (record l { tokens = f.sub l.tokens f.one }) w₂)
          else next
              (record_failure target
                (new_http_error target.provider 429 "rate_limited" "local rate limit exceeded")
                failures)
              (c.put l w₂))
  unfolding visit after_ctx after_lookup after_allow
  visit_limited target failures p w w₁ registered set live =
      let (now, w₂) = c.now w₁ in
      rw (live, after_ctx, registered, set, allow_in_lem f c w₁)
        (elim (Bool-cases (f.le f.one (refill f now (c.get w₂)).tokens)) [
          | inl e ↦ rw e
          | inr e ↦ rw e
        ])
