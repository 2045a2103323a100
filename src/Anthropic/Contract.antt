-- ===== src/Anthropic/Contract.antt =====
-- How a call of the Anthropic adapter ends.
use mathlib.Core.Path.{subst}
use llm_gateway_platform.Prelude.Text.{plain}
use llm_gateway_platform.Prelude.{
  sym, true, false, ◌⊎◌, ℕ, String, ◌≡◌, refl, ap, Option, none, some, arith, ◌==◌, Bool-cases, inl,
  inr,
}
use llm_gateway_platform.Prelude.Int.{pos, ltb_ℤ}
use llm_gateway_platform.Provider
use llm_gateway_platform.Provider.{ChatRequest, ChatResponse}
use llm_gateway_platform.Provider.Errors.{Err, errorf}
use llm_gateway_platform.Http.{Fallible, ok, fail, Request, Response, IsPlain}
use llm_gateway_platform.Adapter.{
  IsExclusive, Blames, Blames-http_error, ReplyEnds, unsent_reply, cut_off, refused, garbled, read,
  CallEnds, unsent, sent, wrap_plain, errorf_plain, CallEnds-Exclusive,
}
use llm_gateway_platform.Anthropic.{MessagesResponse, WireCodec, Client, body_of, parse_error}
use llm_gateway_platform.Anthropic.Chat.{
  response_of, after_decode, after_read, after_perform, url, http_request, after_request,
  after_marshal, chat, as_provider,
}

module _ {W : Type 0} (codec : WireCodec) (plainly : IsPlain codec) (c : Client W) where
  -- The payload decodes to a wire response, of which `r` is the translation.
  abbrev pub Reads : String → ChatResponse → Type 0
  Reads payload r =
      (out : MessagesResponse) × (codec.unmarshal payload ≡ ok out) × (r ≡ response_of out)

  -- The request is not sent: max_tokens is not positive, or the body does not encode, or there is no
  -- request with the URL.
  abbrev pub Unsendable : {F : Type 0} → ChatRequest F → Type 0
  Unsendable req =
      (ltb_ℤ (pos 0) req.max_tokens ≡ false)
      ⊎ ((e : Err) × (codec.marshal (body_of req) ≡ fail e))
      ⊎ ((e : Err) × (codec.url_error (url codec c) ≡ some e))

  -- None of that is so, and the request carries the encoded body, the key and the version.
  abbrev pub IsSent : {F : Type 0} → ChatRequest F → Request → Type 0
  IsSent req q =
      (raw : String) × (ltb_ℤ (pos 0) req.max_tokens ≡ true)
      × (codec.url_error (url codec c) ≡ none)
      × (codec.marshal (body_of req) ≡ ok raw)
      × (q ≡ http_request codec c raw)

  Blames-parse_error :
      (status : ℕ) (payload : String)
      → Blames (parse_error codec status payload) Provider.anthropic status
  unfolding parse_error
  Blames-parse_error status payload = Blames-http_error _ _ _ _

  after_decode-ends :
      (payload : String) (resp : Response) (d : Fallible MessagesResponse)
      → resp.body ≡ ok payload
      → resp.status_code ≡ 200
      → codec.unmarshal payload ≡ d
      → ReplyEnds Provider.anthropic Reads (ok resp) (after_decode d).0 (after_decode d).1
  unfolding after_decode
  after_decode-ends payload resp (fail e) b s h =
      garbled b s (λ r (out, p, q). cc) (wrap_plain _ _ (plainly.unmarshal_plain h))
  after_decode-ends payload resp (ok out) b s h = read b s (out, h, refl)

  after_read-ends :
      (resp : Response) (body : Fallible String)
      → resp.body ≡ body
      → ReplyEnds Provider.anthropic Reads
          (ok resp)
          (after_read codec resp.status_code body).0
          (after_read codec resp.status_code body).1
  unfolding after_read
  after_read-ends resp (fail e) b = cut_off b
  after_read-ends resp (ok payload) b = elim (Bool-cases (resp.status_code == 200)) [
    | inl e ↦ rw e (after_decode-ends payload resp (codec.unmarshal payload) b (ground arith) refl)
    | inr e ↦ rw e (refused b (ground arith) (Blames-parse_error resp.status_code payload))
  ]

  after_perform-ends :
      (reply : Fallible Response)
      → ReplyEnds Provider.anthropic Reads reply
          (after_perform codec reply).0
          (after_perform codec reply).1
  unfolding after_perform
  after_perform-ends (fail e) = unsent_reply
  after_perform-ends (ok resp) = after_read-ends resp resp.body refl

  Ends : {F : Type 0} → ChatRequest F → W → Option ChatResponse × Option Err × W → Type 0
  Ends req w r =
      CallEnds Provider.anthropic Reads c.http (Unsendable req) (IsSent req) w r.0 r.1 r.2

  after_request-Ends :
      {F : Type 0} (req : ChatRequest F) (raw : String) (w : W) (u : Option Err)
      → ltb_ℤ (pos 0) req.max_tokens ≡ true
      → codec.url_error (url codec c) ≡ u
      → codec.marshal (body_of req) ≡ ok raw
      → Ends req w (after_request codec c u raw w)
  unfolding after_request Ends
  after_request-Ends req raw w (some e) positive h m =
      unsent (inr (inr (e, h))) (wrap_plain _ _ (plainly.url_plain h))
  after_request-Ends req raw w none positive h m =
      sent (raw, positive, h, m, refl)
        (after_perform-ends (c.http.perform (http_request codec c raw) w).0)

  after_marshal-Ends :
      {F : Type 0} (req : ChatRequest F) (w : W) (m : Fallible String)
      → ltb_ℤ (pos 0) req.max_tokens ≡ true
      → codec.marshal (body_of req) ≡ m
      → Ends req w (after_marshal codec c m w)
  unfolding after_marshal Ends
  after_marshal-Ends req w (fail e) positive h =
      unsent (inr (inl (e, h))) (wrap_plain _ _ (plainly.marshal_plain h))
  after_marshal-Ends req w (ok raw) positive h =
      after_request-Ends req raw w (codec.url_error (url codec c)) positive refl h

  chat_positive :
      {F : Type 0} (req : ChatRequest F) (w : W)
      → ltb_ℤ (pos 0) req.max_tokens ≡ true
      → chat codec c req w ≡ after_marshal codec c (codec.marshal (body_of req)) w
  unfolding chat
  chat_positive req w e = rw e refl

  chat_refused :
      {F : Type 0} (req : ChatRequest F) (w : W)
      → ltb_ℤ (pos 0) req.max_tokens ≡ false
      → chat codec c req w
        ≡ (none, some (errorf (plain "anthropic: max_tokens must be positive")), w)
  unfolding chat
  chat_refused req w e = rw e refl

  -- Where no error of the coding wraps a *provider.Error: a call with max_tokens <= 0, or whose
  -- request cannot be built, has no effect and fails for good; any other sends one request, and
  -- ends as its reply says: with a retryable error that keeps the cause if the transport failed or
  -- the body broke off, with an error of the reply's status, retryable for the transient ones, if
  -- that is not 200, with an error that is not retryable if the payload does not decode, and else
  -- with the translation of what it decodes to.
  pub messages-CallEnds :
      {F : Type 0} (req : ChatRequest F) (w : W)
      → CallEnds Provider.anthropic Reads c.http
          (Unsendable req)
          (IsSent req)
          w
          (chat codec c req w).0
          (chat codec c req w).1
          (chat codec c req w).2
  unfolding Ends
  messages-CallEnds req w = elim (Bool-cases (ltb_ℤ (pos 0) req.max_tokens)) [
    | inl e ↦
        subst (Ends req w) (sym (chat_positive req w e))
          (after_marshal-Ends req w (codec.marshal (body_of req)) e refl)
    | inr e ↦ subst (Ends req w) (sym (chat_refused req w e)) (unsent (inl e) (errorf_plain _))
  ]

  -- Whatever the transport does, a call of the Anthropic client returns an error and no response, or no
  -- error and a response that names Anthropic.
  pub messages_call-IsExclusive : {F : Type 0} → IsExclusive {F = F} (as_provider codec c)
  unfolding response_of
  messages_call-IsExclusive = record {
    at = λ req w.
        CallEnds-Exclusive {Reads = Reads}
          (λ payload r (out, p, q). ap (λ (x : ChatResponse). x.provider) q)
          (messages-CallEnds req w);
  }
