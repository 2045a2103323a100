-- ===== src/Bedrock/Contract.antt =====
-- How a call of the Bedrock adapter ends.
use mathlib.Core.Path.{subst}
use llm_gateway_platform.Prelude.Text.{plain}
use llm_gateway_platform.Prelude.{
  sym, true, false, ◌⊎◌, ℕ, String, ◌≡◌, refl, ap, false, Option, none, some, arith, ◌==◌,
  Bool-cases, inl, inr,
}
use llm_gateway_platform.Prelude.Int.{pos, ltb_ℤ}
use llm_gateway_platform.Provider
use llm_gateway_platform.Provider.{ChatRequest, ChatResponse}
use llm_gateway_platform.Provider.Errors.{Err, errorf, is_retryable}
use llm_gateway_platform.Http.{Fallible, ok, fail, Request, Response, IsPlain}
use llm_gateway_platform.Adapter.{
  Exclusive, IsExclusive, Blames, Blames-http_error, ReplyEnds, unsent_reply, cut_off, refused,
  garbled, read, CallEnds, unsent, sent, wrap_plain, errorf_plain, CallEnds-Exclusive,
}
use llm_gateway_platform.Bedrock.{InvokeResponse, WireCodec, Client, Signer, body_of, parse_error}
use llm_gateway_platform.Bedrock.Chat.{
  response_of, after_sign, endpoint, after_decode, after_read, after_perform, http_request,
  after_request, after_marshal, chat, as_provider,
}

-- No error of the signer wraps a `*provider.Error`.
pub record IsPlainSigner {T : Type 0} (s : Signer T) : Type 0 where
  pub sign_plain :
      {q : Request} {raw service region : String} {t : T} {e : Err}
      → s.sign q raw service region t ≡ fail e
      → is_retryable e ≡ false

module _ {T W : Type 0} (codec : WireCodec) (plainly : IsPlain codec)
    (path_escape : String → String) (c : Client T W) (signer_plainly : IsPlainSigner c.signer) where
  -- The payload decodes to a wire response, of which `r` is the translation.
  abbrev pub Reads : String → String → ChatResponse → Type 0
  Reads model payload r =
      (out : InvokeResponse) × (codec.unmarshal payload ≡ ok out) × (r ≡ response_of model out)

  -- There is nothing to sign: max_tokens is not positive, or the body does not encode, or there is no
  -- request with the URL.
  abbrev pub Unsendable : {F : Type 0} → ChatRequest F → Type 0
  Unsendable req =
      (ltb_ℤ (pos 0) req.max_tokens ≡ false)
      ⊎ ((e : Err) × (codec.marshal (body_of req) ≡ fail e))
      ⊎ ((e : Err) × (codec.url_error (endpoint codec path_escape c req.model) ≡ some e))

  -- The signer is given, at the time `t`, the request that carries the encoded body, and returns `q`.
  abbrev pub Signs : {F : Type 0} → ChatRequest F → T → Fallible Request → Type 0
  Signs req t q =
      (raw : String) × (ltb_ℤ (pos 0) req.max_tokens ≡ true)
      × (codec.url_error (endpoint codec path_escape c req.model) ≡ none)
      × (codec.marshal (body_of req) ≡ ok raw)
      × (c.signer.sign (http_request codec path_escape c req.model raw) raw "bedrock" c.region t
          ≡ q)

  Blames-parse_error :
      (status : ℕ) (payload : String)
      → Blames (parse_error codec status payload) Provider.bedrock status
  unfolding parse_error
  Blames-parse_error status payload = Blames-http_error _ _ _ _

  after_decode-ends :
      (model payload : String) (resp : Response) (d : Fallible InvokeResponse)
      → resp.body ≡ ok payload
      → resp.status_code ≡ 200
      → codec.unmarshal payload ≡ d
      → ReplyEnds Provider.bedrock
          (Reads model)
          (ok resp)
          (after_decode model d).0
          (after_decode model d).1
  unfolding after_decode
  after_decode-ends model payload resp (fail e) b s h =
      garbled b s (λ r (out, p, q). cc) (wrap_plain _ _ (plainly.unmarshal_plain h))
  after_decode-ends model payload resp (ok out) b s h = read b s (out, h, refl)

  after_read-ends :
      (model : String) (resp : Response) (body : Fallible String)
      → resp.body ≡ body
      → ReplyEnds Provider.bedrock
          (Reads model)
          (ok resp)
          (after_read codec model resp.status_code body).0
          (after_read codec model resp.status_code body).1
  unfolding after_read
  after_read-ends model resp (fail e) b = cut_off b
  after_read-ends model resp (ok payload) b = elim (Bool-cases (resp.status_code == 200)) [
    | inl e ↦
        rw e (after_decode-ends model payload resp (codec.unmarshal payload) b (ground arith) refl)
    | inr e ↦ rw e (refused b (ground arith) (Blames-parse_error resp.status_code payload))
  ]

  after_perform-ends :
      (model : String) (reply : Fallible Response)
      → ReplyEnds Provider.bedrock
          (Reads model)
          reply
          (after_perform codec model reply).0
          (after_perform codec model reply).1
  unfolding after_perform
  after_perform-ends model (fail e) = unsent_reply
  after_perform-ends model (ok resp) = after_read-ends model resp resp.body refl

  -- A call that gives up before it reads the clock, or one that goes on with a signed request.
  pub Ends : {F : Type 0} → ChatRequest F → W → Option ChatResponse × Option Err × W → Type 0
  Ends req w r =
      CallEnds Provider.bedrock (Reads req.model) c.http (Unsendable req) (λ _. ⊥) w r.0 r.1 r.2
      ⊎ CallEnds Provider.bedrock (Reads req.model) c.http
          ((e : Err) × Signs req (c.now w).0 (fail e)) (λ q. Signs req (c.now w).0 (ok q))
          (c.now w).1 r.0 r.1 r.2

  after_sign-Ends :
      {F : Type 0} (req : ChatRequest F) (w : W) (signed : Fallible Request)
      → Signs req (c.now w).0 signed
      → Ends req w (after_sign codec path_escape c req.model signed (c.now w).1)
  unfolding after_sign Ends
  after_sign-Ends req w (fail e) h =
      let (raw, positive, url, m, signs) = h in
      inr (unsent (e, h) (wrap_plain _ _ (signer_plainly.sign_plain signs)))
  after_sign-Ends req w (ok q) h =
      inr (sent h (after_perform-ends req.model (c.http.perform q (c.now w).1).0))

  after_request-Ends :
      {F : Type 0} (req : ChatRequest F) (raw : String) (w : W) (u : Option Err)
      → ltb_ℤ (pos 0) req.max_tokens ≡ true
      → codec.url_error (endpoint codec path_escape c req.model) ≡ u
      → codec.marshal (body_of req) ≡ ok raw
      → Ends req w (after_request codec path_escape c req.model u raw w)
  unfolding after_request Ends
  after_request-Ends req raw w (some e) positive h m =
      inl (unsent (inr (inr (e, h))) (wrap_plain _ _ (plainly.url_plain h)))
  after_request-Ends req raw w none positive h m =
      after_sign-Ends req w _ (raw, positive, h, m, refl)

  after_marshal-Ends :
      {F : Type 0} (req : ChatRequest F) (w : W) (m : Fallible String)
      → ltb_ℤ (pos 0) req.max_tokens ≡ true
      → codec.marshal (body_of req) ≡ m
      → Ends req w (after_marshal codec path_escape c req.model m w)
  unfolding after_marshal Ends
  after_marshal-Ends req w (fail e) positive h =
      inl (unsent (inr (inl (e, h))) (wrap_plain _ _ (plainly.marshal_plain h)))
  after_marshal-Ends req w (ok raw) positive h = after_request-Ends req raw w _ positive refl h

  chat_positive :
      {F : Type 0} (req : ChatRequest F) (w : W)
      → ltb_ℤ (pos 0) req.max_tokens ≡ true
      → chat codec path_escape c req w
        ≡ after_marshal codec path_escape c req.model (codec.marshal (body_of req)) w
  unfolding chat
  chat_positive req w e = rw e refl

  chat_refused :
      {F : Type 0} (req : ChatRequest F) (w : W)
      → ltb_ℤ (pos 0) req.max_tokens ≡ false
      → chat codec path_escape c req w
        ≡ (none, some (errorf (plain "bedrock: max_tokens must be positive")), w)
  unfolding chat
  chat_refused req w e = rw e refl

  -- Where no error of the coding or the signer wraps a *provider.Error: a call with max_tokens <=
  -- 0, or whose request cannot be built, has no effect and fails for good; any other reads the
  -- clock once, fails for good if the request cannot be signed, and else sends the signed request
  -- and ends as its reply says: with a retryable error that keeps the cause if the transport failed
  -- or the body broke off, with an error of the reply's status, retryable for the transient ones,
  -- if that is not 200, with an error that is not retryable if the payload does not decode, and
  -- else with the translation of what it decodes to.
  pub invoke_call-Ends :
      {F : Type 0} (req : ChatRequest F) (w : W) → Ends req w (chat codec path_escape c req w)
  unfolding Ends
  invoke_call-Ends req w = elim (Bool-cases (ltb_ℤ (pos 0) req.max_tokens)) [
    | inl e ↦
        subst (Ends req w) (sym (chat_positive req w e))
          (after_marshal-Ends req w (codec.marshal (body_of req)) e refl)
    | inr e ↦
        subst (Ends req w) (sym (chat_refused req w e)) (inl (unsent (inl e) (errorf_plain _)))
  ]

  names_bedrock :
      (model payload : String) (r : ChatResponse)
      → Reads model payload r
      → r.provider ≡ Provider.bedrock
  unfolding response_of
  names_bedrock model payload r (out, p, q) = ap (λ (x : ChatResponse). x.provider) q

  Ends-Exclusive :
      {F : Type 0} (req : ChatRequest F) (w : W) (r : Option ChatResponse × Option Err × W)
      → Ends req w r
      → Exclusive Provider.bedrock r.0 r.1
  unfolding Ends
  Ends-Exclusive req w r (inl ends) = CallEnds-Exclusive (names_bedrock req.model) ends
  Ends-Exclusive req w r (inr ends) = CallEnds-Exclusive (names_bedrock req.model) ends

  -- Whatever the transport and the clock do, a call of the Bedrock client returns an error and no
  -- response, or no error and a response that names Bedrock.
  pub invoke_call-IsExclusive : {F : Type 0} → IsExclusive {F = F} (as_provider codec path_escape c)
  invoke_call-IsExclusive = record {
    at = λ req w. Ends-Exclusive req w (chat codec path_escape c req w) (invoke_call-Ends req w);
  }
