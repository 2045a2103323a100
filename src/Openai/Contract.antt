-- ===== src/Openai/Contract.antt =====
-- How a call of the OpenAI adapter ends.
use llm_gateway_platform.Prelude.{
  ◌⊎◌, ℕ, String, ◌≡◌, refl, ap, sym, ◌∙◌, List, [], ◌∷◌, Option, none, some, arith, ◌==◌,
  Bool-cases, inl, inr,
}
use llm_gateway_platform.Provider
use llm_gateway_platform.Provider.{ChatRequest, ChatResponse}
use llm_gateway_platform.Provider.Errors.{Err}
use llm_gateway_platform.Http.{Fallible, ok, fail, ok-injective, Request, Response, IsPlain}
use llm_gateway_platform.Adapter.{
  IsExclusive, Blames, Blames-http_error, ReplyEnds, unsent_reply, cut_off, refused, garbled, read,
  CallEnds, unsent, sent, wrap_plain, errorf_plain, CallEnds-Exclusive,
}
use llm_gateway_platform.Openai.{
  Choice, CompletionResponse, WireCodec, Client, body_of, parse_error,
}
use llm_gateway_platform.Openai.Chat.{
  response_of, after_choices, after_decode, after_read, after_perform, url, http_request,
  after_request, after_marshal, chat, as_provider,
}

module _ {F W : Type 0} (codec : WireCodec F) (plainly : IsPlain codec) (c : Client W) where
  -- The payload decodes to a wire response with a first choice, and `r` is their translation.
  abbrev pub Reads : String → ChatResponse → Type 0
  Reads payload r =
      (out : CompletionResponse) × (first : Choice) × (others : List Choice) × (codec.unmarshal
          payload
        ≡ ok out)
      × (out.choices ≡ first ∷ others)
      × (r ≡ response_of out first)

  -- The request is not sent: the body does not encode, or there is no request with the URL.
  abbrev pub Unsendable : ChatRequest F → Type 0
  Unsendable req =
      ((e : Err) × (codec.marshal (body_of req) ≡ fail e))
      ⊎ ((e : Err) × (codec.url_error (url codec c) ≡ some e))

  -- None of that is so, and the request carries the encoded body and the key.
  abbrev pub IsSent : ChatRequest F → Request → Type 0
  IsSent req q =
      (raw : String) × (codec.url_error (url codec c) ≡ none)
      × (codec.marshal (body_of req) ≡ ok raw)
      × (q ≡ http_request codec c raw)

  Blames-parse_error :
      (status : ℕ) (payload : String)
      → Blames (parse_error codec status payload) Provider.openai status
  unfolding parse_error
  Blames-parse_error status payload = Blames-http_error _ _ _ _

  after_choices-ends :
      (payload : String) (resp : Response) (out : CompletionResponse) (choices : List Choice)
      → resp.body ≡ ok payload
      → resp.status_code ≡ 200
      → codec.unmarshal payload ≡ ok out
      → out.choices ≡ choices
      → ReplyEnds Provider.openai Reads
          (ok resp)
          (after_choices out choices).0
          (after_choices out choices).1
  unfolding after_choices
  after_choices-ends payload resp out [] b s h k =
      garbled b s
        (λ r (out', first, others, p, q, _). let same : out ≡ out' = ok-injective (sym h ∙ p) in cc)
        (errorf_plain _)
  after_choices-ends payload resp out (first ∷ others) b s h k =
      read b s (out, first, others, h, k, refl)

  after_decode-ends :
      (payload : String) (resp : Response) (d : Fallible CompletionResponse)
      → resp.body ≡ ok payload
      → resp.status_code ≡ 200
      → codec.unmarshal payload ≡ d
      → ReplyEnds Provider.openai Reads (ok resp) (after_decode d).0 (after_decode d).1
  unfolding after_decode
  after_decode-ends payload resp (fail e) b s h =
      garbled b s (λ r (out, first, others, p, q, _). cc)
        (wrap_plain _ _ (plainly.unmarshal_plain h))
  after_decode-ends payload resp (ok out) b s h =
      after_choices-ends payload resp out out.choices b s h refl

  after_read-ends :
      (resp : Response) (body : Fallible String)
      → resp.body ≡ body
      → ReplyEnds Provider.openai Reads
          (ok resp)
          (after_read codec resp.status_code body).0
          (after_read codec resp.status_code body).1
  unfolding after_read
  after_read-ends resp (fail e) b = cut_off b
  after_read-ends resp (ok payload) b = elim (Bool-cases (resp.status_code == 200)) [
    | inl e ↦ rw e (after_decode-ends payload resp (codec.unmarshal payload) b (ground arith) refl)
    | inr e ↦ rw e (refused b (ground arith) (Blames-parse_error resp.status_code payload))
  ]

  after_perform-ends :
      (reply : Fallible Response)
      → ReplyEnds Provider.openai Reads reply
          (after_perform codec reply).0
          (after_perform codec reply).1
  unfolding after_perform
  after_perform-ends (fail e) = unsent_reply
  after_perform-ends (ok resp) = after_read-ends resp resp.body refl

  Ends : ChatRequest F → W → Option ChatResponse × Option Err × W → Type 0
  Ends req w r = CallEnds Provider.openai Reads c.http (Unsendable req) (IsSent req) w r.0 r.1 r.2

  after_request-Ends :
      (req : ChatRequest F) (raw : String) (w : W) (u : Option Err)
      → codec.url_error (url codec c) ≡ u
      → codec.marshal (body_of req) ≡ ok raw
      → Ends req w (after_request codec c u raw w)
  unfolding after_request Ends
  after_request-Ends req raw w (some e) h m =
      unsent (inr (e, h)) (wrap_plain _ _ (plainly.url_plain h))
  after_request-Ends req raw w none h m =
      sent (raw, h, m, refl) (after_perform-ends (c.http.perform (http_request codec c raw) w).0)

  after_marshal-Ends :
      (req : ChatRequest F) (w : W) (m : Fallible String)
      → codec.marshal (body_of req) ≡ m
      → Ends req w (after_marshal codec c m w)
  unfolding after_marshal Ends
  after_marshal-Ends req w (fail e) h =
      unsent (inl (e, h)) (wrap_plain _ _ (plainly.marshal_plain h))
  after_marshal-Ends req w (ok raw) h =
      after_request-Ends req raw w (codec.url_error (url codec c)) refl h

  -- Where no error of the coding wraps a *provider.Error: a call whose request cannot be built has
  -- no effect and fails for good; any other sends one request, and ends as its reply says: with a
  -- retryable error that keeps the cause if the transport failed or the body broke off, with an
  -- error of the reply's status, retryable for the transient ones, if that is not 200, with an
  -- error that is not retryable if the payload does not decode to a response with a choice, and
  -- else with the translation of that response and its first choice.
  pub completion-CallEnds :
      (req : ChatRequest F) (w : W)
      → CallEnds Provider.openai Reads c.http
          (Unsendable req)
          (IsSent req)
          w
          (chat codec c req w).0
          (chat codec c req w).1
          (chat codec c req w).2
  unfolding chat Ends
  completion-CallEnds req w = after_marshal-Ends req w (codec.marshal (body_of req)) refl

  -- Whatever the transport does, a call of the OpenAI client returns an error and no response, or no
  -- error and a response that names OpenAI.
  pub completion_call-IsExclusive : IsExclusive (as_provider codec c)
  unfolding response_of
  completion_call-IsExclusive = record {
    at = λ req w.
        CallEnds-Exclusive {Reads = Reads}
          (λ payload r (out, first, others, p, k, q). ap (λ (x : ChatResponse). x.provider) q)
          (completion-CallEnds req w);
  }
