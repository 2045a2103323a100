-- ===== src/Bedrock/SigV4/Stability.antt =====
-- What signing changes in a request, and what it does not.
use mathlib.Core.Path.{subst}
use mathlib.Core.Option.{some-injective}
use llm_gateway_platform.Prelude.{
  String, ◌≡◌, refl, sym, ◌∙◌, ap, false, some, List, [], ◌∷◌, str_eq, eq_iff, if◌then◌else◌,
  Bool-cases, inl, inr,
}
use llm_gateway_platform.Prelude.Dict.{Dict, lookup, insert, lookup-insert}
use llm_gateway_platform.Prelude.Strings.{to_lower}
use llm_gateway_platform.Http.{Request, set_header}
use llm_gateway_platform.Bedrock.SigV4.{
  SigV4Signer, Primitives, is_signed, collect, canonicalize_headers, hex_sha_256, prepare,
  authorization, sign,
}

-- To set a header to the value that it has changes nothing.
insert_present : (k v : String) (d : Dict String) → lookup k d ≡ some v → insert k v d ≡ d
unfolding lookup insert
insert_present k v [] h = cc
insert_present k v ((j, w) ∷ d) h = elim (Bool-cases (str_eq j k)) [
  | inl same ↦
      rw same (λ i. (sym ((eq_iff j k).0 same) i, some-injective _ _ (sym (rw same at h)) i) ∷ d)
  | inr differ ↦ rw differ (ap ((j, w) ∷◌) (insert_present k v d (rw differ at h)))
]

collect-unsigned :
    (k v : String) (header : Dict String) (names : List String) (values : Dict String)
    → is_signed (to_lower k) ≡ false
    → collect ((k, v) ∷ header) names values ≡ collect header names values
unfolding collect
collect-unsigned k v header names values h = elim (Bool-cases (str_eq (to_lower k) "host")) [
  | inl host ↦ rw host refl
  | inr other ↦ rw (other, h) refl
]

collect_tail :
    (j w : String) (header header' : Dict String) (names : List String) (values : Dict String)
    → ((ns : List String) (vs : Dict String) → collect header ns vs ≡ collect header' ns vs)
    → collect ((j, w) ∷ header) names values ≡ collect ((j, w) ∷ header') names values
unfolding collect
collect_tail j w header header' names values same = elim (Bool-cases (str_eq (to_lower j) "host")) [
  | inl host ↦ rw host (same names values)
  | inr other ↦ elim (Bool-cases (is_signed (to_lower j))) [
    | inl signed ↦ rw (other, signed) (same _ _)
    | inr unsigned ↦ rw (other, unsigned) (same names values)
  ]
]

-- A header that is not signed does not matter.
collect-insert :
    (k v : String) (header : Dict String) (names : List String) (values : Dict String)
    → is_signed (to_lower k) ≡ false
    → collect (insert k v header) names values ≡ collect header names values
unfolding insert
collect-insert k v [] names values h = collect-unsigned k v [] names values h
collect-insert k v ((j, w) ∷ header) names values h = elim (Bool-cases (str_eq j k)) [
  | inl same ↦
      let h' =
        subst (λ (x : String). is_signed (to_lower x) ≡ false) (sym ((eq_iff j k).0 same)) h in
      rw same (
        collect-unsigned k v header names values h
        ∙ sym (collect-unsigned j w header names values h'))
  | inr differ ↦ rw differ (
      collect_tail j w (insert k v header) header names values
        (λ ns vs. collect-insert k v header ns vs h))
]

authorization_low : is_signed (to_lower "Authorization") ≡ false
unfolding to_lower
authorization_low = refl

module _ {K T : Type 0} (prim : Primitives K T) (s : SigV4Signer) where
  -- The header `Authorization` does not count for the signature.
  authorization-unsigned :
      (req : Request) (v payload service region : String) (t : T)
      → authorization prim s (set_header "Authorization" v req) payload service region t
        ≡ authorization prim s req payload service region t
  unfolding authorization canonicalize_headers set_header
  authorization-unsigned req v payload service region t =
      rw (collect-insert "Authorization" v req.header ("host" ∷ []) _ authorization_low) refl

  set_present :
      (k v : String) (req : Request) → lookup k req.header ≡ some v → set_header k v req ≡ req
  unfolding set_header
  set_present k v req h = λ i. record req { header = insert_present k v req.header h i }

  -- Reading one header after another one was set.
  lookup-set_header :
      (k j v : String) (req : Request)
      → lookup j (set_header k v req).header ≡ (if str_eq k j then some v else lookup j req.header)
  unfolding set_header
  lookup-set_header k j v req = lookup-insert k j v req.header

  -- What a request that was prepared has among its headers.
  abbrev IsPrepared : Request → String → T → Type 0
  IsPrepared req payload t =
      (lookup "Host" req.header ≡ some (prim.host req.url))
      × (lookup "X-Amz-Date" req.header ≡ some (prim.amz_date t))
      × (lookup "X-Amz-Content-Sha256" req.header ≡ some (hex_sha_256 prim payload))
      × ((str_eq s.creds.session_token "" ≡ false)
          → lookup "X-Amz-Security-Token" req.header ≡ some s.creds.session_token)

  prepare-again :
      (req : Request) (payload : String) (t : T)
      → IsPrepared req payload t
      → prepare prim s req payload t ≡ req
  unfolding prepare
  prepare-again req payload t (host, date, hash, token) =
      rw
        (
          set_present "Host" (prim.host req.url) req host,
          set_present "X-Amz-Date" (prim.amz_date t) req date,
        )
        (elim (Bool-cases (str_eq s.creds.session_token "")) [
          | inl none_there ↦
              rw none_there (set_present "X-Amz-Content-Sha256" (hex_sha_256 prim payload) req hash)
          | inr some_there ↦ rw some_there (
              rw (set_present "X-Amz-Security-Token" s.creds.session_token req (token some_there))
                (set_present "X-Amz-Content-Sha256" (hex_sha_256 prim payload) req hash))
        ])

  prepare-IsPrepared :
      (req : Request) (v payload : String) (t : T)
      → IsPrepared (set_header "Authorization" v (prepare prim s req payload t)) payload t
  unfolding prepare set_header
  prepare-IsPrepared req v payload t = elim (Bool-cases (str_eq s.creds.session_token "")) [
    | inl none_there ↦
        rw none_there (simp lookup-insert, simp lookup-insert, simp lookup-insert, λ h. cc)
    | inr some_there ↦
        rw some_there
          (simp lookup-insert, simp lookup-insert, simp lookup-insert, λ h. simp lookup-insert)
  ]

  -- To sign a request again, with the same payload and at the same time, changes nothing.
  pub sign_stable :
      (req : Request) (payload service region : String) (t : T)
      → sign prim s (sign prim s req payload service region t) payload service region t
        ≡ sign prim s req payload service region t
  unfolding sign
  sign_stable req payload service region t =
      let prepared = prepare prim s req payload t in
      let v = authorization prim s prepared payload service region t in
      let signed = set_header "Authorization" v prepared in
      let again : prepare prim s signed payload t ≡ signed =
        prepare-again signed payload t (prepare-IsPrepared req v payload t) in
      rw (again, authorization-unsigned prepared v payload service region t)
        (set_present "Authorization" v signed
          (lookup-set_header "Authorization" "Authorization" v prepared))

  -- The name differs from those of the headers that signing sets.
  abbrev pub IsOther : String → Type 0
  IsOther name =
      (str_eq "Host" name ≡ false)
      × (str_eq "X-Amz-Date" name ≡ false)
      × (str_eq "X-Amz-Security-Token" name ≡ false)
      × (str_eq "X-Amz-Content-Sha256" name ≡ false)
      × (str_eq "Authorization" name ≡ false)

  -- Signing keeps the method, the URL, the body and all headers but the five that it sets.
  pub sign_keeps :
      (req : Request) (payload service region name : String) (t : T)
      → IsOther name
      → let q = sign prim s req payload service region t in
        (q.method ≡ req.method)
        × (q.url ≡ req.url)
        × (q.body ≡ req.body)
        × (lookup name q.header ≡ lookup name req.header)
  unfolding sign prepare set_header
  sign_keeps req payload service region name t (a, b, c, d, e) =
      elim (Bool-cases (str_eq s.creds.session_token "")) [
        | inl none_there ↦ rw none_there (refl, refl, refl, simp (lookup-insert, a, b, d, e))
        | inr some_there ↦ rw some_there (refl, refl, refl, simp (lookup-insert, a, b, c, d, e))
      ]
