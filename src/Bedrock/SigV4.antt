-- ===== src/Bedrock/SigV4.antt =====
-- pkg/provider/bedrock/sigv4.go: AWS Signature Version 4. SHA-256, HMAC, the hexadecimal text, the format of
-- a time and the parts of a URL are the record `Primitives`, over a type K of byte strings.
pub mod Stability
pub mod Coverage
pub mod Query
use llm_gateway_platform.Prelude.{
  Bool, String, ◌<>◌, ◌||◌, Option, none, some, List, [], ◌∷◌, ◌++◌, str_eq, if◌then◌else◌,
}
use llm_gateway_platform.Prelude.Dict.{Dict, lookup, insert}
use llm_gateway_platform.Prelude.Strings.{to_lower, trim_space}
use llm_gateway_platform.Prelude.Joined.{join, split, sort}
use llm_gateway_platform.Prelude.Text.{plain}
use llm_gateway_platform.Provider.Errors.{errorf}
use llm_gateway_platform.Http.{Fallible, ok, fail, Request, set_header}
use llm_gateway_platform.Bedrock.{Signer}
use text.Mathlib.Text.{starts_with}

pub record Credentials : Type 0 where
  pub access_key_id : String
  pub secret_access_key : String
  pub session_token : String

pub record SigV4Signer : Type 0 where
  pub creds : Credentials

-- `NewSigV4Signer`
unfoldable pub new_sig_v4_signer : Credentials → Fallible SigV4Signer
new_sig_v4_signer creds =
    if str_eq creds.access_key_id "" || str_eq creds.secret_access_key ""
    then fail (errorf (plain "bedrock: access key id and secret access key are required"))
    else ok (record { creds = creds })

pub record Primitives (K T : Type 0) : Type 0 where
  pub bytes : String → K  -- []byte(s)
  pub sha_256 : K → K
  pub hmac_sha_256 : K → K → K  -- key, data
  pub hex : K → String
  pub amz_date : T → String  -- t.UTC().Format("20060102T150405Z")
  pub date_stamp : T → String  -- t.UTC().Format("20060102")
  pub host : String → String  -- url.Host
  pub escaped_path : String → String  -- url.EscapedPath()
  pub raw_query : String → String  -- url.RawQuery

-- The header is one that is signed, the host aside.
abbrev pub is_signed : String → Bool
is_signed lower = str_eq lower "content-type" || starts_with lower "x-amz-"

abbrev value_of : Option String → String
value_of none = ""
value_of (some v) = v

-- The loop over the headers, on the names and the values found so far.
unfoldable pub collect : Dict String → List String → Dict String → List String × Dict String
collect [] names values = (names, values)
collect ((name, v) ∷ header) names values =
    let lower = to_lower name in
    let skipped = collect header names values in
    let added = collect header (names ++ lower ∷ []) (insert lower (trim_space v) values) in
    if str_eq lower "host" then skipped else if is_signed lower then added else skipped

-- The block of the signed headers.
unfoldable pub block : Dict String → List String → String
block values [] = ""
block values (n ∷ names) = n <> ":" <> value_of (lookup n values) <> "\n" <> block values names

-- `canonicalizeHeaders`
unfoldable pub canonicalize_headers : String → Dict String → String × String
canonicalize_headers host header =
    let (names, values) = collect header ("host" ∷ []) (("host", trim_space host) ∷ []) in
    let sorted = sort names in (join sorted ";", block values sorted)

-- `canonicalURI`
unfoldable pub canonical_uri : String → String
canonical_uri escaped_path = if str_eq escaped_path "" then "/" else escaped_path

-- `canonicalQuery`
unfoldable pub canonical_query : String → String
canonical_query raw_query =
    if str_eq raw_query "" then "" else join (sort (split raw_query b'&')) "&"

module _ {K T : Type 0} (prim : Primitives K T) where
  open prim use {
    bytes, sha_256, hmac_sha_256, hex, amz_date, date_stamp, host, escaped_path, raw_query,
  }

  -- `hexSHA256`
  unfoldable pub hex_sha_256 : String → String
  hex_sha_256 b = hex (sha_256 (bytes b))

  module _ (s : SigV4Signer) where
    -- `deriveSigningKey`
    unfoldable pub derive_signing_key : String → String → String → K
    derive_signing_key stamp region service =
        let k_date = hmac_sha_256 (bytes ("AWS4" <> s.creds.secret_access_key)) (bytes stamp) in
        let k_region = hmac_sha_256 k_date (bytes region) in
        let k_service = hmac_sha_256 k_region (bytes service) in
        hmac_sha_256 k_service (bytes "aws4_request")

    -- The headers that are set before the signature is made.
    unfoldable pub prepare : Request → String → T → Request
    prepare req payload t =
        let dated = set_header "X-Amz-Date" (amz_date t) (set_header "Host" (host req.url) req) in
        let token = s.creds.session_token in
        set_header "X-Amz-Content-Sha256" (hex_sha_256 payload)
          (if str_eq token "" then dated else set_header "X-Amz-Security-Token" token dated)

    -- The value of the header `Authorization` for a request that is prepared.
    unfoldable pub authorization : Request → String → String → String → T → String
    authorization req payload service region t =
        let (signed, canonical) = canonicalize_headers (host req.url) req.header in
        let canonical_request =
          join
            (req.method
              ∷ canonical_uri (escaped_path req.url)
              ∷ canonical_query (raw_query req.url)
              ∷ canonical
              ∷ signed
              ∷ hex_sha_256 payload
              ∷ [])
            "\n" in
        let scope = join (date_stamp t ∷ region ∷ service ∷ "aws4_request" ∷ []) "/" in
        let string_to_sign =
          join ("AWS4-HMAC-SHA256" ∷ amz_date t ∷ scope ∷ hex_sha_256 canonical_request ∷ [])
            "\n" in
        let signature = hex (
          hmac_sha_256 (derive_signing_key (date_stamp t) region service) (bytes string_to_sign)) in
        "AWS4-HMAC-SHA256 Credential=" <> s.creds.access_key_id <> "/" <> scope
        <> ", SignedHeaders=" <> signed <> ", Signature=" <> signature

    -- `Sign`
    unfoldable pub sign : Request → String → String → String → T → Request
    sign req payload service region t =
        let prepared = prepare req payload t in
        set_header "Authorization" (authorization prepared payload service region t) prepared

    -- The signer, which never returns an error
    abbrev pub as_signer : Signer T
    as_signer = record {
      sign = λ req payload service region t. ok (sign req payload service region t);
    }
