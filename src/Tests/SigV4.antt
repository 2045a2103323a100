-- ===== src/Tests/SigV4.antt =====
-- A request signed with transparent stand-ins for the hashes.
use llm_gateway_platform.Prelude.{ℕ, ◌<>◌, ◌≡◌, refl, String, List, [], ◌∷◌}
use llm_gateway_platform.Prelude.Dict.{lookup, insert}
use llm_gateway_platform.Prelude.Strings.{to_lower, trim_left, trim_right, trim_space}
use llm_gateway_platform.Prelude.Joined.{join, sort, insert_sorted}
use llm_gateway_platform.Http.{Request, set_header}
use llm_gateway_platform.Bedrock.SigV4.{
  SigV4Signer, Primitives, collect, block, canonicalize_headers, hex_sha_256, prepare,
  canonical_query, sign,
}
use llm_gateway_platform.Bedrock.SigV4.Stability.{sign_stable}
use llm_gateway_platform.Bedrock.SigV4.Coverage.{signed_names, signed_headers_cover}
use mathlib.Core.List.{Perm}
use llm_gateway_platform.Prelude.Joined.RoundTrip.{Ascends}
use llm_gateway_platform.Bedrock.SigV4.Query.{pairs, canonical_query_sorts}

abbrev pub prim : Primitives String ℕ
prim = record {
  bytes = λ s. s;
  sha_256 = λ b. "#" <> b;
  hmac_sha_256 = λ k b. k <> "." <> b;
  hex = λ b. b;
  amz_date = λ _. "20250102T030405Z";
  date_stamp = λ _. "20250102";
  host = λ _. "example.org";
  escaped_path = λ _. "/model/m/invoke";
  raw_query = λ _. "";
}

abbrev signer : SigV4Signer
signer = record {
  creds = record { access_key_id = "id"; secret_access_key = "s"; session_token = "tok" };
}

abbrev request : Request
request = record {
  method = "POST";
  url = "https://example.org/model/m/invoke";
  header = ("Content-Type", "application/json") ∷ ("Accept", "application/json") ∷ [];
  body = "{}";
}

headers : canonicalize_headers "example.org" (prepare prim signer request "{}" 0).header ≡ (
  "content-type;host;x-amz-content-sha256;x-amz-date;x-amz-security-token",
  "content-type:application/json\nhost:example.org\nx-amz-content-sha256:#{}\nx-amz-date:20250102T030405Z\nx-amz-security-token:tok\n",
)
unfolding canonicalize_headers collect block prepare hex_sha_256 set_header insert lookup to_lower
    trim_left trim_right trim_space join sort insert_sorted
headers = refl

signed_headers_cover_example :
    (names : List String) × ((canonicalize_headers "example.org" request.header).0 ≡ join names ";")
    × Ascends names
    × Perm names ("host" ∷ signed_names request.header)
signed_headers_cover_example = signed_headers_cover "example.org" request.header

canonical_query_sorts_example :
    Perm (pairs (canonical_query "b=2&a=1&a")) (pairs "b=2&a=1&a")
    × Ascends (pairs (canonical_query "b=2&a=1&a"))
    × (canonical_query (canonical_query "b=2&a=1&a") ≡ canonical_query "b=2&a=1&a")
canonical_query_sorts_example = canonical_query_sorts "b=2&a=1&a" refl

sign_stable_example :
    sign prim signer
      (sign prim signer request "{}" "bedrock" "eu-west-1" 0)
      "{}"
      "bedrock"
      "eu-west-1"
      0
    ≡ sign prim signer request "{}" "bedrock" "eu-west-1" 0
sign_stable_example = sign_stable prim signer request "{}" "bedrock" "eu-west-1" 0
