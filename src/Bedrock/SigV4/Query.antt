-- ===== src/Bedrock/SigV4/Query.antt =====
-- The canonical query string of pkg/provider/bedrock/sigv4.go.
use mathlib.Core.List.{Perm}
use llm_gateway_platform.Prelude.{
  String, ◌≡◌, sym, ◌∙◌, ap, false, true, List, str_eq, eq_iff, Bool-cases, inl, inr,
}
use llm_gateway_platform.Prelude.Joined.{join, split, sort}
use llm_gateway_platform.Prelude.Joined.RoundTrip.{
  Ascends, sort-Ascends, sorted_stays, split-join, split-Lacks, split_some, sort-All, sort_some,
  Lacks,
}
use llm_gateway_platform.Bedrock.SigV4.{canonical_query}
use llm_gateway_platform.Bedrock.SigV4.Coverage.{sort-Perm}

abbrev pub pairs : String → List String
pairs query = split query b'&'

pairs_of_join : (query : String) → pairs (join (sort (pairs query)) "&") ≡ sort (pairs query)
pairs_of_join query =
    split-join "&" (sort (pairs query)) (sort_some (pairs query) (split_some "&" query))
      (sort-All (Lacks b'&') (pairs query) (split-Lacks "&" query))

canonical_query_lem :
    (query : String)
    → str_eq query "" ≡ false
    → canonical_query query ≡ join (sort (pairs query)) "&"
unfolding canonical_query
canonical_query_lem query some_query = rw some_query

canonical_query_empty : (query : String) → str_eq query "" ≡ true → canonical_query query ≡ query
unfolding canonical_query
canonical_query_empty query empty = rw empty (sym ((eq_iff query "").0 empty))

canonical_query_again :
    (query : String)
    → canonical_query (join (sort (pairs query)) "&") ≡ join (sort (pairs query)) "&"
canonical_query_again query = elim (Bool-cases (str_eq (join (sort (pairs query)) "&") "")) [
  | inl empty ↦ canonical_query_empty (join (sort (pairs query)) "&") empty
  | inr some_query ↦
      canonical_query_lem (join (sort (pairs query)) "&") some_query
      ∙ ap (λ l. join (sort l) "&") (pairs_of_join query)
      ∙ ap (λ l. join l "&") (sorted_stays (sort (pairs query)) (sort-Ascends (pairs query)))
]

-- The pairs of the canonical form of a query that is not empty are those of the query, in ascending
-- order and each as often, and to bring a canonical form into that form again changes nothing.
pub canonical_query_sorts :
    (query : String)
    → str_eq query "" ≡ false
    → Perm (pairs (canonical_query query)) (pairs query)
      × Ascends (pairs (canonical_query query))
      × (canonical_query (canonical_query query) ≡ canonical_query query)
canonical_query_sorts query some_query =
    rw (canonical_query_lem query some_query, pairs_of_join query)
      (sort-Perm (pairs query), sort-Ascends (pairs query), canonical_query_again query)
