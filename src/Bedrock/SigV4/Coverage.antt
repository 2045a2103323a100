-- ===== src/Bedrock/SigV4/Coverage.antt =====
-- Which headers a signature covers.
use mathlib.Core.List.{Perm, append-nil, append_assoc}
use mathlib.Core.List.Perm
use llm_gateway_platform.Prelude.{
  String, ◌≡◌, sym, ◌∙◌, ap, List, [], ◌∷◌, ◌++◌, str_eq, eq_iff, refl, Bool, true, false, ◌||◌,
  if◌then◌else◌, Bool-cases, inl, inr,
}
use llm_gateway_platform.Prelude.Dict.{Dict}
use llm_gateway_platform.Prelude.Strings.{to_lower, trim_space}
use llm_gateway_platform.Prelude.Joined.{join, sort, insert_sorted}
use llm_gateway_platform.Prelude.Joined.RoundTrip.{Ascends, sort-Ascends}
use llm_gateway_platform.Bedrock.SigV4.{collect, canonicalize_headers}
use text.Mathlib.Text.{is_le, starts_with}
use Prim.Native.String.{compare}

insert_sorted-Perm : (x : String) (l : List String) → Perm (insert_sorted x l) (x ∷ l)
unfolding insert_sorted
insert_sorted-Perm x [] = Perm.refl (x ∷ [])
insert_sorted-Perm x (y ∷ l) = elim (Bool-cases (is_le (compare x y))) [
  | inl e ↦ rw e (Perm.refl (x ∷ y ∷ l))
  | inr e ↦ rw e (Perm.trans (Perm.cons y (insert_sorted-Perm x l)) (Perm.swap x y l))
]

pub sort-Perm : (l : List String) → Perm (sort l) l
unfolding sort
sort-Perm [] = Perm.refl []
sort-Perm (x ∷ l) = Perm.trans (insert_sorted-Perm x (sort l)) (Perm.cons x (sort-Perm l))

-- What AWS asks to sign besides the host: the content type, and AWS's own headers.
abbrev pub is_covered : String → Bool
is_covered lower = str_eq lower "content-type" || starts_with lower "x-amz-"

-- The lower-case names of the headers that are content-type or begin with x-amz-, in their order.
abbrev pub signed_names : Dict String → List String
signed_names [] = []
signed_names ((name, v) ∷ header) =
    let rest = signed_names header in
    if is_covered (to_lower name) then to_lower name ∷ rest else rest

host_uncovered : (lower : String) → str_eq lower "host" ≡ true → is_covered lower ≡ false
host_uncovered lower h = rw ((eq_iff lower "host").0 h) refl

collect_names :
    (header : Dict String) (names : List String) (values : Dict String)
    → (collect header names values).0 ≡ names ++ signed_names header
unfolding collect
collect_names [] names values = sym (append-nil names)
collect_names ((name, v) ∷ header) names values =
    elim (Bool-cases (str_eq (to_lower name) "host")) [
      | inl host ↦
          rw (host, host_uncovered (to_lower name) host) (collect_names header names values)
      | inr other ↦ elim (Bool-cases (is_covered (to_lower name))) [
        | inl signed ↦
            rw (other, signed)
              (collect_names header (names ++ to_lower name ∷ []) _
                ∙ append_assoc names (to_lower name ∷ []) (signed_names header))
        | inr unsigned ↦ rw (other, unsigned) (collect_names header names values)
      ]
    ]

-- The list of signed headers names, in ascending order, the host and every header that is content-type
-- or begins with x-amz-, whatever its case, each as often as it occurs, and no other; so
-- the order of the map does not show.
pub signed_headers_cover :
    (host : String) (header : Dict String)
    → (names : List String) × ((canonicalize_headers host header).0 ≡ join names ";")
      × Ascends names
      × Perm names ("host" ∷ signed_names header)
unfolding canonicalize_headers
signed_headers_cover host header =
    let found = collect_names header ("host" ∷ []) (("host", trim_space host) ∷ []) in
    (
      sort ("host" ∷ signed_names header),
      ap (λ l. join (sort l) ";") found,
      sort-Ascends _,
      sort-Perm _,
    )
