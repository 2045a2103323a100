-- ===== src/Prelude/Joined/RoundTrip.antt =====
-- Splitting a text at a character, and joining parts that do not hold it, undo each other; and the
-- order of `sort.Strings`.
use Prim.Native.Nat.{ℕ, Ordering, compare as compare_ℕ}
use Prim.Native.Char.{Char, code}
use Prim.Native.String.{String, [] as empty, ◌∷◌ as ◌◂◌, ◌++◌ as ◌<>◌, compare, then as first_of}
use Prim.Native.String.compare
use Prim.Native.String.append
use mathlib.Core.Path.{◌≡◌, refl, sym, ◌∙◌, ap}
use mathlib.Core.Logic.{◌≢◌, inl, inr}
use mathlib.Core.Bool.{true, false}
use mathlib.Core.List.{List, [], ◌∷◌}
use native.Mathlib.Omega.{arith}
use text.Mathlib.Text.{is_le}
use llm_gateway_platform.Prelude.Tests.{◌==◌, Bool-cases}
use llm_gateway_platform.Prelude.Lists.{All}
use llm_gateway_platform.Prelude.Joined.{join, on_first, split, insert_sorted, sort}

-- The order of texts is total.
flip : Ordering → Ordering
flip Ordering.lt = Ordering.gt
flip Ordering.eq = Ordering.eq
flip Ordering.gt = Ordering.lt

compare_flip_ℕ : (m n : ℕ) → compare_ℕ n m ≡ flip (compare_ℕ m n)
unfolding flip
compare_flip_ℕ m n = ground arith

first_of-flip : (o p : Ordering) → first_of (flip o) (flip p) ≡ flip (first_of o p)
unfolding flip
first_of-flip Ordering.lt p = refl
first_of-flip Ordering.eq p = refl
first_of-flip Ordering.gt p = refl

compare-flip : (s t : String) → compare t s ≡ flip (compare s t)
unfolding flip
compare-flip empty empty = rw compare.nil-nil
compare-flip empty (d ◂ t) = rw (compare.nil-cons, compare.cons-nil)
compare-flip (c ◂ s) empty = rw (compare.nil-cons, compare.cons-nil)
compare-flip (c ◂ s) (d ◂ t) =
    compare.cons-cons d c t s
    ∙ (λ i. first_of (compare_flip_ℕ (code c) (code d) i) (compare-flip s t i))
    ∙ first_of-flip (compare_ℕ (code c) (code d)) (compare s t)
    ∙ ap flip (sym (compare.cons-cons c d s t))

is_le-flip : (o : Ordering) → is_le o ≡ false → is_le (flip o) ≡ true
unfolding flip
is_le-flip Ordering.lt h = cc
is_le-flip Ordering.eq h = cc
is_le-flip Ordering.gt h = refl

le_total : (s t : String) → is_le (compare s t) ≡ false → is_le (compare t s) ≡ true
le_total s t h = rw (compare-flip s t) (is_le-flip (compare s t) h)

-- Each text is not above the next one.
abbrev pub Ascends : List String → Type 0
Ascends [] = Unit
Ascends (x ∷ []) = Unit
Ascends (x ∷ y ∷ ys) = (is_le (compare x y) ≡ true) × Ascends (y ∷ ys)

insert_sorted-Ascends :
    (x y : String) (ys : List String)
    → is_le (compare x y) ≡ false
    → Ascends (y ∷ ys)
    → Ascends (y ∷ insert_sorted x ys)
unfolding insert_sorted
insert_sorted-Ascends x y [] above h = (le_total x y above, tt)
insert_sorted-Ascends x y (z ∷ zs) above (low, h) = elim (Bool-cases (is_le (compare x z))) [
  | inl e ↦ rw e (le_total x y above, (e, h))
  | inr e ↦ rw e (low, insert_sorted-Ascends x z zs e h)
]

insert-Ascends : (x : String) (ys : List String) → Ascends ys → Ascends (insert_sorted x ys)
unfolding insert_sorted
insert-Ascends x [] h = tt
insert-Ascends x (y ∷ ys) h = elim (Bool-cases (is_le (compare x y))) [
  | inl e ↦ rw e (e, h)
  | inr e ↦ rw e (insert_sorted-Ascends x y ys e h)
]

pub sort-Ascends : (xs : List String) → Ascends (sort xs)
unfolding sort
sort-Ascends [] = tt
sort-Ascends (x ∷ xs) = insert-Ascends x (sort xs) (sort-Ascends xs)

-- A list in order stays as it is.
pub sorted_stays : (xs : List String) → Ascends xs → sort xs ≡ xs
unfolding sort insert_sorted
sorted_stays [] h = refl
sorted_stays (x ∷ []) h = refl
sorted_stays (x ∷ y ∷ ys) (low, h) = rw (sorted_stays (y ∷ ys) h) (rw (insert_sorted, low) refl)

-- A text without the character.
abbrev pub Lacks : ℕ → String → Type 0
Lacks sep empty = Unit
Lacks sep (c ◂ s) = ((code c == sep) ≡ false) × Lacks sep s

module _ (sep : Char) where
  abbrev mark : String
  mark = sep ◂ empty

  split_whole : (x : String) → Lacks (code sep) x → split x (code sep) ≡ x ∷ []
  unfolding split
  split_whole empty h = refl
  split_whole (c ◂ s) (other, h) = rw (other, split_whole s h)

  split_sep : (s : String) → split (sep ◂ s) (code sep) ≡ "" ∷ split s (code sep)
  unfolding split
  split_sep s = let same : (code sep == code sep) ≡ true = ground arith in rw same

  split_other :
      (c : Char) (s : String)
      → (code c == code sep) ≡ false
      → split (c ◂ s) (code sep) ≡ on_first c (split s (code sep))
  unfolding split
  split_other c s other = rw other

  mark_before : (s : String) → mark <> s ≡ sep ◂ s
  mark_before s = append.cons sep empty s ∙ ap (λ t. sep ◂ t) (append.nil s)

  split-mark :
      (x s : String)
      → Lacks (code sep) x
      → split (x <> mark <> s) (code sep) ≡ x ∷ split s (code sep)
  split-mark empty s h =
      ap (λ t. split t (code sep)) (append.nil (mark <> s) ∙ mark_before s) ∙ split_sep s
  split-mark (c ◂ x) s (other, h) =
      ap (λ t. split t (code sep)) (append.cons c x (mark <> s))
      ∙ split_other c (x <> mark <> s) other
      ∙ ap (on_first c) (split-mark x s h)

  -- Parts without the separator, at least one, come back when they are joined and then split.
  pub split-join :
      (xs : List String)
      → xs ≢ []
      → All (Lacks (code sep)) xs
      → split (join xs mark) (code sep) ≡ xs
  unfolding join
  split-join [] some_part h = absurd (some_part refl)
  split-join (x ∷ []) some_part (lacks, _) = split_whole x lacks
  split-join (x ∷ y ∷ ys) some_part (lacks, h) =
      split-mark x (join (y ∷ ys) mark) lacks ∙ ap (λ l. x ∷ l) (split-join (y ∷ ys) (λ e. cc) h)

  on_first-Lacks :
      (c : Char) (xs : List String)
      → (code c == code sep) ≡ false
      → All (Lacks (code sep)) xs
      → All (Lacks (code sep)) (on_first c xs)
  on_first-Lacks c [] other h = ((other, tt), tt)
  on_first-Lacks c (x ∷ xs) other (here, h) = ((other, here), h)

  pub split-Lacks : (s : String) → All (Lacks (code sep)) (split s (code sep))
  unfolding split
  split-Lacks empty = (tt, tt)
  split-Lacks (c ◂ s) = elim (Bool-cases (code c == code sep)) [
    | inl e ↦ rw e (tt, split-Lacks s)
    | inr e ↦ rw e (on_first-Lacks c (split s (code sep)) e (split-Lacks s))
  ]

  on_first_some : (c : Char) (xs : List String) → on_first c xs ≢ []
  on_first_some c [] h = cc
  on_first_some c (x ∷ xs) h = cc

  pub split_some : (s : String) → split s (code sep) ≢ []
  unfolding split
  split_some empty h = cc
  split_some (c ◂ s) h = elim (Bool-cases (code c == code sep)) [
    | inl e ↦ let bad : ("" ∷ split s (code sep)) ≡ [] = rw e at h in cc
    | inr e ↦ on_first_some c (split s (code sep)) (rw e at h)
  ]

-- Sorting keeps what holds of every text, and keeps some text.
module _ (P : String → Type 0) where
  insert_sorted-All : (x : String) (ys : List String) → P x → All P ys → All P (insert_sorted x ys)
  unfolding insert_sorted
  insert_sorted-All x [] here h = (here, tt)
  insert_sorted-All x (y ∷ ys) here (head, h) = elim (Bool-cases (is_le (compare x y))) [
    | inl e ↦ rw e (here, (head, h))
    | inr e ↦ rw e (head, insert_sorted-All x ys here h)
  ]

  pub sort-All : (xs : List String) → All P xs → All P (sort xs)
  unfolding sort
  sort-All [] h = tt
  sort-All (x ∷ xs) (here, h) = insert_sorted-All x (sort xs) here (sort-All xs h)

insert_sorted_some : (x : String) (ys : List String) → insert_sorted x ys ≢ []
unfolding insert_sorted
insert_sorted_some x [] h = cc
insert_sorted_some x (y ∷ ys) h = elim (Bool-cases (is_le (compare x y))) [
  | inl e ↦ let bad : (x ∷ y ∷ ys) ≡ [] = rw e at h in cc
  | inr e ↦ let bad : (y ∷ insert_sorted x ys) ≡ [] = rw e at h in cc
]

pub sort_some : (xs : List String) → xs ≢ [] → sort xs ≢ []
unfolding sort
sort_some [] h k = h refl
sort_some (x ∷ xs) h k = insert_sorted_some x (sort xs) k
