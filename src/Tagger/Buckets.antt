-- ===== src/Tagger/Buckets.antt =====
-- The labels and the numbers of rebuilt packages: `RebuildTagger` of ofborg/src/tagger.rs.
use ofborg.Base.{
  ℕ, Bool, true, false, not, ◌&&◌, ◌||◌, some, List, [], ◌∷◌, ◌++◌, map, Text, text, text_eq,
  contains, all, leb, if◌then◌else◌, ◌≡◌, refl, ap, ◌∙◌, arith, decimal, contains-append,
  contains-keep, Occurs,
}
use ofborg.Tagger.{PackageArch, only_possible}
use ofborg.Tagger.Rebuild.{
  RebuildTagger, darwin, linux, new, bucket, counter, parse_attrs, tags_to_remove,
}

-- A range of numbers, with or without an upper end.
pub data Range : Type 0 where
  between : ℕ → ℕ → Range
  from : ℕ → Range

-- how a range is written
unfoldable pub label : Range → Text
label (between low high) =
    if leb high low then decimal low else decimal low ++ (text "-" ++ decimal high)
label (from low) = decimal low ++ text "+"

unfoldable pub within : Range → ℕ → Bool
within (between low high) n = leb low n && leb n high
within (from low) n = leb low n

abbrev pub ranges : List Range
ranges =
    between 0 0
    ∷ between 1 10
    ∷ between 11 100
    ∷ between 101 500
    ∷ from 501
    ∷ between 501 1000
    ∷ between 1001 2500
    ∷ between 2501 5000
    ∷ from 5001
    ∷ []

-- A label stands in the bucket exactly if the count is in its range.
bucket-within : (n : ℕ) (r : Range) → Occurs r ranges → contains (bucket n) (label r) ≡ within r n
unfolding bucket label within contains text_eq text decimal
bucket-within n r h = ground arith

all_possible_darwin :
    (n : ℕ) → all (contains new.possible) (map (λ b. darwin ++ b) (bucket n)) ≡ true
unfolding new bucket contains text_eq text
all_possible_darwin n = ground arith

all_possible_linux : (n : ℕ) → all (contains new.possible) (map (λ b. linux ++ b) (bucket n)) ≡ true
unfolding new bucket contains text_eq text
all_possible_linux n = ground arith

contains-map_prefix :
    (p : Text) (xs : List Text) (a : Text)
    → contains (map (λ b. p ++ b) xs) (p ++ a) ≡ contains xs a
unfolding contains text_eq
contains-map_prefix p [] a = refl
contains-map_prefix p (x ∷ xs) a =
    ap (λ t. t || contains (map (λ b. p ++ b) xs) (p ++ a)) (text_eq-prefix p)
    ∙ ap (λ t. text_eq a x || t) (contains-map_prefix p xs a)
  where
    text_eq-prefix : (p : Text) → text_eq (p ++ a) (p ++ x) ≡ text_eq a x
    text_eq-prefix [] = refl
    text_eq-prefix (c ∷ p) = ground (arith, text_eq-prefix p)

not_darwin : (xs : List Text) (a : Text) → contains (map (λ b. darwin ++ b) xs) (linux ++ a) ≡ false
unfolding contains text_eq text
not_darwin [] a = refl
not_darwin (x ∷ xs) a = not_darwin xs a

not_linux : (xs : List Text) (a : Text) → contains (map (λ b. linux ++ b) xs) (darwin ++ a) ≡ false
unfolding contains text_eq text
not_linux [] a = refl
not_linux (x ∷ xs) a = not_linux xs a

abbrev selection : List PackageArch → List Text
selection attrs =
    map (λ b. darwin ++ b) (bucket (counter (text "x86_64-darwin") attrs))
    ++ map (λ b. linux ++ b) (bucket (counter (text "x86_64-linux") attrs))

all-append :
    (p : Text → Bool) (xs ys : List Text)
    → all p xs ≡ true
    → all p ys ≡ true
    → all p (xs ++ ys) ≡ true
all-append p [] ys hx hy = hy
all-append p (x ∷ xs) ys hx hy = ground (arith, all-append p xs ys)

only_possible-selection :
    (attrs : List PackageArch) → only_possible new.possible (selection attrs) ≡ true
unfolding only_possible
only_possible-selection attrs =
    all-append (contains new.possible)
      (map (λ b. darwin ++ b) (bucket (counter (text "x86_64-darwin") attrs)))
      (map (λ b. linux ++ b) (bucket (counter (text "x86_64-linux") attrs)))
      (all_possible_darwin (counter (text "x86_64-darwin") attrs))
      (all_possible_linux (counter (text "x86_64-linux") attrs))

-- The tagger never panics. For every range that has a label, the label of darwin is selected exactly
-- if the number of packages of x86_64-darwin is in the range, and likewise for linux.
pub parse_attrs-within :
    (attrs : List PackageArch)
    → (t : RebuildTagger) × (parse_attrs attrs new ≡ some t)
      × ((r : Range)
          → Occurs r ranges
          → (contains t.selected (darwin ++ label r)
              ≡ within r (counter (text "x86_64-darwin") attrs))
            × (contains t.selected (linux ++ label r)
                ≡ within r (counter (text "x86_64-linux") attrs)))
unfolding parse_attrs
parse_attrs-within attrs = (
  record { possible = new.possible; selected = selection attrs },
  rw (only_possible-selection attrs) refl,
  λ r h. (
    ground (
      arith,
      contains-append (map (λ b. darwin ++ b) (bucket d)) (map (λ b. linux ++ b) (bucket l))
          (darwin ++ label r),
      contains-map_prefix darwin (bucket d) (label r),
      not_linux (bucket l) (label r),
      bucket-within d r h,
    ),
    ground (
      arith,
      contains-append (map (λ b. darwin ++ b) (bucket d)) (map (λ b. linux ++ b) (bucket l))
          (linux ++ label r),
      contains-map_prefix linux (bucket l) (label r),
      not_darwin (bucket d) (label r),
      bucket-within l r h,
    ),
  ),
)
  where
    d : ℕ
    d = counter (text "x86_64-darwin") attrs

    l : ℕ
    l = counter (text "x86_64-linux") attrs

-- What is removed are the possible labels that were not selected, whatever was selected.
pub tags_to_remove-contains :
    (t : RebuildTagger) (a : Text)
    → contains (tags_to_remove t) a ≡ (contains t.possible a && not (contains t.selected a))
unfolding tags_to_remove
tags_to_remove-contains t a = contains-keep (λ tag. not (contains t.selected tag)) t.possible a

pub parse_attrs-possible :
    (attrs : List PackageArch) (t t' : RebuildTagger)
    → parse_attrs attrs t ≡ some t'
    → t'.possible ≡ t.possible
unfolding parse_attrs
parse_attrs-possible attrs t t' h = ground arith

-- Every range's label is a possible one, for both systems.
pub new-possible :
    (r : Range)
    → Occurs r ranges
    → (contains new.possible (darwin ++ label r) ≡ true)
      × (contains new.possible (linux ++ label r) ≡ true)
unfolding new label contains text_eq text decimal
new-possible r h = (ground arith, ground arith)
