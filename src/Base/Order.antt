-- ===== src/Base/Order.antt =====
-- The order of texts, the sorted lists, and `Vec::dedup`.
use ofborg.Base.Lists.{all}
use ofborg.Base.Tests.{if◌then◌else◌}
use ofborg.Base.Texts.{Text, text_eq, contains, text_eq_iff}
use ofborg.Base.Sort.{text_le, insert_text, sort, distinct}
use mathlib.Core.Path.{◌≡◌, refl, subst}
use mathlib.Core.Bool.{Bool, true, false, ◌&&◌}
use mathlib.Core.List.{List, [], ◌∷◌}
use native.Mathlib.Omega.{arith}

text_le_total : (s t : Text) → text_le s t ≡ false → text_le t s ≡ true
unfolding text_le
text_le_total [] t h = ground arith
text_le_total (c ∷ s) [] h = refl
text_le_total (c ∷ s) (d ∷ t) h = ground (arith, text_le_total s t)

text_le_trans : (s t u : Text) → text_le s t ≡ true → text_le t u ≡ true → text_le s u ≡ true
unfolding text_le
text_le_trans [] t u h k = refl
text_le_trans (c ∷ s) [] u h k = ground arith
text_le_trans (c ∷ s) (d ∷ t) [] h k = ground arith
text_le_trans (c ∷ s) (d ∷ t) (e ∷ u) h k = ground (arith, text_le_trans s t u)

text_le_antisym : (s t : Text) → text_le s t ≡ true → text_le t s ≡ true → text_eq s t ≡ true
unfolding text_le text_eq
text_le_antisym [] [] h k = refl
text_le_antisym [] (d ∷ t) h k = ground arith
text_le_antisym (c ∷ s) [] h k = ground arith
text_le_antisym (c ∷ s) (d ∷ t) h k = ground (arith, text_le_antisym s t)

-- Every text stands in front of those that it does not exceed.
unfoldable pub sorted : List Text → Bool
sorted [] = true
sorted (x ∷ xs) = all (text_le x) xs && sorted xs

all-insert_text :
    (a x : Text) (xs : List Text)
    → all (text_le a) (insert_text x xs) ≡ (text_le a x && all (text_le a) xs)
unfolding insert_text
all-insert_text a x [] = ground arith
all-insert_text a x (y ∷ ys) = ground (arith, all-insert_text a x ys)

all-below :
    (a x : Text) (xs : List Text)
    → text_le a x ≡ true
    → all (text_le x) xs ≡ true
    → all (text_le a) xs ≡ true
all-below a x [] h k = refl
all-below a x (y ∷ ys) h k = ground (arith, text_le_trans a x y h, all-below a x ys h)

sorted-insert_text :
    (x : Text) (xs : List Text) → sorted xs ≡ true → sorted (insert_text x xs) ≡ true
unfolding insert_text sorted
sorted-insert_text x [] h = refl
sorted-insert_text x (y ∷ ys) h =
    ground
      (arith, sorted-insert_text x ys, all-below x y ys, text_le_total x y, all-insert_text y x ys)

pub sorted-sort : (xs : List Text) → sorted (sort xs) ≡ true
unfolding sort sorted
sorted-sort [] = refl
sorted-sort (x ∷ xs) = sorted-insert_text x (sort xs) (sorted-sort xs)

-- `Vec::dedup`
unfoldable pub dedup : List Text → List Text
dedup [] = []
dedup (a ∷ []) = a ∷ []
dedup (a ∷ b ∷ rest) = let later = dedup (b ∷ rest) in if text_eq a b then later else a ∷ later

pub contains-dedup : (xs : List Text) (a : Text) → contains (dedup xs) a ≡ contains xs a
unfolding dedup contains
contains-dedup [] a = refl
contains-dedup (x ∷ []) a = refl
contains-dedup (x ∷ y ∷ rest) a = ground (arith, contains-dedup (y ∷ rest) a, same)
  where
    same : text_eq x y ≡ true → text_eq a x ≡ text_eq a y
    same e = subst (λ z. text_eq a x ≡ text_eq a z) ((text_eq_iff x y).0 e) refl

below-contained :
    (x a : Text) (xs : List Text)
    → all (text_le x) xs ≡ true
    → contains xs a ≡ true
    → text_le x a ≡ true
unfolding contains
below-contained x a [] h k = ground arith
below-contained x a (y ∷ ys) h k = ground (arith, below-contained x a ys, same)
  where
    same : text_eq a y ≡ true → text_le x y ≡ text_le x a
    same e = subst (λ z. text_le x z ≡ text_le x a) ((text_eq_iff a y).0 e) refl

pub distinct-dedup : (xs : List Text) → sorted xs ≡ true → distinct (dedup xs) ≡ true
unfolding dedup distinct sorted contains
distinct-dedup [] h = refl
distinct-dedup (x ∷ []) h = refl
distinct-dedup (x ∷ y ∷ rest) h = ground (
  arith,
  distinct-dedup (y ∷ rest),
  contains-dedup (y ∷ rest) x,
  below-contained y x rest,
  text_le_antisym x y,
)
