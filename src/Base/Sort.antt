-- ===== src/Base/Sort.antt =====
-- `Vec<String>::sort`, which orders by code point, and `str::contains`.
use ofborg.Base.Lists.{is_empty, keep}
use ofborg.Base.Tests.{ltb, ◌==◌, if◌then◌else◌}
use ofborg.Base.Texts.{Text, text_eq, contains, text_eq_iff}
use mathlib.Core.Path.{◌≡◌, refl, sym, ap}
use mathlib.Core.Bool.{Bool, true, false, not, ◌&&◌, ◌||◌}
use mathlib.Core.List.{List, [], ◌∷◌, ◌++◌}
use native.Mathlib.Omega.{arith}

unfoldable pub text_le : Text → Text → Bool
text_le [] t = true
text_le (c ∷ s) [] = false
text_le (c ∷ s) (d ∷ t) = ltb c d || ((c == d) && text_le s t)

unfoldable pub insert_text : Text → List Text → List Text
insert_text a [] = a ∷ []
insert_text a (x ∷ xs) = let rest = insert_text a xs in if text_le a x then a ∷ x ∷ xs else x ∷ rest

unfoldable pub sort : List Text → List Text
unfolding insert_text
sort [] = []
sort (x ∷ xs) = insert_text x (sort xs)

contains-insert_text :
    (a x : Text) (xs : List Text) → contains (insert_text x xs) a ≡ (text_eq a x || contains xs a)
unfolding insert_text contains
contains-insert_text a x [] = ground arith
contains-insert_text a x (y ∷ ys) = ground (arith, contains-insert_text a x ys)

-- Sorting keeps the elements.
pub contains-sort : (a : Text) (xs : List Text) → contains (sort xs) a ≡ contains xs a
unfolding sort contains
contains-sort a [] = refl
contains-sort a (x ∷ xs) = ground (arith, contains-insert_text a x (sort xs), contains-sort a xs)

pub contains-append :
    (xs ys : List Text) (a : Text) → contains (xs ++ ys) a ≡ (contains xs a || contains ys a)
unfolding contains
contains-append [] ys a = refl
contains-append (x ∷ xs) ys a = ground (arith, contains-append xs ys a)

-- No text stands twice in the list.
unfoldable pub distinct : List Text → Bool
unfolding contains
distinct [] = true
distinct (x ∷ xs) = not (contains xs x) && distinct xs

pub text_eq_sym : (s t : Text) → text_eq s t ≡ text_eq t s
unfolding text_eq
text_eq_sym [] [] = refl
text_eq_sym [] (d ∷ t) = refl
text_eq_sym (c ∷ s) [] = refl
text_eq_sym (c ∷ s) (d ∷ t) = ground (arith, text_eq_sym s t)

distinct-insert_text :
    (x : Text) (xs : List Text) → distinct (insert_text x xs) ≡ (not (contains xs x) && distinct xs)
unfolding insert_text distinct contains
distinct-insert_text x [] = ground arith
distinct-insert_text x (y ∷ ys) =
    ground (arith, distinct-insert_text x ys, contains-insert_text y x ys, text_eq_sym x y)

pub distinct-sort : (xs : List Text) → distinct (sort xs) ≡ distinct xs
unfolding sort distinct
distinct-sort [] = refl
distinct-sort (x ∷ xs) =
    ground (arith, distinct-insert_text x (sort xs), contains-sort x xs, distinct-sort xs)

unfoldable pub starts_with : Text → Text → Bool
starts_with [] s = true
starts_with (c ∷ p) [] = false
starts_with (c ∷ p) (d ∷ s) = (c == d) && starts_with p s

-- `s.contains(p)` on texts
unfoldable pub has_substring : Text → Text → Bool
unfolding starts_with
has_substring p [] = is_empty p
has_substring p (c ∷ s) = starts_with p (c ∷ s) || has_substring p s

pub contains-keep :
    (p : Text → Bool) (xs : List Text) (a : Text) → contains (keep p xs) a ≡ (contains xs a && p a)
unfolding contains
contains-keep p [] a = refl
contains-keep p (x ∷ xs) a = ground (arith, contains-keep p xs a, same)
  where
    same : text_eq a x ≡ true → p x ≡ p a
    same e = ap p (sym ((text_eq_iff a x).0 e))
