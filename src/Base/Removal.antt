-- ===== src/Base/Removal.antt =====
-- Taking elements out of a sorted list.
use ofborg.Base.Tests.{if◌then◌else◌, Bool-cases}
use ofborg.Base.Texts.{Text, text_eq, contains, text_eq_iff, text_eq_refl}
use ofborg.Base.Lists.{all}
use ofborg.Base.Sort.{distinct, text_eq_sym, text_le}
use ofborg.Base.Order.{sorted}
use mathlib.Core.Path.{◌≡◌, refl, sym, ap}
use mathlib.Core.Logic.{inl, inr}
use mathlib.Core.Bool.{Bool, true, false, not, ◌&&◌}
use mathlib.Core.List.{List, [], ◌∷◌}
use mathlib.Core.Option.{Option, none, some}
use native.Mathlib.Omega.{arith}

abbrev cons_to : Text → Option (List Text) → Option (List Text)
cons_to x none = none
cons_to x (some l) = some (x ∷ l)

-- the first `a` taken out; all of them are equal
unfoldable pub remove_found : Text → List Text → Option (List Text)
remove_found a [] = none
remove_found a (x ∷ xs) =
    let rest = remove_found a xs in if text_eq a x then some xs else cons_to x rest

-- `let pos = remove.binary_search(a).unwrap(); remove.remove(pos)`: on a sorted vector the search finds
-- `a` if it is there, and fails otherwise, which panics. What it gives on a vector that is not sorted is
-- unspecified, and counts as a panic, too.
unfoldable pub remove_searched : Text → List Text → Option (List Text)
unfolding remove_found sorted
remove_searched a xs = let removed = remove_found a xs in if sorted xs then removed else none

unfoldable pub remove_all : List Text → List Text → Option (List Text)
remove_all [] xs = some xs
remove_all (a ∷ rest) xs = elim (remove_searched a xs) [
  | none ↦ none
  | some ys ↦ remove_all rest ys
]

-- What is left of a list without repetitions, when its element `a` is taken out.
pub record IsWithout (a : Text) (xs ys : List Text) : Type 0 where
  pub found : remove_found a xs ≡ some ys
  pub rest : (b : Text) → contains ys b ≡ (contains xs b && not (text_eq b a))
  pub apart : distinct ys ≡ true
  pub kept : (p : Text → Bool) → all p xs ≡ true → all p ys ≡ true
  pub ordered : sorted xs ≡ true → sorted ys ≡ true

same_text_eq : (a b x : Text) → text_eq a x ≡ true → text_eq b x ≡ text_eq b a
same_text_eq a b x h = let e : a ≡ x = (text_eq_iff a x).0 h in ap (text_eq b) (sym e)

same_contains : (xs : List Text) (a b : Text) → text_eq a b ≡ true → contains xs a ≡ contains xs b
same_contains xs a b h = ap (contains xs) ((text_eq_iff a b).0 h)

without-here :
    (a x : Text) (xs : List Text)
    → text_eq a x ≡ true
    → distinct (x ∷ xs) ≡ true
    → (b : Text) → contains xs b ≡ (contains (x ∷ xs) b && not (text_eq b a))
unfolding contains distinct
without-here a x xs e d b = ground (arith, same_text_eq a b x e, same_contains xs b x)

without-later :
    (a x : Text) (xs ys : List Text)
    → text_eq a x ≡ false
    → ((b : Text) → contains ys b ≡ (contains xs b && not (text_eq b a)))
    → (b : Text) → contains (x ∷ ys) b ≡ (contains (x ∷ xs) b && not (text_eq b a))
unfolding contains
without-later a x xs ys e h b =
    ground (arith, h b, text_eq_sym a x, same_text_eq b a x, text_eq_sym b a)

remove_found_lem :
    (a : Text) (xs : List Text)
    → distinct xs ≡ true
    → contains xs a ≡ true
    → (ys : List Text) × IsWithout a xs ys
unfolding remove_found contains distinct sorted
remove_found_lem a [] d h = absurd (ground arith)
remove_found_lem a (x ∷ xs) d h = elim (Bool-cases (text_eq a x)) [
  | inl e ↦ (
    xs,
    record {
      found = rw e refl;
      rest = without-here a x xs e d;
      apart = ground arith;
      kept = λ p h. ground arith;
      ordered = λ h. ground arith;
    },
  )
  | inr e ↦ later e (remove_found_lem a xs (ground arith) (ground arith))
]
  where
    later :
        text_eq a x ≡ false
        → (ys : List Text) × IsWithout a xs ys
        → (ys : List Text) × IsWithout a (x ∷ xs) ys
    later e (ys, w) = (
      x ∷ ys,
      record {
        found = rw (e, w.found) refl;
        rest = without-later a x xs ys e w.rest;
        apart = ground (arith, w.rest x, w.apart);
        kept = λ p h. ground (arith, w.kept p);
        ordered = λ h. ground (arith, w.kept (text_le x), w.ordered);
      },
    )

-- Distinct elements of a sorted list without repetitions can be taken out one after the other; what is
-- left are the others.
pub remove_all_lem :
    (taken xs : List Text)
    → distinct taken ≡ true
    → distinct xs ≡ true
    → sorted xs ≡ true
    → ((b : Text) → contains taken b ≡ true → contains xs b ≡ true)
    → (ys : List Text) × (remove_all taken xs ≡ some ys)
      × ((b : Text) → contains ys b ≡ (contains xs b && not (contains taken b)))
unfolding remove_all remove_searched distinct contains
remove_all_lem [] xs dt dx sx sub = (xs, refl, λ b. ground arith)
remove_all_lem (a ∷ rest) xs dt dx sx sub =
    let w = remove_found_lem a xs dx (sub a (ground (arith, text_eq_refl a))) in
    let ih =
      remove_all_lem rest w.0 (ground arith) w.1.apart (w.1.ordered sx)
        (λ b h. ground (arith, sub b, w.1.rest b, same_contains rest b a)) in
    (ih.0, rw (w.1.found, sx, remove_all) ih.1, λ b. ground (arith, ih.2 b, w.1.rest b))
