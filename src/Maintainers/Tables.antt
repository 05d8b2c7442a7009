-- ===== src/Maintainers/Tables.antt =====
-- The pairs that the two tables list: ofborg/src/maintainers.rs.
use ofborg.Base.{
  Bool, true, ◌&&◌, ◌||◌, List, [], ◌∷◌, any, Text, text_eq, contains, ◌≡◌, refl, sym, ap, arith,
  text_eq_iff,
}
use ofborg.Maintainers.{
  ImpactedMaintainers, MaintainersByPackage, insert_name, insert_maintainer, insert_packages,
  by_package_from, maintainers_by_package,
}

-- Some entry for the key lists the element.
abbrev pub lists : List (Text × List Text) → Text → Text → Bool
lists table key a = any (λ e. text_eq key e.0 && contains e.1 a) table

same_contains : (s : List Text) (a b : Text) → text_eq a b ≡ true → contains s a ≡ contains s b
same_contains s a b h = ap (contains s) ((text_eq_iff a b).0 h)

contains-insert_name :
    (n : Text) (set : List Text) (a : Text)
    → contains (insert_name n set) a ≡ (text_eq a n || contains set a)
unfolding contains
contains-insert_name n set a = ground (arith, same_contains set a n)

same_key : (p q k : Text) → text_eq p q ≡ true → text_eq k q ≡ text_eq k p
same_key p q k h = ap (text_eq k) (sym ((text_eq_iff p q).0 h))

lists-insert_maintainer :
    (p n : Text) (t : MaintainersByPackage) (key a : Text)
    → lists (insert_maintainer p n t) key a ≡ ((text_eq key p && text_eq a n) || lists t key a)
unfolding insert_maintainer contains
lists-insert_maintainer p n [] key a = ground arith
lists-insert_maintainer p n ((q, set) ∷ rest) key a =
    ground (
      arith,
      lists-insert_maintainer p n rest key a,
      contains-insert_name n set a,
      same_key p q key,
    )

lists-insert_packages :
    (n : Text) (ps : List Text) (t : MaintainersByPackage) (key a : Text)
    → lists (insert_packages n ps t) key a ≡ ((contains ps key && text_eq a n) || lists t key a)
unfolding insert_packages contains
lists-insert_packages n [] t key a = refl
lists-insert_packages n (p ∷ ps) t key a = ground (
  arith,
  lists-insert_packages n ps (insert_maintainer p n t) key a,
  lists-insert_maintainer p n t key a,
)

lists-by_package_from :
    (m : ImpactedMaintainers) (t : MaintainersByPackage) (key a : Text)
    → lists (by_package_from m t) key a ≡ (lists m a key || lists t key a)
unfolding by_package_from
lists-by_package_from [] t key a = refl
lists-by_package_from (e ∷ m) t key a = ground (
  arith,
  lists-by_package_from m (insert_packages e.0 e.1 t) key a,
  lists-insert_packages e.0 e.1 t key a,
)

-- A maintainer is listed for a package exactly if the package is listed for the maintainer.
pub maintainers_by_package-lists :
    (m : ImpactedMaintainers) (package_name maintainer : Text)
    → lists (maintainers_by_package m) package_name maintainer ≡ lists m maintainer package_name
unfolding maintainers_by_package
maintainers_by_package-lists m p a = ground (arith, lists-by_package_from m [] p a)
