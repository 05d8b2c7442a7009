-- ===== src/OutPathDiff/Rebuilds.antt =====
-- Which packages are rebuilt, added and removed: ofborg/src/outpathdiff.rs.
use ofborg.Base.{
  Bool, true, not, Option, none, some, List, [], ◌∷◌, map, keep, is_some, Text, ◌≡◌, ◌≢◌, ◌↔◌, refl,
  ap, arith, Occurs, text_eq_iff, inl, inr, Bool-cases,
}
use ofborg.Tagger.{PackageArch}
use ofborg.OutPathDiff.{
  PackageOutPaths, OutPathDiff, same_package, get, same_path, keys_without, changed_keys,
  package_diff, calculate_rebuild,
}

same_path_iff : (s t : Option Text) → (same_path s t ≡ true) ↔ (s ≡ t)
unfolding same_path
same_path_iff none none = ground arith
same_path_iff none (some b) = ground arith
same_path_iff (some a) none = ground arith
same_path_iff (some a) (some b) = ground (arith, text_eq_iff a b)

Occurs-keep_iff :
    {A : Type 0} (q : A → Bool) (a : A) (xs : List A)
    → Occurs a (keep q xs) ↔ (Occurs a xs × (q a ≡ true))
Occurs-keep_iff q a [] = ((λ h. absurd h), λ h. absurd h.0)
Occurs-keep_iff q a (x ∷ xs) = elim (Bool-cases (q x)) [
  | inl e ↦ rw e (ground (arith, Occurs-keep_iff q a xs, moved))
  | inr e ↦ rw e (ground (arith, Occurs-keep_iff q a xs, moved))
]
  where
    moved : a ≡ x → q a ≡ q x
    moved h = ap q h

same_package_iff : (p q : PackageArch) → (same_package p q ≡ true) ↔ (p ≡ q)
unfolding same_package
same_package_iff p q = (
  (λ h.
      let names : p.package_name ≡ q.package_name =
        (text_eq_iff p.package_name q.package_name).0 (ground arith) in
      let archs : p.architecture ≡ q.architecture =
        (text_eq_iff p.architecture q.architecture).0 (ground arith) in
      λ i. record { package_name = names i; architecture = archs i }),
  λ e. ground (
    arith,
    text_eq_iff p.package_name q.package_name,
    text_eq_iff p.architecture q.architecture,
    ap (λ (r : PackageArch). r.package_name) e,
    ap (λ (r : PackageArch). r.architecture) e,
  ),
)

-- A key is one that can be got.
key_iff : (p : PackageArch) (m : PackageOutPaths) → Occurs p (map (λ e. e.0) m) ↔ (get p m ≢ none)
unfolding get
key_iff p [] = ((λ h. absurd h), λ h. h refl)
key_iff p ((q, path) ∷ m) = ground (arith, key_iff p m, same_package_iff p q)

is_some_iff : (o : Option Text) → (not (is_some o) ≡ true) ↔ (o ≡ none)
is_some_iff none = ground arith
is_some_iff (some a) = ground arith

keys_without_iff :
    (m n : PackageOutPaths) (p : PackageArch)
    → Occurs p (keys_without m n) ↔ ((get p m ≢ none) × (get p n ≡ none))
unfolding keys_without
keys_without_iff m n p = ground (
  arith,
  Occurs-keep_iff (λ p. not (is_some (get p n))) p (map (λ e. e.0) m),
  key_iff p m,
  is_some_iff (get p n),
)

module _ {S : Type 0} (d : OutPathDiff S) (orig cur : PackageOutPaths × S) where
  -- With both evaluations at hand, the packages to rebuild are those of the current one whose path is
  -- not the same in the original one, new packages included.
  pub calculate_rebuild_iff :
      d.original ≡ some orig
      → d.current ≡ some cur
      → (rebuild : List PackageArch) × (calculate_rebuild d ≡ some rebuild)
        × ((p : PackageArch)
            → Occurs p rebuild ↔ ((get p cur.0 ≢ none) × (get p cur.0 ≢ get p orig.0)))
  unfolding calculate_rebuild changed_keys
  calculate_rebuild_iff o c = (
    changed_keys cur.0 orig.0,
    rw (c, o, calculate_rebuild) refl,
    λ p. ground (
      arith,
      Occurs-keep_iff (λ p. not (same_path (get p cur.0) (get p orig.0))) p (map (λ e. e.0) cur.0),
      key_iff p cur.0,
      same_path_iff (get p cur.0) (get p orig.0),
    ),
  )

  -- With both evaluations at hand, a package is removed if only the original one has it, and added if
  -- only the current one has it.
  pub package_diff_iff :
      d.original ≡ some orig
      → d.current ≡ some cur
      → (removed : List PackageArch) × (added : List PackageArch) × (package_diff d
          ≡ some (removed, added))
        × ((p : PackageArch)
            → (Occurs p removed ↔ ((get p orig.0 ≢ none) × (get p cur.0 ≡ none)))
              × (Occurs p added ↔ ((get p cur.0 ≢ none) × (get p orig.0 ≡ none))))
  unfolding package_diff
  package_diff_iff o c = (
    keys_without orig.0 cur.0,
    keys_without cur.0 orig.0,
    rw (c, o, package_diff) refl,
    λ p. (keys_without_iff orig.0 cur.0 p, keys_without_iff cur.0 orig.0 p),
  )
