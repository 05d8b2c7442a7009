-- ===== src/Tagger/PathLaws.antt =====
-- The labels for changed paths after any number of changes: `PathsTagger` of ofborg/src/tagger.rs.
use ofborg.Base.{
  Bool, true, false, not, ◌&&◌, ◌||◌, some, List, [], ◌∷◌, ◌++◌, map, Text, text_eq, contains, any,
  keep, ◌≡◌, refl, sym, ap, ◌∙◌, arith, sort, contains-sort, contains-append, distinct,
  distinct-sort, text_eq_iff, text_eq_refl, has_substring, remove_all, remove_all_lem, sorted-sort,
}
use ofborg.Tagger.Paths.{PathsTagger, new, path_changed, tags_to_remove}

abbrev Criteria : Type 0
Criteria = List (Text × List Text)

abbrev names : Criteria → List Text
names c = map (λ p. p.0) c

abbrev pub matches : List Text → Text → Bool
matches criteria path = any (λ tp. has_substring tp path) criteria

-- Some entry for the label has a criterion that occurs in one of the paths.
abbrev pub wanted : List (Text × List Text) → List Text → Text → Bool
wanted c paths a = any (λ p. text_eq a p.0 && any (matches p.1) paths) c

unfoldable pub after_paths : List Text → PathsTagger → PathsTagger
after_paths [] t = t
after_paths (path ∷ paths) t = after_paths paths (path_changed path t)

keep_matching : List Text → Text → Criteria → Criteria
keep_matching selected path c =
    keep (λ p. any (λ tp. has_substring tp path) p.1) (keep (λ p. not (contains selected p.0)) c)

contains-keep_matching :
    (selected : List Text) (path : Text) (c : Criteria) (a : Text)
    → contains (names (keep_matching selected path c)) a
      ≡ (not (contains selected a) && wanted c (path ∷ []) a)
unfolding keep_matching contains
contains-keep_matching selected path [] a = ground arith
contains-keep_matching selected path (p ∷ c) a =
    ground (arith, contains-keep_matching selected path c a, same)
  where
    same : text_eq a p.0 ≡ true → contains selected p.0 ≡ contains selected a
    same e = ap (contains selected) (sym ((text_eq_iff a p.0).0 e))

names-keep :
    (q : Text × List Text → Bool) (c : Criteria) (a : Text)
    → contains (names c) a ≡ false
    → contains (names (keep q c)) a ≡ false
unfolding contains
names-keep q [] a h = refl
names-keep q (p ∷ c) a h = ground (arith, names-keep q c a)

distinct-keep :
    (q : Text × List Text → Bool) (c : Criteria)
    → distinct (names c) ≡ true
    → distinct (names (keep q c)) ≡ true
unfolding distinct
distinct-keep q [] d = refl
distinct-keep q (p ∷ c) d = ground (arith, distinct-keep q c, names-keep q c p.0)

distinct-append :
    (xs ys : List Text)
    → distinct xs ≡ true
    → distinct ys ≡ true
    → ((a : Text) → contains ys a ≡ true → contains xs a ≡ false)
    → distinct (xs ++ ys) ≡ true
unfolding distinct contains
distinct-append [] ys dx dy h = dy
distinct-append (x ∷ xs) ys dx dy h =
    let ih = distinct-append xs ys (ground arith) dy (λ a k. ground (arith, h a)) in
    ground (arith, ih, h x, text_eq_refl x, contains-append xs ys x)

wanted-more :
    (c : Criteria) (path : Text) (paths : List Text) (a : Text)
    → wanted c (path ∷ paths) a ≡ (wanted c (path ∷ []) a || wanted c paths a)
wanted-more [] path paths a = refl
wanted-more (p ∷ c) path paths a = ground (arith, wanted-more c path paths a)

selected-path_changed :
    (path : Text) (t : PathsTagger) (a : Text)
    → contains (path_changed path t).selected a
      ≡ (contains t.selected a || wanted t.possible (path ∷ []) a)
unfolding path_changed keep_matching
selected-path_changed path t a = ground (
  arith,
  contains-sort a (t.selected ++ names (keep_matching t.selected path t.possible)),
  contains-append t.selected (names (keep_matching t.selected path t.possible)) a,
  contains-keep_matching t.selected path t.possible a,
)

distinct-path_changed :
    (path : Text) (t : PathsTagger)
    → distinct (names t.possible) ≡ true
    → distinct t.selected ≡ true
    → distinct (path_changed path t).selected ≡ true
unfolding path_changed keep_matching
distinct-path_changed path t d e =
    let m = keep_matching t.selected path t.possible in
    let dm : distinct (names m) ≡ true = distinct-keep _ _ (distinct-keep _ t.possible d) in
    distinct-sort (t.selected ++ names m)
    ∙ distinct-append t.selected (names m) e dm
        (λ a h. ground (arith, contains-keep_matching t.selected path t.possible a))

selected-after_paths :
    (paths : List Text) (t : PathsTagger)
    → distinct (names t.possible) ≡ true
    → distinct t.selected ≡ true
    → ((after_paths paths t).possible ≡ t.possible)
      × (distinct (after_paths paths t).selected ≡ true)
      × ((a : Text)
          → contains (after_paths paths t).selected a
            ≡ (contains t.selected a || wanted t.possible paths a))
unfolding after_paths path_changed
selected-after_paths [] t d e = (refl, e, λ a. ground (arith, wanted_none t.possible a))
  where
    wanted_none : (c : Criteria) (a : Text) → wanted c [] a ≡ false
    wanted_none [] a = refl
    wanted_none (p ∷ c) a = ground (arith, wanted_none c a)
selected-after_paths (path ∷ paths) t d e =
    let ih =
      selected-after_paths paths (path_changed path t) d (distinct-path_changed path t d e) in
    (
      ih.0,
      ih.1,
      λ a.
          ground
            (arith, ih.2 a, selected-path_changed path t a, wanted-more t.possible path paths a),
    )

wanted-names :
    (c : Criteria) (paths : List Text) (a : Text)
    → wanted c paths a ≡ true
    → contains (names c) a ≡ true
unfolding contains
wanted-names [] paths a h = h
wanted-names (p ∷ c) paths a h = ground (arith, wanted-names c paths a)

-- If no label is given twice, then after any number of changed paths the selected labels are those
-- of which a criterion occurs in one of the paths, and the removal does not panic and gives all the
-- other labels.
pub after_paths_lem :
    (c : List (Text × List Text)) (paths : List Text)
    → distinct (map (λ p. p.0) c) ≡ true
    → ((a : Text) → contains (after_paths paths (new c)).selected a ≡ wanted c paths a)
      × ((removed : List Text) × (tags_to_remove (after_paths paths (new c)) ≡ some removed)
          × ((a : Text)
              → contains removed a ≡ (contains (map (λ p. p.0) c) a && not (wanted c paths a))))
unfolding new tags_to_remove contains distinct
after_paths_lem c paths d =
    let t = after_paths paths (new c) in
    let s = selected-after_paths paths (new c) d refl in
    let r =
      remove_all_lem t.selected (sort (names c)) s.1 (distinct-sort (names c) ∙ d)
        (sorted-sort (names c))
        (λ a h. ground (arith, s.2 a, contains-sort a (names c), wanted-names c paths a)) in
    (
      s.2,
      (
        r.0,
        ap (λ p. remove_all t.selected (sort (names p))) s.0 ∙ r.1,
        λ a. ground (arith, r.2 a, s.2 a, contains-sort a (names c)),
      ),
    )
