-- ===== src/OutPathDiff.antt =====
-- The packages before and after a pull request: ofborg/src/outpathdiff.rs.
pub mod Rebuilds
mod Tests
use ofborg.Base.{
  Bool, true, false, not, ◌&&◌, Option, none, some, List, [], ◌∷◌, ◌++◌, map, keep, any, is_some,
  Text, text, text_eq, if◌then◌else◌, Result, ok, err, ◌==◌, lines, ℕ,
}
use ofborg.Tagger.{PackageArch}

-- `HashMap<PackageArch, OutPath>`, in the order in which it is iterated
abbrev pub PackageOutPaths : Type 0
PackageOutPaths = List (PackageArch × Text)

unfoldable pub same_package : PackageArch → PackageArch → Bool
same_package p q = text_eq p.package_name q.package_name && text_eq p.architecture q.architecture

-- `HashMap::get`
unfoldable pub get : PackageArch → PackageOutPaths → Option Text
get p [] = none
get p ((q, path) ∷ rest) = let later = get p rest in if same_package p q then some path else later

-- `HashMap::insert`, which replaces the older entry for the package
unfoldable pub insert_entry : PackageArch → Text → PackageOutPaths → PackageOutPaths
insert_entry p path [] = (p, path) ∷ []
insert_entry p path ((q, older) ∷ rest) =
    let others = insert_entry p path rest in
    if same_package p q then (q, path) ∷ rest else (q, older) ∷ others

unfoldable pub insert_all : List (PackageArch × Text) → PackageOutPaths → PackageOutPaths
unfolding insert_entry
insert_all [] found = found
insert_all ((p, path) ∷ rest) found = insert_all rest (insert_entry p path found)

unfoldable pub same_path : Option Text → Option Text → Bool
same_path none none = true
same_path (some a) (some b) = text_eq a b
same_path _ _ = false

-- `S` is the statistics of an evaluation and `E` its errors.
pub record OutPathDiff (S : Type 0) : Type 0 where
  pub original : Option (PackageOutPaths × S)
  pub current : Option (PackageOutPaths × S)

unfoldable pub new : {S : Type 0} → OutPathDiff S
new = record { original = none; current = none }

module _ {S E : Type 0} where
  -- `calculated` is what the run of nix-env gives.
  unfoldable pub find_before :
      Result (PackageOutPaths × S) E → OutPathDiff S → Result (OutPathDiff S) E
  find_before (ok found) d = ok (record d { original = some found })
  find_before (err e) d = err e

  unfoldable pub find_after :
      Result (PackageOutPaths × S) E → OutPathDiff S → Result (OutPathDiff S) E
  find_after calculated d = elim d.original [
    | none ↦ ok d
    | some _ ↦ elim calculated [ ok found ↦ ok (record d { current = some found }) | err e ↦ err e ]
  ]

-- `difference` of the sets of keys
unfoldable pub keys_without : PackageOutPaths → PackageOutPaths → List PackageArch
keys_without m n = keep (λ p. not (is_some (get p n))) (map (λ e. e.0) m)

-- the loop of `calculate_rebuild`
unfoldable pub changed_keys : PackageOutPaths → PackageOutPaths → List PackageArch
changed_keys cur orig = keep (λ p. not (same_path (get p cur) (get p orig))) (map (λ e. e.0) cur)

module _ {S : Type 0} where
  -- `compare` compares the statistics before with those after.
  unfoldable pub performance_diff : {R : Type 0} → (S → S → R) → OutPathDiff S → Option R
  performance_diff compare d = elim d.current [
    | none ↦ none
    | some cur ↦ elim d.original [ none ↦ none | some orig ↦ some (compare orig.1 cur.1) ]
  ]

  unfoldable pub package_diff : OutPathDiff S → Option (List PackageArch × List PackageArch)
  package_diff d = elim d.current [
    | none ↦ none
    | some cur ↦ elim d.original [
      | none ↦ none
      | some orig ↦ some (keys_without orig.0 cur.0, keys_without cur.0 orig.0)
    ]
  ]

  unfoldable pub calculate_rebuild : OutPathDiff S → Option (List PackageArch)
  calculate_rebuild d = elim d.current [
    | none ↦ none
    | some cur ↦ elim d.original [ none ↦ none | some orig ↦ some (changed_keys cur.0 orig.0) ]
  ]

-- `split_whitespace` on Unicode's white space, as `is_space` tells it.
module _ (is_space : ℕ → Bool) where
  abbrev to_word : ℕ → List Text → List Text
  to_word c [] = (c ∷ []) ∷ []
  to_word c (w ∷ ws) = (c ∷ w) ∷ ws

  abbrev starts_word : Text → Bool
  starts_word [] = false
  starts_word (c ∷ s) = not (is_space c)

  unfoldable pub split_whitespace : Text → List Text
  split_whitespace [] = []
  split_whitespace (c ∷ s) =
      let rest = split_whitespace s in
      if is_space c then rest else if starts_word s then to_word c rest else (c ∷ []) ∷ rest

  -- `rsplitn(2, '.')`, where the text has a dot: what is before its last dot, and what is behind.
  unfoldable pub split_last_dot : Text → Option (Text × Text)
  split_last_dot [] = none
  split_last_dot (c ∷ s) =
      let rest = split_last_dot s in
      elim rest [
        | some (front, back) ↦ some (c ∷ front, back)
        | none ↦ if c == b'.' then some ([], s) else none
      ]

  abbrev entry_of : Text → Option (Text × Text) → List (PackageArch × Text)
  entry_of path none = []
  entry_of path (some (front, back)) =
      (record { package_name = front; architecture = back }, path) ∷ []

  abbrev entry : List Text → List (PackageArch × Text)
  entry (name ∷ path ∷ []) = entry_of path (split_last_dot name)
  entry _ = []

  -- one line, whose text is readable
  unfoldable pub parse_line : Text → List (PackageArch × Text)
  parse_line line = entry (split_whitespace line)

  -- The entries of the lines are collected in a map.
  unfoldable pub parse_lines : List Text → PackageOutPaths → PackageOutPaths
  unfolding insert_all
  parse_lines [] found = found
  parse_lines (line ∷ rest) found = parse_lines rest (insert_all (parse_line line) found)
