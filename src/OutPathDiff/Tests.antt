-- ===== src/OutPathDiff/Tests.antt =====
-- The lines of two small evaluations.
use ofborg.Base.{
  ℕ, Bool, ◌||◌, none, some, List, [], ◌∷◌, Text, text, text_eq, ◌≡◌, ◌≢◌, ◌↔◌, refl, Occurs, ◌==◌,
}
use ofborg.Tagger.{PackageArch}
use ofborg.OutPathDiff.{
  PackageOutPaths, OutPathDiff, get, calculate_rebuild, split_whitespace, split_last_dot,
  parse_line, parse_lines, insert_all, insert_entry, same_package,
}
use ofborg.OutPathDiff.Rebuilds.{calculate_rebuild_iff}

abbrev is_space : ℕ → Bool
is_space c = c == b' ' || (c == 9)

abbrev a_package : Text → PackageArch
a_package name = record { package_name = name; architecture = text "i686-linux" }

parsed :
    parse_lines is_space (text "gnome3.pan.i686-linux   /nix/store/a" ∷ text "x" ∷ []) []
    ≡ (a_package (text "gnome3.pan"), text "/nix/store/a") ∷ []
unfolding parse_lines parse_line split_whitespace split_last_dot text insert_all insert_entry
parsed = refl

replaced :
    parse_lines is_space
      (text "a.i686-linux /1" ∷ text "b.i686-linux /2" ∷ text "a.i686-linux /3" ∷ [])
      []
    ≡ (a_package (text "a"), text "/3") ∷ (a_package (text "b"), text "/2") ∷ []
unfolding parse_lines parse_line split_whitespace split_last_dot text insert_all insert_entry
    same_package text_eq
replaced = refl

abbrev orig : PackageOutPaths
orig = (a_package (text "a"), text "/a") ∷ (a_package (text "b"), text "/b") ∷ []

abbrev cur : PackageOutPaths
cur = (a_package (text "b"), text "/c") ∷ []

abbrev both : OutPathDiff (Unit {0})
both = record { original = some (orig, tt); current = some (cur, tt) }

calculate_rebuild_iff_example :
    (rebuild : List PackageArch) × (calculate_rebuild both ≡ some rebuild)
    × ((p : PackageArch) → Occurs p rebuild ↔ ((get p cur ≢ none) × (get p cur ≢ get p orig)))
calculate_rebuild_iff_example = calculate_rebuild_iff both (orig, tt) (cur, tt) refl refl
