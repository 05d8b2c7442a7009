-- ===== src/Tagger/Packages.antt =====
-- The labels for new and removed packages: `PkgsAddedRemovedTagger` of ofborg/src/tagger.rs.
use ofborg.Base.{List, [], ◌∷◌, ◌++◌, Text, text, is_empty, if◌then◌else◌, sort}
use ofborg.Tagger.{PackageArch}

pub record PkgsAddedRemovedTagger : Type 0 where
  pub possible : List Text
  pub selected : List Text

unfoldable pub new : PkgsAddedRemovedTagger
new = record {
  possible = sort (text "8.has: package (new)" ∷ text "8.has: clean-up" ∷ []);
  selected = [];
}

unfoldable pub changed :
    List PackageArch → List PackageArch → PkgsAddedRemovedTagger → PkgsAddedRemovedTagger
changed removed added t = record t {
  selected =
      (t.selected ++ (if is_empty removed then [] else text "8.has: clean-up" ∷ []))
      ++ (if is_empty added then [] else text "8.has: package (new)" ∷ []);
}
