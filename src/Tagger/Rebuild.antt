-- ===== src/Tagger/Rebuild.antt =====
-- The labels for the number of rebuilds: `RebuildTagger` of ofborg/src/tagger.rs.
use ofborg.Base.{
  ℕ, suc, not, Option, none, some, List, [], ◌∷◌, ◌++◌, map, Text, text, text_eq, contains, keep,
  ltb, if◌then◌else◌,
}
use ofborg.Tagger.{PackageArch, only_possible}

pub record RebuildTagger : Type 0 where
  pub possible : List Text
  pub selected : List Text

abbrev pub darwin : Text
darwin = text "10.rebuild-darwin: "

abbrev pub linux : Text
linux = text "10.rebuild-linux: "

unfoldable pub new : RebuildTagger
unfolding text
new = record {
  possible =
      text "10.rebuild-darwin: 0"
      ∷ text "10.rebuild-darwin: 1-10"
      ∷ text "10.rebuild-darwin: 11-100"
      ∷ text "10.rebuild-darwin: 101-500"
      ∷ text "10.rebuild-darwin: 501+"
      ∷ text "10.rebuild-darwin: 501-1000"
      ∷ text "10.rebuild-darwin: 1001-2500"
      ∷ text "10.rebuild-darwin: 2501-5000"
      ∷ text "10.rebuild-darwin: 5001+"
      ∷ text "10.rebuild-linux: 0"
      ∷ text "10.rebuild-linux: 1-10"
      ∷ text "10.rebuild-linux: 11-100"
      ∷ text "10.rebuild-linux: 101-500"
      ∷ text "10.rebuild-linux: 501+"
      ∷ text "10.rebuild-linux: 501-1000"
      ∷ text "10.rebuild-linux: 1001-2500"
      ∷ text "10.rebuild-linux: 2501-5000"
      ∷ text "10.rebuild-linux: 5001+"
      ∷ [];
  selected = [];
}

unfoldable pub bucket : ℕ → List Text
bucket count =
    if ltb 5000 count
    then text "501+" ∷ text "5001+" ∷ []
    else if ltb 2500 count
    then text "501+" ∷ text "2501-5000" ∷ []
    else if ltb 1000 count
    then text "501+" ∷ text "1001-2500" ∷ []
    else if ltb 500 count
    then text "501+" ∷ text "501-1000" ∷ []
    else if ltb 100 count
    then text "101-500" ∷ []
    else if ltb 10 count
    then text "11-100" ∷ []
    else if ltb 0 count
    then text "1-10" ∷ []
    else text "0" ∷ []

-- One of the two counters, after the loop over the attributes. The counters are `u64`, and a list
-- of 2 ^ 64 elements does not fit into memory.
unfoldable pub counter : Text → List PackageArch → ℕ
counter arch [] = 0
counter arch (attr ∷ attrs) =
    let rest = counter arch attrs in if text_eq attr.architecture arch then suc rest else rest

unfoldable pub parse_attrs : List PackageArch → RebuildTagger → Option RebuildTagger
parse_attrs attrs t =
    let counter_darwin = counter (text "x86_64-darwin") attrs in
    let counter_linux = counter (text "x86_64-linux") attrs in
    let selected =
      map (λ b. darwin ++ b) (bucket counter_darwin)
      ++ map (λ b. linux ++ b) (bucket counter_linux) in
    if only_possible t.possible selected then some (record t { selected = selected }) else none

unfoldable pub tags_to_remove : RebuildTagger → List Text
tags_to_remove t = keep (λ tag. not (contains t.selected tag)) t.possible
