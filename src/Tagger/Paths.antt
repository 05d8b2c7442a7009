-- ===== src/Tagger/Paths.antt =====
-- The labels for changed paths: `PathsTagger` of ofborg/src/tagger.rs.
use ofborg.Base.{
  not, Option, List, [], ◌++◌, map, Text, contains, any, keep, sort, has_substring, remove_all,
}

-- The possible labels with their criteria, in the order in which the hash map is iterated.
pub record PathsTagger : Type 0 where
  pub possible : List (Text × List Text)
  pub selected : List Text

unfoldable pub new : List (Text × List Text) → PathsTagger
new tags_and_criteria = record { possible = tags_and_criteria; selected = [] }

unfoldable pub path_changed : Text → PathsTagger → PathsTagger
path_changed path t =
    let unselected = keep (λ p. not (contains t.selected p.0)) t.possible in
    let matching = keep (λ p. any (λ tp. has_substring tp path) p.1) unselected in
    record t { selected = sort (t.selected ++ map (λ p. p.0) matching) }

unfoldable pub tags_to_remove : PathsTagger → Option (List Text)
tags_to_remove t = remove_all t.selected (sort (map (λ p. p.0) t.possible))
