-- ===== src/Tagger/Maintainer.antt =====
-- The label for a maintainer's own pull request: `MaintainerPRTagger` of ofborg/src/tagger.rs.
use ofborg.Base.{
  true, List, [], ◌∷◌, ◌++◌, Text, text, contains, all, is_empty, if◌then◌else◌, to_ascii_lowercase,
  ◌≡◌, ◌≢◌, ◌↔◌, refl, arith, All, Occurs, contains_iff, text_eq_refl,
}

pub record MaintainerPrTagger : Type 0 where
  pub possible : List Text
  pub selected : List Text

abbrev pub by_maintainer : Text
by_maintainer = text "11.by: package-maintainer"

unfoldable pub new : MaintainerPrTagger
new = record { possible = by_maintainer ∷ []; selected = [] }

-- `Maintainer::from` lowers the submitter's name; the packages come with the names of their
-- maintainers.
unfoldable pub record_maintainer :
    Text → List (Text × List Text) → MaintainerPrTagger → MaintainerPrTagger
record_maintainer pr_submitter identified t =
    let submitter = to_ascii_lowercase pr_submitter in
    if is_empty identified
    then t
    else if all (λ p. contains p.1 submitter) identified
    then record t { selected = t.selected ++ by_maintainer ∷ [] }
    else t

all-contains_iff :
    (identified : List (Text × List Text)) (a : Text)
    → (all (λ p. contains p.1 a) identified ≡ true) ↔ All (λ p. Occurs a p.1) identified
all-contains_iff [] a = ((λ h. (record {})), (λ h. refl))
all-contains_iff (p ∷ ps) a = ground (arith, all-contains_iff ps a, contains_iff p.1 a)

-- A pull request gets the label exactly if some package was identified and the submitter, in lower
-- case, is among the maintainers of every one of them.
record_maintainer_iff :
    (pr_submitter : Text) (identified : List (Text × List Text))
    → (contains (record_maintainer pr_submitter identified new).selected by_maintainer ≡ true)
      ↔ ((identified ≢ []) × All (λ p. Occurs (to_ascii_lowercase pr_submitter) p.1) identified)
unfolding record_maintainer new contains
record_maintainer_iff pr_submitter identified = ground (
  arith,
  all-contains_iff identified (to_ascii_lowercase pr_submitter),
  text_eq_refl by_maintainer,
)
