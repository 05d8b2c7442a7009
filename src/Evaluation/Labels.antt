-- ===== src/Evaluation/Labels.antt =====
-- The labels of a pull request after an evaluation: `update_labels` of ofborg/src/tasks/evaluate.rs
-- with the taggers.
use ofborg.Base.{
  Bool, true, not, ◌&&◌, ◌||◌, some, List, [], ◌∷◌, ◌++◌, keep, contains, Text, text, text_eq, ◌≡◌,
  refl, ap, ◌∙◌, arith, if◌then◌else◌, Occurs, contains-keep,
}
use ofborg.Evaluation.{IssueRef, remove_each, update_from, update_labels}
use ofborg.Tagger.{PackageArch}
use ofborg.Tagger.Rebuild
use ofborg.Tagger.Rebuild.{RebuildTagger, darwin, linux, counter, parse_attrs}
use ofborg.Tagger.Buckets.{
  Range, label, within, ranges, parse_attrs-within, tags_to_remove-contains, parse_attrs-possible,
  new-possible,
}

-- GitHub accepts the calls: it gives the labels of an issue, adds the labels that it is given, and removes the one that it is given.
pub record IsGithub {I : Type 0} (issue : IssueRef I) : Type 0 where
  pub labels_of : I → List Text
  pub fetches : (i : I) → issue.labels i ≡ some (labels_of i)
  pub adds :
      (ls : List Text) (i : I)
      → (i' : I) × (issue.add ls i ≡ some i')
        × ((a : Text) → contains (labels_of i') a ≡ (contains (labels_of i) a || contains ls a))
  pub removes :
      (l : Text) (i : I)
      → (i' : I) × (issue.remove l i ≡ some i')
        × ((a : Text) → contains (labels_of i') a ≡ (contains (labels_of i) a && not (text_eq a l)))

module _ {I : Type 0} (issue : IssueRef I) (github : IsGithub issue) where
  remove_each-contains :
      (ls : List Text) (i : I)
      → (i' : I) × (remove_each issue ls i ≡ some i')
        × ((a : Text)
            → contains (github.labels_of i') a
              ≡ (contains (github.labels_of i) a && not (contains ls a)))
  unfolding remove_each contains
  remove_each-contains [] i = (i, refl, λ a. ground arith)
  remove_each-contains (l ∷ ls) i =
      let (i1, e, h) = github.removes l i in
      let (i2, f, k) = remove_each-contains ls i1 in
      (i2, rw (e, remove_each) f, λ a. ground (arith, h a, k a))

  -- An update comes to its end. A label that was there stays unless it is to be removed; one that was
  -- not there is there exactly if it is to be added.
  pub update_labels-contains :
      (add remove : List Text) (i : I)
      → (i' : I) × (update_labels issue add remove i ≡ some i')
        × ((a : Text)
            → contains (github.labels_of i') a ≡ (
                if contains (github.labels_of i) a
                then not (contains remove a)
                else contains add a))
  unfolding update_labels update_from
  update_labels-contains add remove i =
      let existing = github.labels_of i in
      let (i1, e, h) = github.adds (keep (λ l. not (contains existing l)) add) i in
      let (i2, f, k) = remove_each-contains (keep (contains existing) remove) i1 in
      (
        i2,
        rw (github.fetches i, update_labels, update_from, e) f,
        λ a. ground (
          arith,
          h a,
          k a,
          contains-keep (λ l. not (contains existing l)) add a,
          contains-keep (contains existing) remove a,
        ),
      )

  -- Whatever labels a pull request had, after the rebuild labels of its changed packages are updated it
  -- has the label of a range, for darwin and for linux, exactly if the number of its packages for that
  -- system is in the range.
  pub update_labels-within :
      (attrs : List PackageArch) (i : I)
      → (t : RebuildTagger) × (i' : I) × (parse_attrs attrs Rebuild.new ≡ some t)
        × (update_labels issue t.selected (Rebuild.tags_to_remove t) i ≡ some i')
        × ((r : Range)
            → Occurs r ranges
            → (contains (github.labels_of i') (darwin ++ label r)
                ≡ within r (counter (text "x86_64-darwin") attrs))
              × (contains (github.labels_of i') (linux ++ label r)
                  ≡ within r (counter (text "x86_64-linux") attrs)))
  update_labels-within attrs i =
      let (t, e, selected) = parse_attrs-within attrs in
      let (i', f, final) = update_labels-contains t.selected (Rebuild.tags_to_remove t) i in
      let settled : (a : Text)
          → contains Rebuild.new.possible a ≡ true
          → contains (github.labels_of i') a ≡ contains t.selected a =
        λ a p.
          settles t a (contains (github.labels_of i) a) (parse_attrs-possible attrs Rebuild.new t e)
            p (final a) in
      (
        t,
        i',
        e,
        f,
        λ r h. (
          settled (darwin ++ label r) (new-possible r h).0 ∙ (selected r h).0,
          settled (linux ++ label r) (new-possible r h).1 ∙ (selected r h).1,
        ),
      )
    where
      settles :
          (t : RebuildTagger) (a : Text) (had : Bool) {has : Bool}
          → t.possible ≡ Rebuild.new.possible
          → contains Rebuild.new.possible a ≡ true
          → has
            ≡ (if had then not (contains (Rebuild.tags_to_remove t) a) else contains t.selected a)
          → has ≡ contains t.selected a
      settles t a had same p h =
          let q : contains t.possible a ≡ true = ap (λ l. contains l a) same ∙ p in
          ground (arith, tags_to_remove-contains t a)
