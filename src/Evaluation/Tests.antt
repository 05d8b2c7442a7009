-- ===== src/Evaluation/Tests.antt =====
-- The labels of a small pull request, on an issue that is the list of its labels.
use ofborg.Base.{
  not, some, List, [], ◌∷◌, ◌++◌, keep, contains, Text, text, text_eq, ◌≡◌, refl, Occurs,
  contains-keep, contains-append,
}
use ofborg.Evaluation.{IssueRef, update_labels}
use ofborg.Evaluation.Labels.{IsGithub, update_labels-within}
use ofborg.Tagger.{PackageArch}
use ofborg.Tagger.Rebuild
use ofborg.Tagger.Rebuild.{RebuildTagger, darwin, linux, counter, parse_attrs}
use ofborg.Tagger.Buckets.{Range, label, within, ranges}

abbrev listed : IssueRef (List Text)
listed = record {
  labels = λ i. some i;
  add = λ ls i. some (i ++ ls);
  remove = λ l i. some (keep (λ a. not (text_eq a l)) i);
}

abbrev listed_github : IsGithub listed
listed_github = record {
  labels_of = λ i. i;
  fetches = λ i. refl;
  adds = λ ls i. (i ++ ls, refl, contains-append i ls);
  removes =
      λ l i. (keep (λ a. not (text_eq a l)) i, refl, contains-keep (λ a. not (text_eq a l)) i);
}

abbrev before : List Text
before = text "10.rebuild-darwin: 501+" ∷ text "bug" ∷ []

abbrev one_hello : List PackageArch
one_hello = record { package_name = text "hello"; architecture = text "x86_64-linux" } ∷ []

update_labels-within_example :
    (t : RebuildTagger) × (i' : List Text) × (parse_attrs one_hello Rebuild.new ≡ some t)
    × (update_labels listed t.selected (Rebuild.tags_to_remove t) before ≡ some i')
    × ((r : Range)
        → Occurs r ranges
        → (contains i' (darwin ++ label r) ≡ within r (counter (text "x86_64-darwin") one_hello))
          × (contains i' (linux ++ label r) ≡ within r (counter (text "x86_64-linux") one_hello)))
update_labels-within_example = update_labels-within listed listed_github one_hello before
