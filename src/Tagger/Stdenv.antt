-- ===== src/Tagger/Stdenv.antt =====
-- The label for a changed standard environment: `StdenvTagger` of ofborg/src/tagger.rs.
use ofborg.Base.{
  not, Option, none, some, List, [], ◌∷◌, ◌++◌, map, Text, text, text_eq, contains, if◌then◌else◌,
  sort, remove_all, remove_searched, remove_found, sorted, text_le, ◌≡◌, refl, Bool-cases, inl, inr,
}
use ofborg.Tagger.{only_possible}
use ofborg.Stdenvs
use ofborg.Stdenvs.{Stdenvs, System, x86_64_darwin, x86_64_linux, same}

pub record StdenvTagger : Type 0 where
  pub possible : List Text
  pub selected : List Text

unfoldable pub new : StdenvTagger
new = record {
  possible = sort (text "10.rebuild-linux-stdenv" ∷ text "10.rebuild-darwin-stdenv" ∷ []);
  selected = [];
}

unfoldable pub label : System → Text
label x86_64_darwin = text "10.rebuild-darwin-stdenv"
label x86_64_linux = text "10.rebuild-linux-stdenv"

unfoldable pub changed : List System → StdenvTagger → Option StdenvTagger
changed systems t =
    let selected = t.selected ++ map label systems in
    if only_possible t.possible selected then some (record t { selected = selected }) else none

unfoldable pub tags_to_remove : StdenvTagger → Option (List Text)
tags_to_remove t = remove_all t.selected t.possible

-- For every outcome of the two evaluations the tagger does not panic, neither on the systems that
-- changed nor on the removal; the label of a system is added exactly if its environment changed, and
-- removed exactly if it did not.
changed_lem :
    (s : Stdenvs)
    → (t : StdenvTagger) × (changed (Stdenvs.changed s) new ≡ some t)
      × ((removed : List Text) × (tags_to_remove t ≡ some removed)
          × (contains t.selected (label x86_64_linux)
              ≡ not (same s.linux_stdenv_before s.linux_stdenv_after))
          × (contains removed (label x86_64_linux)
              ≡ same s.linux_stdenv_before s.linux_stdenv_after)
          × (contains t.selected (label x86_64_darwin)
              ≡ not (same s.darwin_stdenv_before s.darwin_stdenv_after))
          × (contains removed (label x86_64_darwin)
              ≡ same s.darwin_stdenv_before s.darwin_stdenv_after))
unfolding changed new tags_to_remove label contains only_possible Stdenvs.changed text text_eq sort
    text_le remove_all remove_searched remove_found sorted
changed_lem s = elim (Bool-cases (same s.linux_stdenv_before s.linux_stdenv_after)) [
  | inl e ↦ elim (Bool-cases (same s.darwin_stdenv_before s.darwin_stdenv_after)) [
    | inl f ↦ rw (e, f) (_, refl, (_, refl, refl, refl, refl, refl))
    | inr f ↦ rw (e, f) (_, refl, (_, refl, refl, refl, refl, refl))
  ]
  | inr e ↦ elim (Bool-cases (same s.darwin_stdenv_before s.darwin_stdenv_after)) [
    | inl f ↦ rw (e, f) (_, refl, (_, refl, refl, refl, refl, refl))
    | inr f ↦ rw (e, f) (_, refl, (_, refl, refl, refl, refl, refl))
  ]
]
