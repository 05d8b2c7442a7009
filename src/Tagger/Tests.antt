-- ===== src/Tagger/Tests.antt =====
-- The labels of small pull requests.
use ofborg.Base.{
  not, ◌&&◌, none, some, List, [], ◌∷◌, map, Text, text, text_eq, has_substring, sort, text_le,
  contains, ◌≡◌, refl, distinct,
}
use ofborg.Stdenvs.{Stdenvs}
use ofborg.Tagger.{PackageArch}
use ofborg.Tagger.Rebuild
use ofborg.Tagger.Rebuild.{RebuildTagger, darwin, linux, counter, parse_attrs}
use ofborg.Tagger.Paths
use ofborg.Tagger.PathLaws.{after_paths, wanted, after_paths_lem}

abbrev hello : Text → PackageArch
hello arch = record { package_name = text "hello"; architecture = arch }

abbrev hellos : List PackageArch
hellos =
    hello (text "x86_64-darwin") ∷ hello (text "x86_64-linux") ∷ hello (text "aarch64-linux") ∷ []

abbrev chosen : RebuildTagger
chosen = record { possible = Rebuild.new.possible; selected = text "10.rebuild-linux: 0" ∷ [] }

abbrev criteria : List (Text × List Text)
criteria =
    (text "topic: python", text "python" ∷ [])
    ∷ (text "topic: darwin", text "darwin" ∷ text "apple" ∷ [])
    ∷ []

abbrev changed_paths : List Text
changed_paths = text "pkgs/python/a.nix" ∷ text "pkgs/b.nix" ∷ []

-- The first path has the first label, and the second none.
one_label : (after_paths changed_paths (Paths.new criteria)).selected ≡ text "topic: python" ∷ []
unfolding after_paths Paths.new Paths.path_changed contains text text_eq has_substring sort text_le
one_label = refl

after_paths_lem_example :
    ((a : Text)
      → contains (after_paths changed_paths (Paths.new criteria)).selected a
        ≡ wanted criteria changed_paths a)
    × ((removed : List Text) × (Paths.tags_to_remove
            (after_paths changed_paths (Paths.new criteria))
          ≡ some removed)
        × ((a : Text)
            → contains removed a
              ≡ (contains (map (λ p. p.0) criteria) a && not (wanted criteria changed_paths a))))
unfolding distinct contains text text_eq
after_paths_lem_example = after_paths_lem criteria changed_paths refl

abbrev darwin_changed : Stdenvs
darwin_changed = record {
  linux_stdenv_before = some (text "a");
  linux_stdenv_after = some (text "a");
  darwin_stdenv_before = some (text "b");
  darwin_stdenv_after = none;
}

abbrev identified : List (Text × List Text)
identified =
    (text "hello", text "alice" ∷ []) ∷ (text "cowsay", text "bob" ∷ text "alice" ∷ []) ∷ []
