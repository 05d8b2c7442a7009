-- ===== src/Tagger.antt =====
-- The labels that a pull request is given: ofborg/src/tagger.rs. A tagger that panics is none.
pub mod Rebuild
pub mod Buckets
pub mod Paths
pub mod PathLaws
pub mod Stdenv
pub mod Maintainer
pub mod Packages
pub mod Tests
use ofborg.Base.{Bool, List, Text, contains, all}

-- `PackageArch` of ofborg/src/outpathdiff.rs
pub record PackageArch : Type 0 where
  pub package_name : Text
  pub architecture : Text

-- Every label that was selected is a possible one; otherwise the tagger panics.
unfoldable pub only_possible : List Text → List Text → Bool
only_possible possible selected = all (contains possible) selected
