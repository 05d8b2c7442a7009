-- ===== src/Stdenvs.antt =====
-- Which of the standard environments a pull request changes: ofborg/src/tasks/eval/stdenvs.rs.
use ofborg.Base.{
  Bool, true, false, Option, none, some, List, [], ◌∷◌, ◌++◌, Text, text, text_eq, is_empty,
  if◌then◌else◌, Result, ok, err,
}
use ofborg.Nix.{Nix, Command, Run, query_packages_outputs, with_system, safely}

pub data System : Type 0 where
  x86_64_darwin x86_64_linux : System

pub data StdenvFrom : Type 0 where
  before after : StdenvFrom

pub record Stdenvs : Type 0 where
  pub linux_stdenv_before : Option Text
  pub linux_stdenv_after : Option Text
  pub darwin_stdenv_before : Option Text
  pub darwin_stdenv_after : Option Text

unfoldable pub new : Stdenvs
new = record {
  linux_stdenv_before = none;
  linux_stdenv_after = none;
  darwin_stdenv_before = none;
  darwin_stdenv_after = none;
}

-- `==` on `Option<String>`
unfoldable pub same : Option Text → Option Text → Bool
same none none = true
same (some s) (some t) = text_eq s t
same _ _ = false

unfoldable pub changed : Stdenvs → List System
changed s =
    (if same s.linux_stdenv_before s.linux_stdenv_after then [] else x86_64_linux ∷ [])
    ++ (if same s.darwin_stdenv_before s.darwin_stdenv_after then [] else x86_64_darwin ∷ [])

unfoldable pub are_same : Stdenvs → Bool
are_same s = is_empty (changed s)

-- `safely` is the run of nix-env for a system on the checkout: its output or its errors. `none` is a
-- command that cannot be run, which panics.
module _ (safely : Text → Option (Result Text Text)) where
  abbrev output_of : Option (Result Text Text) → Option (Option Text)
  output_of none = none
  output_of (some (ok out)) = some (some out)
  output_of (some (err out)) = some none

  unfoldable pub evalstdenv : Text → Option (Option Text)
  evalstdenv system = output_of (safely system)

  unfoldable pub identify : System → StdenvFrom → Stdenvs → Option Stdenvs
  unfolding evalstdenv
  identify x86_64_linux before s = elim (evalstdenv (text "x86_64-linux")) [
    | none ↦ none
    | some out ↦ some (record s { linux_stdenv_before = out })
  ]
  identify x86_64_linux after s = elim (evalstdenv (text "x86_64-linux")) [
    | none ↦ none
    | some out ↦ some (record s { linux_stdenv_after = out })
  ]
  identify x86_64_darwin before s = elim (evalstdenv (text "x86_64-darwin")) [
    | none ↦ none
    | some out ↦ some (record s { darwin_stdenv_before = out })
  ]
  identify x86_64_darwin after s = elim (evalstdenv (text "x86_64-darwin")) [
    | none ↦ none
    | some out ↦ some (record s { darwin_stdenv_after = out })
  ]

  -- for both systems
  unfoldable pub identify_both : StdenvFrom → Stdenvs → Option Stdenvs
  unfolding identify
  identify_both from_ s = elim (identify x86_64_linux from_ s) [
    | none ↦ none
    | some s' ↦ identify x86_64_darwin from_ s'
  ]

  unfoldable pub identify_before : Stdenvs → Option Stdenvs
  unfolding identify_both
  identify_before s = identify_both before s

  unfoldable pub identify_after : Stdenvs → Option Stdenvs
  unfolding identify_both
  identify_after s = identify_both after s

-- `Nix::safely`, as the standard environments use it.
module _ (status : Command → Option Run) (path : Option Text) (n : Nix) (co : Text) where
  unfoldable pub stdenv_of : Text → Option (Result Text Text)
  unfolding safely with_system
  stdenv_of system =
      safely status path (with_system system n) query_packages_outputs co
        (text "-f" ∷ text "." ∷ text "-A" ∷ text "stdenv" ∷ []) true
