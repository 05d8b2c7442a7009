-- ===== src/Access.antt =====
-- Who may build what, and on which machines: ofborg/src/acl.rs and ofborg/src/systems.rs.
pub mod Laws
pub mod Destinations
mod Tests
use ofborg.Base.{
  Bool, true, false, Option, none, some, List, [], ◌∷◌, ◌++◌, map, Text, text, text_eq, contains,
  if◌then◌else◌, not,
}

pub data System : Type 0 where
  x86_64_linux aarch64_linux x86_64_darwin : System

-- `System::to_string`
unfoldable pub system_name : System → Text
system_name x86_64_linux = text "x86_64-linux"
system_name aarch64_linux = text "aarch64-linux"
system_name x86_64_darwin = text "x86_64-darwin"

-- exchange and routing key
unfoldable pub as_build_destination : System → Option Text × Option Text
as_build_destination s = (none, some (text "build-inputs-" ++ system_name s))

unfoldable pub can_run_nixos_tests : System → Bool
can_run_nixos_tests x86_64_linux = true
can_run_nixos_tests aarch64_linux = true
can_run_nixos_tests x86_64_darwin = false

pub record Acl : Type 0 where
  pub trusted_users : List Text
  pub known_users : List Text
  pub repos : List Text

-- `lower` is `str::to_lowercase`, Unicode's case mapping.
module _ (lower : Text → Text) where
  unfoldable pub new_acl : List Text → List Text → List Text → Acl
  new_acl repos trusted_users known_users = record {
    trusted_users = map lower trusted_users;
    known_users = map lower known_users;
    repos = repos;
  }

  unfoldable pub is_repo_eligible : Acl → Text → Bool
  is_repo_eligible acl name = contains acl.repos (lower name)

  unfoldable pub can_build_restricted : Acl → Text → Text → Bool
  can_build_restricted acl user repo =
      if not (text_eq (lower repo) (text "nixos/nixpkgs"))
      then false
      else contains acl.known_users (lower user)

  unfoldable pub can_build_unrestricted : Acl → Text → Text → Bool
  can_build_unrestricted acl user repo =
      if text_eq (lower repo) (text "nixos/nixpkgs")
      then contains acl.trusted_users (lower user)
      else text_eq user (text "grahamc")

  unfoldable pub build_job_architectures_for_user_repo : Acl → Text → Text → List System
  build_job_architectures_for_user_repo acl user repo =
      if can_build_unrestricted acl user repo
      then x86_64_darwin ∷ x86_64_linux ∷ aarch64_linux ∷ []
      else if can_build_restricted acl user repo
      then x86_64_linux ∷ aarch64_linux ∷ []
      else []

  unfoldable pub build_job_destinations_for_user_repo :
      Acl → Text → Text → List (Option Text × Option Text)
  build_job_destinations_for_user_repo acl user repo =
      map as_build_destination (build_job_architectures_for_user_repo acl user repo)
