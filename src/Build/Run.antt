-- ===== src/Build/Run.antt =====
-- A builder's handling of one job: `BuildWorker::consumer` of ofborg/src/tasks/build.rs, and the
-- partition of the attributes of ofborg/src/nix.rs and ofborg/src/lib.rs.
use ofborg.Base.{
  ℕ, Bool, true, false, Option, none, some, List, [], ◌∷◌, ◌++◌, map, Text, text, is_empty, Result,
  ok, err, decimal, unwrap_or, ◌==◌, if◌then◌else◌,
}
use ofborg.Message.{
  Subset, nixpkgs, nixos, BuildStatus, success, failure, timed_out, unexpected_error, Payload,
}
use ofborg.Nix.{File, default_nixpkgs, release_nixos}
use ofborg.Build.{
  JobActions, commit_missing, nothing_to_do, merge_failed, log_started, log_lines,
  log_instantiation_errors, build_not_attempted, build_finished,
}

-- `partition_result`
module _ {A B : Type 0} where
  partition_from : List A → List B → List (Result A B) → List A × List B
  partition_from oks errs [] = (oks, errs)
  partition_from oks errs (ok x ∷ rest) = partition_from (oks ++ x ∷ []) errs rest
  partition_from oks errs (err x ∷ rest) = partition_from oks (errs ++ x ∷ []) rest

  unfoldable pub partition_result : List (Result A B) → List A × List B
  unfolding partition_from
  partition_result results = partition_from [] [] results

-- What `SpawnedAsyncCmd::wait` gives: the exit status, whose code is missing if a signal ended the
-- process, or an error, by its text.
pub data Waited : Type 0 where
  exited : Option ℕ → Waited
  interior : Text → Waited

unfoldable pub status_of : Waited → BuildStatus
status_of (exited (some code)) =
    if code == 0
    then success
    else if code == 100
    then failure
    else if code == 101
    then timed_out
    else unexpected_error (text "command failed with exit code " ++ decimal code)
status_of (exited none) = unexpected_error (text "unexpected build failure")
status_of (interior e) = unexpected_error (text "failed on interior command " ++ e)

-- What git, the file system and nix answer. Where a call gives an `Option`, `none` is a panic: at a
-- failure that the code unwraps, or inside of the call, as in `commit_exists` when the lock cannot be
-- had, in `instantiate` when nix cannot be run, and in `build_attrs` when the command cannot be
-- spawned. So is the `false` of `clone_for` and `fetch_pr`. `instantiate` gives the log of an
-- attribute that does not evaluate.
pub record Machine : Type 0 where
  pub clone_for : Text → Text → Bool
  pub checkout_ref : Text → Option Text
  pub fetch_pr : ℕ → Bool
  pub commit_exists : Text → Option Bool
  pub merge_commit : Text → Bool
  pub instantiate : Text → File → Text → Option (Option (List Text))
  pub build_attrs : Text → File → List Text → Option (List Text × Waited)

-- `CachedProjectCo::checkout_origin_ref` of ofborg/src/checkout.rs
unfoldable pub checkout_origin_ref : Machine → Text → Option Text
checkout_origin_ref m git_ref = m.checkout_ref (text "origin/" ++ git_ref)

-- `safely_partition_instantiable_attrs`
abbrev attr_result : Text → Option (List Text) → Result Text (Text × List Text)
attr_result attr none = ok attr
attr_result attr (some log) = err (attr, log)

unfoldable pub attr_results :
    Machine → Text → File → List Text → Option (List (Result Text (Text × List Text)))
attr_results m refpath file [] = some []
attr_results m refpath file (attr ∷ attrs) = elim (m.instantiate refpath file attr) [
  | none ↦ none
  | some instantiated ↦ elim (attr_results m refpath file attrs) [
    | none ↦ none
    | some rest ↦ some (attr_result attr instantiated ∷ rest)
  ]
]

unfoldable pub partition_attrs :
    Machine → Text → File → List Text → Option (List Text × List (Text × List Text))
unfolding attr_results partition_result
partition_attrs m refpath file attrs = elim (attr_results m refpath file attrs) [
  | none ↦ none
  | some results ↦ some (partition_result results)
]

-- How a consumer ends, with what it has told by then.
pub data Ending : Type 0 where
  returned panicked : JobActions → Ending

abbrev pub buildfile : Option Subset → File
buildfile none = default_nixpkgs
buildfile (some nixpkgs) = default_nixpkgs
buildfile (some nixos) = release_nixos

module _ (to_json : Payload → Text) (m : Machine) where
  -- from the partition on
  unfoldable pub attempt : File → Text → List Text → List (Text × List Text) → JobActions → Ending
  attempt file refpath can_build cannot_build a =
      let cannot_build_attrs = map (λ p. p.0) cannot_build in
      let noted =
        log_instantiation_errors to_json cannot_build
          (log_started to_json can_build cannot_build_attrs a) in
      elim (is_empty can_build) [
        | true ↦ returned (build_not_attempted to_json cannot_build_attrs noted)
        | false ↦ elim (m.build_attrs refpath file can_build) [
          | none ↦ panicked noted
          | some (output, waited) ↦ returned (
              build_finished to_json (status_of waited) can_build cannot_build_attrs
                (log_lines to_json output noted))
        ]
      ]

  -- from the fetch of the pull request on
  unfoldable pub merged : Text → JobActions → Ending
  unfolding attempt
  merged refpath a = elim (m.commit_exists a.job.pr.head_sha) [
    | none ↦ panicked a
    | some false ↦ returned (commit_missing a)
    | some true ↦ elim (m.merge_commit a.job.pr.head_sha) [
      | false ↦ returned (merge_failed to_json a)
      | true ↦
          let file = buildfile a.job.subset in
          elim (partition_attrs m refpath file a.job.attrs) [
            | none ↦ panicked a
            | some (can_build, cannot_build) ↦ attempt file refpath can_build cannot_build a
          ]
    ]
  ]

  unfoldable pub consumer : JobActions → Ending
  unfolding merged
  consumer a = elim (is_empty a.job.attrs) [
    | true ↦ returned (nothing_to_do a)
    | false ↦ elim (m.clone_for a.job.repo.full_name a.job.repo.clone_url) [
      | false ↦ panicked a
      | true ↦
          elim (checkout_origin_ref m (unwrap_or a.job.pr.target_branch (text "origin/master"))) [
            | none ↦ panicked a
            | some refpath ↦ elim (m.fetch_pr a.job.pr.number) [
              | false ↦ panicked a
              | true ↦ merged refpath a
            ]
          ]
    ]
  ]
