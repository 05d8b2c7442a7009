-- ===== src/Evaluation.antt =====
-- What the evaluation of a pull request does to its labels, and the builds that it schedules: the
-- free functions of ofborg/src/tasks/evaluate.rs, and the end of ofborg/src/message/evaluationjob.rs.
pub mod Labels
pub mod Commits
pub mod Effects
pub mod Run
pub mod Gives
pub mod Nixpkgs
pub mod Generic
pub mod Trials
pub mod Scheduled
pub mod Delivery
pub mod Sending
mod Tests
mod RunTests
use ofborg.Base.{
  Bool, true, false, not, ◌||◌, Option, none, some, List, [], ◌∷◌, ◌++◌, map, keep, any, contains,
  Text, text, text_eq, has_substring, starts_with,
}
use ofborg.Message.{BuildJob, EvaluationJob, Payload, build_job, queued_build_jobs}
use ofborg.Access.{System, system_name, as_build_destination}
use ofborg.Worker.{Action, Actions, ack, publish_serde_action}

-- An issue on GitHub: its labels by name, and the calls that change them. `none` is a refusal, which
-- panics.
pub record IssueRef (I : Type 0) : Type 0 where
  pub labels : I → Option (List Text)
  pub add : List Text → I → Option I
  pub remove : Text → I → Option I

module _ {I : Type 0} (issue : IssueRef I) where
  unfoldable pub remove_each : List Text → I → Option I
  remove_each [] i = some i
  remove_each (label ∷ rest) i = elim (issue.remove label i) [
    | none ↦ none
    | some i' ↦ remove_each rest i'
  ]

  -- with the labels that the issue has
  unfoldable pub update_from : List Text → List Text → List Text → I → Option I
  update_from existing add remove i =
      let to_add = keep (λ l. not (contains existing l)) add in
      let to_remove = keep (contains existing) remove in
      elim (issue.add to_add i) [ none ↦ none | some i' ↦ remove_each to_remove i' ]

  unfoldable pub update_labels : List Text → List Text → I → Option I
  unfolding update_from
  update_labels add remove i = elim (issue.labels i) [
    | none ↦ none
    | some existing ↦ update_from existing add remove i
  ]

-- `to_json` is serde_json's encoding.
module _ (to_json : Payload → Text) where
  unfoldable pub schedule_builds : List BuildJob → List System → Actions
  schedule_builds [] archs = []
  schedule_builds (job ∷ builds) archs =
      map
        (λ arch.
          let (exchange, routing_key) = as_build_destination arch in
          publish_serde_action to_json exchange routing_key (build_job job))
        archs
      ++ (publish_serde_action to_json (some (text "build-results")) none
            (queued_build_jobs (record { job = job; architectures = map system_name archs }))
          ∷ schedule_builds builds archs)

-- `lower` is `str::to_lowercase`.
module _ (lower : Text → Text) where
  unfoldable pub indicates_wip : Text → Bool
  indicates_wip s =
      has_substring (text "work in progress") (lower s)
      || has_substring (text "work-in-progress") (lower s)

  unfoldable pub issue_is_wip : Text → List Text → Bool
  issue_is_wip title labels =
      has_substring (text "[WIP]") title
      || (starts_with (text "WIP:") title || any indicates_wip labels)

unfoldable pub is_nixpkgs : EvaluationJob → Bool
is_nixpkgs job = text_eq job.repo.name (text "nixpkgs")

-- `Actions::skip` and `Actions::done`
unfoldable pub skip : Actions
skip = ack ∷ []

unfoldable pub done : Actions → Actions
done response = response ++ ack ∷ []
