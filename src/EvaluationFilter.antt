-- ===== src/EvaluationFilter.antt =====
-- Pull request events turned into evaluation jobs: ofborg/src/tasks/evaluationfilter.rs.
pub mod Interest
pub mod Delivery
mod Tests
use ofborg.Base.{Bool, true, false, Option, none, some, List, [], ◌∷◌, is_some, Text, text, not}
use ofborg.GhEvent.{
  PullRequestState, open_state, closed_state, PullRequestAction, opened, edited_pr, reopened,
  synchronize, PullRequestChanges, PullRequestEvent,
}
use ofborg.Message.{EvaluationJob, Payload, evaluation_job}
use ofborg.Access.{Acl, is_repo_eligible}
use ofborg.Worker.{Action, Actions, ack, publish_serde_action}

abbrev is_open : PullRequestState → Bool
is_open open_state = true
is_open closed_state = false

abbrev base_changed : Option PullRequestChanges → Bool
base_changed none = false
base_changed (some changes) = is_some changes.base

-- the match that gives `interesting`
interesting : PullRequestAction → Option PullRequestChanges → Bool
interesting opened changes = true
interesting synchronize changes = true
interesting reopened changes = true
interesting edited_pr changes = base_changed changes
interesting _ changes = false

unfoldable pub evaluation_of : PullRequestEvent → EvaluationJob
evaluation_of job = record {
  repo = record {
    owner = job.repository.owner.login;
    name = job.repository.name;
    full_name = job.repository.full_name;
    clone_url = job.repository.clone_url;
  };
  pr = record {
    target_branch = some job.pull_request.base.git_ref;
    number = job.number;
    head_sha = job.pull_request.head.sha;
  };
}

-- `lower` is `str::to_lowercase`, and `to_json` serde_json's encoding.
unfoldable pub consumer :
    (lower : Text → Text) → (to_json : Payload → Text) → Acl → PullRequestEvent → Actions
unfolding interesting
consumer lower to_json acl job = elim (not (is_repo_eligible lower acl job.repository.full_name)) [
  | true ↦ ack ∷ []
  | false ↦ elim (not (is_open job.pull_request.state)) [
    | true ↦ ack ∷ []
    | false ↦ elim (not (interesting job.action job.changes)) [
      | true ↦ ack ∷ []
      | false ↦
          publish_serde_action to_json none (some (text "mass-rebuild-check-jobs"))
            (evaluation_job (evaluation_of job))
          ∷ ack
          ∷ []
    ]
  ]
]
