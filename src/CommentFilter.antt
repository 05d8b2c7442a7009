-- ===== src/CommentFilter.antt =====
-- Comments on pull requests turned into jobs: ofborg/src/tasks/githubcommentfilter.rs, with the
-- outer function of ofborg/src/commentparser.rs.
pub mod Permission
pub mod Jobs
pub mod Delivery
pub mod Grammar
mod Tests
use ofborg.Base.{
  ℕ, suc, Bool, true, false, Option, none, some, List, [], ◌∷◌, ◌++◌, map, keep, is_empty, Text,
  text, lines,
}
use ofborg.GhEvent.{IssueCommentAction, created, edited, deleted, IssueComment}
use ofborg.Message.{
  Repo, Pr, Subset, nixpkgs, nixos, BuildJob, EvaluationJob, Payload, build_job, queued_build_jobs,
  evaluation_job, new_build_job,
}
use ofborg.Access.{
  System, system_name, as_build_destination, can_run_nixos_tests, Acl,
  build_job_architectures_for_user_repo,
}
use ofborg.Worker.{Action, Actions, ack, publish_serde_action}

pub data Instruction : Type 0 where
  build : Subset → List Text → Instruction
  eval : Instruction

-- The outcome of the nom parser for a line: `Ok((_, res))`, or `Err`, which is logged.
pub data Parsed : Type 0 where
  parsed : Option (List Instruction) → Parsed
  failed : Parsed

-- `parse_line_impl` is built from nom's combinators.
module _ (parse_line_impl : Text → Parsed) where
  abbrev res : Parsed → Option (List Instruction)
  res (parsed r) = r
  res failed = none

  unfoldable pub parse_line : Text → Option (List Instruction)
  parse_line s = res (parse_line_impl s)

  abbrev instructions_of : Option (List Instruction) → List Instruction
  instructions_of none = []
  instructions_of (some l) = l

  -- the `flat_map`
  unfoldable pub parse_lines : List Text → List Instruction
  unfolding parse_line
  parse_lines [] = []
  parse_lines (s ∷ rest) = instructions_of (parse_line s) ++ parse_lines rest

  abbrev pub nonempty : List Instruction → Option (List Instruction)
  nonempty [] = none
  nonempty (i ∷ is) = some (i ∷ is)

  unfoldable pub parse : Text → Option (List Instruction)
  unfolding parse_lines
  parse body = nonempty (parse_lines (lines body))

-- What GitHub tells of a pull request.
pub record Pull : Type 0 where
  pub head_sha : Text
  pub base_ref : Text

-- What the worker uses and does not implement: Unicode's lower case, serde_json, the GitHub client
-- (`none` is an error), and `Uuid::new_v4`, here a supply from which each build takes the next.
pub record Services : Type 0 where
  pub lower : Text → Text
  pub to_json : Payload → Text
  pub get_pull : Text → Text → ℕ → Option Pull
  pub uuid : ℕ → Text

module _ (env : Services) where
  open env use {lower, to_json, get_pull, uuid}

  abbrev destinations : Subset → List System → List System
  destinations nixos archs = keep can_run_nixos_tests archs
  destinations nixpkgs archs = archs

  pub publish_build : Payload → System → Action
  publish_build msg arch =
      let (exchange, routing_key) = as_build_destination arch in
      publish_serde_action to_json exchange routing_key msg

  -- the arm `Instruction::Build`
  unfoldable pub build_actions : Repo → Pr → List System → ℕ → Subset → List Text → Actions
  unfolding publish_build
  build_actions repo pr archs n subset attrs =
      let job = new_build_job lower repo pr subset attrs none none (uuid n) in
      map (publish_build (build_job job)) (destinations subset archs)
      ++ publish_serde_action to_json (some (text "build-results")) none (
          queued_build_jobs
            record { job = job; architectures = map system_name (destinations subset archs) })
        ∷ []

  unfoldable pub eval_action : Repo → Pr → Action
  eval_action repo pr =
      publish_serde_action to_json none (some (text "mass-rebuild-check-jobs"))
        (evaluation_job record { repo = repo; pr = pr })

  -- the loop over the instructions, and the final `Ack`
  unfoldable pub respond : Repo → Pr → List System → ℕ → List Instruction → Actions
  unfolding build_actions eval_action
  respond repo pr archs n [] = ack ∷ []
  respond repo pr archs n (build subset attrs ∷ rest) =
      build_actions repo pr archs n subset attrs ++ respond repo pr archs (suc n) rest
  respond repo pr archs n (eval ∷ rest) = eval_action repo pr ∷ respond repo pr archs n rest

  abbrev is_deleted : IssueCommentAction → Bool
  is_deleted deleted = true
  is_deleted _ = false

  pub repo_msg : IssueComment → Repo
  repo_msg job = record {
    owner = job.repository.owner.login;
    name = job.repository.name;
    full_name = job.repository.full_name;
    clone_url = job.repository.clone_url;
  }

  pub pr_msg : IssueComment → Pull → Pr
  pr_msg job pull = record {
    target_branch = some pull.base_ref;
    number = job.issue.number;
    head_sha = pull.head_sha;
  }

  -- from the fetch of the pull request on
  pub fetched : IssueComment → List System → List Instruction → Option Pull → Actions
  unfolding respond repo_msg pr_msg
  fetched job archs instructions none = ack ∷ []
  fetched job archs instructions (some pull) =
      respond (repo_msg job) (pr_msg job pull) archs 0 instructions

  unfoldable pub consumer : (Text → Parsed) → Acl → IssueComment → Actions
  unfolding fetched parse
  consumer parse_line_impl acl job = elim (is_deleted job.action) [
    | true ↦ ack ∷ []
    | false ↦ elim (parse parse_line_impl job.comment.body) [
      | none ↦ ack ∷ []
      | some instructions ↦
          let archs =
            build_job_architectures_for_user_repo lower acl job.comment.user.login
              job.repository.full_name in
          elim (is_empty archs) [
            | true ↦ ack ∷ []
            | false ↦
                fetched job archs instructions
                  (get_pull job.repository.owner.login job.repository.name job.issue.number)
          ]
    ]
  ]
