-- ===== src/CommentPoster.antt =====
-- The check runs on a commit: ofborg/src/tasks/githubcommentposter.rs.
pub mod Checks
pub mod Tests
use ofborg.Base.{
  ℕ, suc, Bool, true, false, Option, none, some, List, [], ◌∷◌, ◌++◌, map, Text, text, decimal,
  join, sort, is_empty, unwrap_or, if◌then◌else◌, Result, ok, err,
}
use ofborg.Message.{
  Repo, Pr, BuildJob, QueuedBuildJobs, BuildStatus, skipped, success, failure, timed_out,
  unexpected_error, BuildResult, LegacyBuildResult,
}
use ofborg.Message.Results.{Conclusion, status_title, conclusion, legacy}
use ofborg.Worker.{Actions, ack}

pub data CheckRunState : Type 0 where
  queued completed : CheckRunState

-- `hubcaps::checks::Output`, without annotations and images, which are never given.
pub record Output : Type 0 where
  pub title : Text
  pub summary : Text
  pub text_of : Option Text

-- `hubcaps::checks::CheckRunOptions`, without actions, which are never given.
pub record CheckRunOptions : Type 0 where
  pub name : Text
  pub head_sha : Text
  pub details_url : Option Text
  pub external_id : Option Text
  pub status : Option CheckRunState
  pub started_at : Option Text
  pub conclusion_of : Option Conclusion
  pub completed_at : Option Text
  pub output : Option Output

pub data PostableEvent : Type 0 where
  build_queued : QueuedBuildJobs → PostableEvent
  build_finished : BuildResult → PostableEvent

-- `PostableEvent::from`: a message is first read as queued jobs, then as a result. The two readers
-- are serde_json's; their errors are texts. `debug` prints the body's lossy text as `{:?}` does.
unfoldable pub from_bytes :
    (Text → Result QueuedBuildJobs Text)
    → (Text → Result BuildResult Text)
    → (Text → Text)
    → Text
    → Result PostableEvent Text
from_bytes read_queued read_result debug body = elim (read_queued body) [
  | ok e ↦ ok (build_queued e)
  | err _ ↦ elim (read_result body) [
    | ok e ↦ ok (build_finished e)
    | err e ↦
        err (text "Failed to deserialize PostableEvent: " ++ (debug body ++ (text ", err: " ++ e)))
  ]
]

unfoldable pub list_segment : Text → List Text → List Text
list_segment name things =
    if is_empty things then [] else (name ++ (text ": " ++ join (text ", ") things)) ∷ [] ∷ []

unfoldable pub or_unknown : List Text → List Text
or_unknown all_attrs = if is_empty all_attrs then text "(unknown attributes)" ∷ [] else all_attrs

-- The name of the check run, from the attributes and the system.
unfoldable pub check_name : List Text → Text → Text
check_name attrs system = join (text ", ") (or_unknown (sort attrs)) ++ (text " on " ++ system)

abbrev segment_of : Text → Option (List Text) → List Text
segment_of name none = []
segment_of name (some things) = list_segment name things

abbrev timed_out_note : BuildStatus → List Text
timed_out_note timed_out = text "Build timed out." ∷ []
timed_out_note _ = []

unfoldable pub summary_of : LegacyBuildResult → List Text
summary_of result =
    segment_of (text "Attempted") result.body.attempted_attrs
    ++ (timed_out_note result.status
        ++ segment_of
            (text "The following builds were skipped because they don't evaluate on "
              ++ result.body.system)
            result.body.skipped_attrs)

unfoldable pub partial_log : List Text → Text
partial_log output =
    if is_empty output
    then text "No partial log is available."
    else join (10 ∷ []) (text "## Partial log" ∷ [] ∷ text "```" ∷ (output ++ text "```" ∷ []))

-- `lower` is `str::to_lowercase`, and `timestamp` the time as chrono prints it.
module _ (lower : Text → Text) where
  unfoldable pub log_url : Repo → ℕ → Text
  log_url repo number =
      text "https://logs.nix.ci/?key="
      ++ (lower repo.owner ++ (text "/" ++ (lower repo.name ++ (text "." ++ decimal number))))

  unfoldable pub job_to_check : BuildJob → Text → Text → CheckRunOptions
  job_to_check job architecture timestamp = record {
    name = check_name job.attrs architecture;
    head_sha = job.pr.head_sha;
    details_url = some (log_url job.repo job.pr.number);
    external_id = none;
    status = some queued;
    started_at = some timestamp;
    conclusion_of = none;
    completed_at = none;
    output = none;
  }

  unfoldable pub result_to_check : LegacyBuildResult → Text → CheckRunOptions
  result_to_check result timestamp =
      let attrs =
        unwrap_or result.body.attempted_attrs [] ++ unwrap_or result.body.skipped_attrs [] in
      record {
        name = check_name attrs result.body.system;
        head_sha = result.body.pr.head_sha;
        details_url = some (
            log_url result.body.repo result.body.pr.number
            ++ (text "&attempt_id=" ++ result.body.attempt_id));
        external_id = some result.body.attempt_id;
        status = some completed;
        started_at = none;
        conclusion_of = some (conclusion result.status);
        completed_at = some timestamp;
        output = some (record {
          title = status_title result.status;
          summary = join (10 ∷ []) (summary_of result);
          text_of = some (partial_log result.body.output);
        });
      }

  -- The loop over the architectures. `now` gives the readings of the clock, one after the other.
  unfoldable pub checks_from : (ℕ → Text) → ℕ → BuildJob → List Text → List CheckRunOptions
  checks_from now i job [] = []
  checks_from now i job (architecture ∷ architectures) =
      job_to_check job architecture (now i) ∷ checks_from now (suc i) job architectures

  -- The repository and the checks of an event.
  unfoldable pub checks_of : (ℕ → Text) → PostableEvent → Repo × List CheckRunOptions
  checks_of now (build_queued queued_job) =
      (queued_job.job.repo, checks_from now 0 queued_job.job queued_job.architectures)
  checks_of now (build_finished finished_job) =
      ((legacy finished_job).body.repo, result_to_check (legacy finished_job) (now 0) ∷ [])

  -- What the consumer asks GitHub for, in order: check runs on a repository. `app_for` is whether
  -- the vending machine has credentials for an owner and a name, without which the consumer panics;
  -- whether a check run could be created has no influence.
  unfoldable pub post_all :
      (Text → Text → Bool) → Repo → List CheckRunOptions → Option (List (Repo × CheckRunOptions))
  post_all app_for repo [] = some []
  post_all app_for repo (check ∷ checks) =
      let rest = post_all app_for repo checks in
      if app_for repo.owner repo.name
      then elim rest [ none ↦ none | some posted ↦ some ((repo, check) ∷ posted) ]
      else none

  unfoldable pub consumer :
      (Text → Text → Bool)
      → (ℕ → Text)
      → PostableEvent
      → Option (List (Repo × CheckRunOptions) × Actions)
  consumer app_for now job =
      let c = checks_of now job in
      elim (post_all app_for c.0 c.1) [ none ↦ none | some posted ↦ some (posted, ack ∷ []) ]
