-- ===== src/Message.antt =====
-- The messages that the parts of the system exchange over the broker: ofborg/src/message/, and
-- `Subset` of ofborg/src/commentparser.rs. `String` is `Text`, `u64` is ℕ.
pub mod Results
use ofborg.Base.{ℕ, Bool, Option, none, some, List, Text, text, decimal, ◌++◌, [], ◌∷◌, unwrap_or}

pub record Repo : Type 0 where
  pub owner : Text
  pub name : Text
  pub full_name : Text
  pub clone_url : Text

pub record Pr : Type 0 where
  pub target_branch : Option Text
  pub number : ℕ
  pub head_sha : Text

pub data Subset : Type 0 where
  nixpkgs nixos : Subset

-- `ExchangeQueue`: exchange and routing key
abbrev pub ExchangeQueue : Type 0
ExchangeQueue = Option Text × Option Text

pub record BuildJob : Type 0 where
  pub repo : Repo
  pub pr : Pr
  pub subset : Option Subset
  pub attrs : List Text
  pub request_id : Text
  pub logs : Option ExchangeQueue
  pub statusreport : Option ExchangeQueue

pub record QueuedBuildJobs : Type 0 where
  pub job : BuildJob
  pub architectures : List Text

pub record EvaluationJob : Type 0 where
  pub repo : Repo
  pub pr : Pr

pub record BuildLogMsg : Type 0 where
  pub system : Text
  pub identity : Text
  pub attempt_id : Text
  pub line_number : ℕ
  pub output : Text

pub record BuildLogStart : Type 0 where
  pub system : Text
  pub identity : Text
  pub attempt_id : Text
  pub attempted_attrs : Option (List Text)
  pub skipped_attrs : Option (List Text)

pub data BuildStatus : Type 0 where
  skipped success failure timed_out : BuildStatus
  unexpected_error : Text → BuildStatus

-- The fields that both versions of a build result carry.
pub record ResultBody : Type 0 where
  pub repo : Repo
  pub pr : Pr
  pub system : Text
  pub output : List Text
  pub attempt_id : Text
  pub request_id : Text
  pub skipped_attrs : Option (List Text)
  pub attempted_attrs : Option (List Text)

-- `BuildResult::V1`, with its status, and `BuildResult::Legacy`, with `success` and `status`. The tag
-- of `V1` has one value.
pub data BuildResult : Type 0 where
  v1 : ResultBody → BuildStatus → BuildResult
  legacy_result : ResultBody → Option Bool → Option BuildStatus → BuildResult

pub record LegacyBuildResult : Type 0 where
  pub body : ResultBody
  pub status : BuildStatus

-- What is sent over the broker. The bytes are those of serde_json, a parameter `to_json` of the
-- senders.
pub data Payload : Type 0 where
  build_job : BuildJob → Payload
  queued_build_jobs : QueuedBuildJobs → Payload
  evaluation_job : EvaluationJob → Payload
  build_log_msg : BuildLogMsg → Payload
  build_log_start : BuildLogStart → Payload
  build_result : BuildResult → Payload

-- `BuildJob::new`. `lower` is `str::to_lowercase`, Unicode's case mapping.
module _ (lower : Text → Text) where
  unfoldable pub new_build_job :
      Repo → Pr → Subset → List Text → Option ExchangeQueue → Option ExchangeQueue → Text → BuildJob
  new_build_job repo pr subset attrs logs statusreport request_id =
      let logbackrk = lower (repo.full_name ++ text "." ++ decimal pr.number) in
      record {
        repo = repo;
        pr = pr;
        subset = some subset;
        attrs = attrs;
        request_id = request_id;
        logs = some (unwrap_or logs (some (text "logs"), some logbackrk));
        statusreport = some (unwrap_or statusreport (some (text "build-results"), none));
      }
