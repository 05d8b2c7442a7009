-- ===== src/Build.antt =====
-- The reports of a builder on one job: `JobActions` of ofborg/src/tasks/build.rs. The notification
-- receiver is the list of the actions told so far, as in `DummyNotificationReceiver` of
-- ofborg/src/notifyworker.rs; the receiver on a channel makes the calls of Worker.perform for them.
pub mod Run
pub mod Log
pub mod Reports
pub mod Outcome
pub mod Settles
mod Tests
use ofborg.Base.{
  ℕ, ◌+◌, ◌%◌, ◌^◌, Bool, Option, none, some, List, [], ◌∷◌, ◌++◌, Text, text, length, leb,
  if◌then◌else◌, unwrap_or,
}
use ofborg.Message.{
  ExchangeQueue, BuildJob, BuildLogMsg, BuildLogStart, BuildStatus, skipped, failure, ResultBody,
  BuildResult, v1, Payload, build_log_msg, build_log_start, build_result,
}
use ofborg.Worker.{Action, Actions, ack, publish_serde_action}

pub record JobActions : Type 0 where
  pub system : Text
  pub identity : Text
  pub told : Actions
  pub job : BuildJob
  pub line_counter : ℕ  -- u64
  pub snippet_log : List Text
  pub attempt_id : Text
  pub log_exchange : Option Text
  pub log_routing_key : Option Text
  pub result_exchange : Option Text
  pub result_routing_key : Option Text

-- `VecDeque::pop_front`
abbrev pub pop_front : List Text → List Text
pop_front [] = []
pop_front (x ∷ xs) = xs

-- `attempt_id` is a fresh UUID.
unfoldable pub new_actions : Text → Text → BuildJob → Text → JobActions
new_actions system identity job attempt_id =
    let (log_exchange, log_routing_key) =
      unwrap_or job.logs (some (text "logs"), some (text "build.log")) in
    let (result_exchange, result_routing_key) =
      unwrap_or job.statusreport (some (text "build-results"), none) in
    record {
      system = system;
      identity = identity;
      told = [];
      job = job;
      line_counter = 0;
      snippet_log = [];
      attempt_id = attempt_id;
      log_exchange = log_exchange;
      log_routing_key = log_routing_key;
      result_exchange = result_exchange;
      result_routing_key = result_routing_key;
    }

unfoldable pub tell : Action → JobActions → JobActions
tell action a = record a { told = a.told ++ action ∷ [] }

unfoldable pub commit_missing : JobActions → JobActions
commit_missing a = tell ack a

unfoldable pub nothing_to_do : JobActions → JobActions
nothing_to_do a = tell ack a

abbrev pub body_for : JobActions → List Text → Option (List Text) → Option (List Text) → ResultBody
body_for a output attempted_attrs skipped_attrs = record {
  repo = a.job.repo;
  pr = a.job.pr;
  system = a.system;
  output = output;
  attempt_id = a.attempt_id;
  request_id = a.job.request_id;
  skipped_attrs = skipped_attrs;
  attempted_attrs = attempted_attrs;
}

-- `to_json` is serde_json's encoding.
module _ (to_json : Payload → Text) where
  unfoldable pub tell_result : Payload → JobActions → JobActions
  unfolding tell
  tell_result msg a =
      tell (publish_serde_action to_json a.result_exchange a.result_routing_key msg) a

  unfoldable pub tell_log : Payload → JobActions → JobActions
  unfolding tell
  tell_log msg a = tell (publish_serde_action to_json a.log_exchange a.log_routing_key msg) a

  unfoldable pub merge_failed : JobActions → JobActions
  unfolding tell tell_result
  merge_failed a =
      let msg = build_result (v1 (body_for a (text "Merge failed" ∷ []) none none) failure) in
      tell ack (tell_result msg a)

  unfoldable pub log_started : List Text → List Text → JobActions → JobActions
  unfolding tell_log
  log_started can_build cannot_build a =
      tell_log
        (build_log_start record {
          system = a.system;
          identity = a.identity;
          attempt_id = a.attempt_id;
          attempted_attrs = some can_build;
          skipped_attrs = some cannot_build;
        })
        a

  unfoldable pub log_line : Text → JobActions → JobActions
  unfolding tell_log
  log_line line a =
      let counter = (a.line_counter + 1) % 2 ^ 64 in
      let kept = if leb 10 (length a.snippet_log) then pop_front a.snippet_log else a.snippet_log in
      let msg : Payload = build_log_msg record {
        system = a.system;
        identity = a.identity;
        attempt_id = a.attempt_id;
        line_number = counter;
        output = line;
      } in
      tell_log msg (record a { line_counter = counter; snippet_log = kept ++ line ∷ [] })

  -- the loops that log one line after another
  unfoldable pub log_lines : List Text → JobActions → JobActions
  log_lines [] a = a
  log_lines (line ∷ rest) a = log_lines rest (log_line line a)

  unfoldable pub log_instantiation_errors : List (Text × List Text) → JobActions → JobActions
  log_instantiation_errors [] a = a
  log_instantiation_errors ((attr, log) ∷ rest) a = log_instantiation_errors rest (
      log_line (text "")
        (log_lines log (log_line (text "Cannot nix-instantiate `" ++ attr ++ text "' because:") a)))

  -- the end that `build_not_attempted` and `build_finished` share
  tell_both : Payload → JobActions → JobActions
  unfolding tell tell_result tell_log
  tell_both msg a = tell ack (tell_log msg (tell_result msg a))

  unfoldable pub build_not_attempted : List Text → JobActions → JobActions
  unfolding tell_both
  build_not_attempted not_attempted a =
      tell_both (build_result (v1 (body_for a a.snippet_log none (some not_attempted)) skipped)) a

  unfoldable pub build_finished : BuildStatus → List Text → List Text → JobActions → JobActions
  unfolding tell_both
  build_finished status attempted not_attempted a =
      tell_both
        (build_result (v1 (body_for a a.snippet_log (some attempted) (some not_attempted)) status))
        a
