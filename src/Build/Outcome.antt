-- ===== src/Build/Outcome.antt =====
-- What becomes of a job, for every answer of git and nix: ofborg/src/tasks/build.rs.
use ofborg.Base.{
  ◌+◌, ◌<◌, ◌^◌, true, Option, none, some, List, [], ◌∷◌, ◌++◌, map, Text, text, length, append-nil,
  ◌≡◌, ◌≢◌, ap, ◌∙◌, arith, unwrap_or,
}
use ofborg.Message.{BuildJob, skipped, Payload}
use ofborg.Worker.{Actions}
use ofborg.Build.{JobActions, new_actions, log_lines}
use ofborg.Build.Log.{numbered, line_action}
use ofborg.Build.Reports.{error_lines, start_action, final_actions, built_told, skipped_told}
use ofborg.Build.Run.{
  Machine, Waited, Ending, returned, panicked, checkout_origin_ref, partition_attrs, buildfile,
  status_of, attempt, merged, consumer,
}

-- What a consumer that returns has told.
abbrev pub told_by : Ending → Option Actions
told_by (panicked a) = none
told_by (returned a) = some a.told

module _ (to_json : Payload → Text) (m : Machine) (system identity attempt_id : Text)
    (job : BuildJob) where
  abbrev pub start : JobActions
  start = new_actions system identity job attempt_id

  -- The job has attributes, and its commit is checked out, fetched and merged.
  pub record IsMerged (refpath : Text) : Type 0 where
    pub wanted : job.attrs ≢ []
    pub cloned : m.clone_for job.repo.full_name job.repo.clone_url ≡ true
    pub checked_out :
        checkout_origin_ref m (unwrap_or job.pr.target_branch (text "origin/master")) ≡ some refpath
    pub fetched : m.fetch_pr job.pr.number ≡ true
    pub present : m.commit_exists job.pr.head_sha ≡ some true
    pub clean : m.merge_commit job.pr.head_sha ≡ true

  abbrev pub parts : Text → Option (List Text × List (Text × List Text))
  parts refpath = partition_attrs m refpath (buildfile job.subset) job.attrs

  consumer-attempt :
      (refpath : Text) (can : List Text) (errors : List (Text × List Text))
      → IsMerged refpath
      → parts refpath ≡ some (can, errors)
      → consumer to_json m start ≡ attempt to_json m (buildfile job.subset) refpath can errors start
  unfolding consumer merged new_actions
  consumer-attempt refpath can errors h split = ground arith

  -- A job that merges, and of which something can be built, is told of in this order: its start,
  -- with the attributes that can and cannot be built; each line of its log, under its number from 1
  -- on, the reasons against the attributes that cannot be built before the builder's own output; and
  -- its result, to the results and to the log, with the last ten lines, both lists of attributes and
  -- the status of the exit. It ends in the acknowledgement.
  pub consumer_built :
      (refpath first : Text) (others : List Text) (errors : List (Text × List Text))
      (built : List Text × Waited)
      → IsMerged refpath
      → parts refpath ≡ some (first ∷ others, errors)
      → m.build_attrs refpath (buildfile job.subset) (first ∷ others) ≡ some built
      → let cannot = map (λ p. p.0) errors in
        let logged = error_lines errors ++ built.0 in
        length logged < 2 ^ 64
        → told_by (consumer to_json m start)
          ≡ some (
              start_action to_json start (first ∷ others) cannot
                ∷ numbered (line_action to_json start) 1 logged
              ++ final_actions to_json start logged
                  (some (first ∷ others))
                  (some cannot)
                  (status_of built.1))
  unfolding attempt new_actions
  consumer_built refpath first others errors built ok split spawned few =
      rw (consumer-attempt refpath (first ∷ others) errors ok split, attempt, spawned)
        (ap some (
          built_told to_json (first ∷ others) (map (λ p. p.0) errors) errors built.0 start
            (omega arith) (omega arith) (status_of built.1)))

  -- A job that merges, and of which nothing can be built, is told of in this order: its start, with
  -- the attributes that cannot be built; the reasons against them, each line under its number from 1
  -- on; and its result, to the results and to the log, as skipped, with the last ten lines and these
  -- attributes. It ends in the acknowledgement.
  consumer_skipped :
      (refpath : Text) (errors : List (Text × List Text))
      → IsMerged refpath
      → parts refpath ≡ some ([], errors)
      → length (error_lines errors) < 2 ^ 64
      → told_by (consumer to_json m start)
        ≡ some (
            start_action to_json start [] (map (λ p. p.0) errors)
              ∷ numbered (line_action to_json start) 1 (error_lines errors)
            ++ final_actions to_json start
                (error_lines errors)
                none
                (some (map (λ p. p.0) errors))
                skipped)
  unfolding attempt new_actions log_lines
  consumer_skipped refpath errors ok split few =
      let cannot = map (λ (p : Text × List Text). p.0) errors in
      let few' : start.line_counter + length (error_lines errors ++ []) < 2 ^ 64 =
        rw append-nil (omega arith) in
      rw (consumer-attempt refpath [] errors ok split, attempt)
        (ap some (
          skipped_told to_json [] cannot errors [] start (omega arith) few'
          ∙ ap
              (λ l.
                start_action to_json start [] cannot ∷ numbered (line_action to_json start) 1 l
                ++ final_actions to_json start l none (some cannot) skipped)
              (append-nil (error_lines errors))))
