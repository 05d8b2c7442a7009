-- ===== src/Evaluation/Run.antt =====
-- The evaluation of a pull request, step by step: `EvaluationWorker::consumer` of
-- ofborg/src/tasks/evaluate.rs, over the strategies' interface of ofborg/src/tasks/eval/mod.rs.
use ofborg.Base.{
  Bool, true, false, not, Option, none, some, List, [], ◌∷◌, ◌++◌, Text, text, text_eq, unwrap_or,
  if◌then◌else◌, Result, ok, err,
}
use ofborg.Message.{Pr, BuildJob, EvaluationJob, Payload}
use ofborg.Access.{System, Acl, build_job_architectures_for_user_repo}
use ofborg.Worker.{Actions}
use ofborg.CommentPoster.{CheckRunOptions}
use ofborg.EvalChecker.{EvalChecker, full_name, cli_cmd, execute}
use ofborg.Evaluation.Effects.{
  pending, success, failure, error, CommitStatus, Effect, check_sent, Out, after, bind, give, Issue,
  World, set, set_with_description, make_gist,
}
use ofborg.Evaluation.{schedule_builds, issue_is_wip, skip, done}

pub data StepError : Type 0 where
  fail : Text → StepError
  fail_with_gist : (message filename content : Text) → StepError

pub record EvaluationComplete : Type 0 where
  pub builds : List BuildJob
  pub checks : List CheckRunOptions

-- A strategy at work on one job, with its state `S`: it takes each of its steps at most once. The steps
-- that are given the status may set it.
pub record Strategy (S : Type 0) : Type 0 where
  pub pre_clone : S → Out (S × Result (Unit {0}) StepError)
  pub on_target_branch :
      Text → CommitStatus → S → Out (S × CommitStatus × Result (Unit {0}) StepError)
  pub after_fetch : S → Out (S × Result (Unit {0}) StepError)
  pub merge_conflict : S → Out S
  pub after_merge : CommitStatus → S → Out (S × CommitStatus × Result (Unit {0}) StepError)
  pub evaluation_checks : S → List EvalChecker
  pub all_evaluations_passed :
      Text → CommitStatus → S → Out (S × CommitStatus × Result EvaluationComplete StepError)

module _ (w : World) where
  -- The status afterwards, and whether to go on.
  unfoldable pub handle_strategy_err :
      {A : Type 0} → Result A StepError → CommitStatus → Out (CommitStatus × Bool)
  unfolding bind make_gist set_with_description
  handle_strategy_err (ok a) s = give (s, true)
  handle_strategy_err (err (fail message)) s =
      bind (set_with_description w message failure s) (λ s1. give (s1, false))
  handle_strategy_err (err (fail_with_gist message filename content)) s =
      bind (make_gist w filename (some (text "")) content) (λ url.
        bind (set_with_description w message failure (record s { url = url }))
          (λ s1. give (s1, false)))

  -- The end of one check: its status by what the run gave.
  unfoldable pub judged : EvalChecker → CommitStatus → Option (Result Text Text) → Out Bool
  unfolding bind set make_gist
  judged check s none = none
  judged check s (some (ok out)) = bind (set w success s) (λ _. give true)
  judged check s (some (err out)) =
      bind (make_gist w (full_name check) (some (text "Failure")) out)
        (λ url. bind (set w failure (record s { url = url })) (λ _. give false))

  -- One check: its status, and whether it succeeded.
  unfoldable pub run_check : Text → EvalChecker → Out Bool
  unfolding bind set judged
  run_check refpath check =
      let fresh : CommitStatus = record {
        context = full_name check;
        description = cli_cmd check;
        url = text "";
      } in
      bind (set w pending fresh) (λ s. judged check s (execute w.merged w.path refpath check))

  -- `all` on the lazy list of checks: the first that fails is the last that runs.
  unfoldable pub run_checks : Text → List EvalChecker → Out Bool
  unfolding bind
  run_checks refpath [] = give true
  run_checks refpath (check ∷ rest) =
      bind (run_check refpath check)
        (λ passed. if passed then run_checks refpath rest else give false)

  abbrev sent : List CheckRunOptions → List Effect
  sent [] = []
  sent (c ∷ cs) = check_sent c ∷ sent cs

  -- Either the handled error ends the job, or it goes on with the status.
  unfoldable pub unless_failed :
      {A : Type 0} → Result A StepError → CommitStatus → (CommitStatus → Out Actions) → Out Actions
  unfolding bind handle_strategy_err
  unless_failed ret s next =
      bind (handle_strategy_err ret s) (λ p. if p.1 then next p.0 else give skip)

module _ (lower : Text → Text) where
  -- The machines for the automatic builds.
  unfoldable pub auto_archs : Acl → EvaluationJob → Issue → List System
  auto_archs acl job iss =
      if issue_is_wip lower iss.title iss.labels
      then []
      else build_job_architectures_for_user_repo lower acl iss.login job.repo.full_name

module _ (lower : Text → Text) (to_json : Payload → Text) (w : World) {S : Type 0}
    (st : Strategy S) where
  -- after `all_evaluations_passed`
  unfoldable pub completed :
      List System → S × CommitStatus × Result EvaluationComplete StepError → Out Actions
  unfolding bind set_with_description unless_failed
  completed archs (x, s, ok complete) = after (sent w complete.checks) (
      bind (set_with_description w (text "^.^!") success s)
        (λ _. give (done (schedule_builds to_json complete.builds archs))))
  completed archs (x, s, err e) =
      unless_failed w {A = EvaluationComplete} (err e) s
        (λ s1. bind (set_with_description w (text "^.^!") success s1) (λ _. give (done [])))

  -- from the checks on
  unfoldable pub checked : List System → Text → S → CommitStatus → Out Actions
  unfolding bind run_checks completed
  checked archs refpath x s = bind (run_checks w refpath (st.evaluation_checks x)) (λ passed.
      if passed
      then bind (st.all_evaluations_passed refpath s x) (completed archs)
      else bind (set_with_description w (text "Complete, with errors") failure s)
          (λ _. give (done [])))

  -- from the merge on
  unfoldable pub merging : List System → Text → Pr → S → CommitStatus → Out Actions
  unfolding bind unless_failed checked
  merging archs refpath pr x s = bind (set_with_description w (text "Merging PR") pending s) (λ s1.
      if not (w.merge_commit pr.head_sha)
      then bind (set_with_description w (text "Failed to merge") failure s1)
          (λ _. bind (st.merge_conflict x) (λ _. give skip))
      else bind (st.after_merge s1 x) (λ p. unless_failed w p.2 p.1 (λ s2.
        bind (set_with_description w (text "Beginning Evaluations") pending s2)
          (λ s3. checked archs refpath p.0 s3))))

  -- from the fetch of the pull request on
  unfoldable pub fetched : List System → Text → Pr → S → CommitStatus → Out Actions
  unfolding bind unless_failed merging
  fetched archs refpath pr x s = bind (set_with_description w (text "Fetching PR") pending s) (λ s1.
      if not (w.fetch_pr pr.number) then none else elim (w.commit_exists pr.head_sha) [
        | none ↦ none
        | some false ↦
            bind (set_with_description w (text "Commit not found") error s1) (λ _. give skip)
        | some true ↦
            bind (st.after_fetch x) (λ p. unless_failed w p.1 s1 (merging archs refpath pr p.0))
      ])

  -- from the checkout of the target branch on
  unfoldable pub targeted : List System → Pr → S → CommitStatus → Option Text → Out Actions
  unfolding bind unless_failed fetched
  targeted archs pr x s none = none
  targeted archs pr x s (some refpath) =
      bind (st.on_target_branch refpath s x)
        (λ p. unless_failed w p.2 p.1 (fetched archs refpath pr p.0))

  -- from the clone on
  unfoldable pub cloning : List System → EvaluationJob → S → CommitStatus → Out Actions
  unfolding bind targeted
  cloning archs job x s =
      let target_branch = unwrap_or job.pr.target_branch (text "master") in
      bind (set_with_description w (text "Cloning project") pending s) (λ s1.
        if not (w.clone_for job.repo.full_name job.repo.clone_url)
        then none
        else bind (set_with_description w (text "Checking out " ++ target_branch) pending s1)
            (λ s2. targeted archs job.pr x s2 (w.checkout_origin_ref target_branch)))

  -- from the first status on
  unfoldable pub begun : Text → EvaluationJob → S → List System → Out Actions
  unfolding bind unless_failed cloning
  begun identity job x archs =
      let new : CommitStatus = record {
        context = text "grahamcofborg-eval";
        description = text "Starting";
        url = text "";
      } in
      bind (set_with_description w (text "Starting") pending new)
        (λ s. bind (st.pre_clone x) (λ p. unless_failed w p.1 s (cloning archs job p.0)))

  -- `create` is the constructor of the strategy, with the issue that GitHub gives.
  unfoldable pub consumer : Acl → Text → (Issue → S) → EvaluationJob → Out Actions
  unfolding begun auto_archs
  consumer acl identity create job =
      if not (w.app_for job.repo.owner job.repo.name) then none else elim (w.issue job.pr.number) [
        | none ↦ give skip
        | some iss ↦
            if text_eq iss.state (text "closed")
            then give skip
            else begun identity job (create iss) (auto_archs lower acl job iss)
      ]
