-- ===== src/Evaluation/Sending.antt =====
-- Which builds an evaluation sends to which machines: `EvaluationWorker::consumer` and
-- `schedule_builds` of ofborg/src/tasks/evaluate.rs.
use ofborg.Base.{
  Bool, true, false, none, some, List, [], ◌∷◌, ◌++◌, map, Text, text, ok, ◌≡◌, ◌⊎◌, refl, sym, ap,
  ◌∙◌, inl, inr, All, Bool-cases, append_assoc,
}
use ofborg.Message.{BuildJob, EvaluationJob, Payload, build_job, queued_build_jobs}
use ofborg.Access.{
  System, Acl, system_name, as_build_destination, build_job_architectures_for_user_repo,
}
use ofborg.Worker.{Action, Actions, ack, publish_serde_action}
use ofborg.EvalChecker.{execute}
use ofborg.Evaluation.{issue_is_wip, schedule_builds, done}
use ofborg.Evaluation.Effects.{CommitStatus, Effect, Issue, World}
use ofborg.Evaluation.Run.{EvaluationComplete, Strategy, auto_archs, consumer}
use ofborg.Evaluation.Gives.{IsBroken, Keeps, Gives}
use ofborg.Evaluation.Scheduled.{IsOutcome, consumer-Ends}

-- The machines that are used, of those that are granted.
abbrev used : Bool → List System → List System
used true granted = []
used false granted = granted

module _ (to_json : Payload → Text) where
  -- A job under way to the machines of one kind, and its announcement for some kinds.
  abbrev pub build_message : BuildJob → System → Action
  build_message job arch =
      publish_serde_action to_json none (some (text "build-inputs-" ++ system_name arch))
        (build_job job)

  abbrev pub announcement : BuildJob → List System → Action
  announcement job archs =
      publish_serde_action to_json (some (text "build-results")) none
        (queued_build_jobs (record { job = job; architectures = map system_name archs }))

  -- The job goes to each of the granted machines and is announced for them, unless the issue is work
  -- in progress: then it is only announced, for none.
  abbrev pub messages_for : (wip : Bool) → List System → BuildJob → Actions
  messages_for true granted job = announcement job [] ∷ []
  messages_for false granted job = map (build_message job) granted ++ announcement job granted ∷ []

  -- Job by job, and behind them the acknowledgement.
  abbrev pub all_messages : (wip : Bool) → List System → List BuildJob → Actions
  all_messages wip granted [] = ack ∷ []
  all_messages wip granted (job ∷ jobs) =
      messages_for wip granted job ++ all_messages wip granted jobs

  all_messages-schedule_builds :
      (wip : Bool) (granted : List System) (jobs : List BuildJob)
      → done (schedule_builds to_json jobs (used wip granted)) ≡ all_messages wip granted jobs
  unfolding done schedule_builds as_build_destination
  all_messages-schedule_builds wip granted [] = refl
  all_messages-schedule_builds true granted (job ∷ jobs) =
      ap (λ l. announcement job [] ∷ l) (all_messages-schedule_builds true granted jobs)
  all_messages-schedule_builds false granted (job ∷ jobs) =
      let messages = map (build_message job) granted in
      append_assoc messages (announcement job granted ∷ schedule_builds to_json jobs granted)
        (ack ∷ [])
      ∙ ap (λ l. messages ++ announcement job granted ∷ l)
          (all_messages-schedule_builds false granted jobs)
      ∙ sym
          (append_assoc messages (announcement job granted ∷ []) (all_messages false granted jobs))

-- The job is only acknowledged, or every check of the strategy succeeds on the checkout, and the
-- builds for which the strategy then asks are sent.
abbrev pub IsSent :
    {S : Type 0}
    → (Payload → Text)
    → World
    → Strategy S
    → (S → Type 0)
    → (wip : Bool) → List System
    → Actions
    → Type 0
IsSent {S} to_json w st Inv wip granted actions =
    (actions ≡ ack ∷ [])
    ⊎ ((refpath : Text) × (s s' : CommitStatus) × (x x' : S) × (es : List Effect)
        × (complete : EvaluationComplete) × Inv x
        × All (λ c. (out : Text) × (execute w.merged w.path refpath c ≡ some (ok out)))
            (st.evaluation_checks x)
        × (st.all_evaluations_passed refpath s x ≡ some ((x', s', ok complete), es))
        × (actions ≡ all_messages to_json wip granted complete.builds))

auto_archs-used :
    (lower : Text → Text) (acl : Acl) (job : EvaluationJob) (iss : Issue)
    → auto_archs lower acl job iss
      ≡ used
          (issue_is_wip lower iss.title iss.labels)
          (build_job_architectures_for_user_repo lower acl iss.login job.repo.full_name)
unfolding auto_archs
auto_archs-used lower acl job iss = elim (Bool-cases (issue_is_wip lower iss.title iss.labels)) [
  | inl e ↦ rw (e, auto_archs) refl
  | inr e ↦ rw (e, auto_archs) refl
]

module _ (lower : Text → Text) (to_json : Payload → Text) (w : World) {S : Type 0} (st : Strategy S)
    (Inv : S → Type 0) (keeps : Keeps st Inv) (acl : Acl) (identity : Text) (create : Issue → S)
    (job : EvaluationJob) (iss : Issue) where
  abbrev wip : Bool
  wip = issue_is_wip lower iss.title iss.labels

  abbrev granted : List System
  granted = build_job_architectures_for_user_repo lower acl iss.login job.repo.full_name

  outcome-IsSent :
      (actions : Actions)
      → IsOutcome to_json w st Inv (auto_archs lower acl job iss) actions
      → IsSent to_json w st Inv wip granted actions
  outcome-IsSent actions (inl e) = inl e
  outcome-IsSent actions (inr (refpath, s, s', x, x', es, complete, i, passed, e, same)) = inr (
    refpath,
    s,
    s',
    x,
    x',
    es,
    complete,
    i,
    passed,
    e,
    same
        ∙ ap (λ archs. done (schedule_builds to_json complete.builds archs))
            (auto_archs-used lower acl job iss)
        ∙ all_messages-schedule_builds to_json wip granted complete.builds,
  )

  -- The evaluation of a job whose issue GitHub gives comes to its end, unless a call fails that the
  -- code unwraps or a step of the strategy panics. It then only acknowledges the job, or every check of
  -- the strategy has succeeded, and of the builds that the strategy asked for, one after the other, each
  -- is sent to the queue of every machine that the issue's author may use and announced for these
  -- machines; but if the issue is work in progress, each is only announced, for no machine. The
  -- acknowledgement comes last. The state in which the strategy asks for the builds has every property
  -- that the strategy's first state has and its steps keep.
  pub consumer-IsSent :
      w.issue job.pr.number ≡ some iss
      → Inv (create iss)
      → Gives
          (IsBroken w st)
          (IsSent to_json w st Inv
            (issue_is_wip lower iss.title iss.labels)
            (build_job_architectures_for_user_repo lower acl iss.login job.repo.full_name))
          (consumer lower to_json w st acl identity create job)
  consumer-IsSent e i =
      let h = consumer-Ends lower to_json w st Inv keeps acl identity create job iss e i in
      record {
        given = λ actions es f. outcome-IsSent actions (h.given actions es f);
        panics = h.panics;
      }
