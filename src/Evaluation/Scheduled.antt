-- ===== src/Evaluation/Scheduled.antt =====
-- What an evaluation leads to: ofborg/src/tasks/evaluate.rs.
use ofborg.Base.{
  not, Option, none, some, List, [], ◌∷◌, ◌++◌, Text, text, text_eq, unwrap_or, Result, ok, err,
  ◌≡◌, ◌⊎◌, refl, arith, inl, inr, All, Option-cases, true, false,
}
use ofborg.Message.{EvaluationJob, Pr, Payload}
use ofborg.Access.{System, Acl}
use ofborg.Worker.{Actions, ack}
use ofborg.Evaluation.{schedule_builds, skip, done}
use ofborg.EvalChecker.{execute}
use ofborg.Evaluation.Effects.{
  State, pending, success, failure, error, CommitStatus, Effect, Out, bind, give, Issue, World,
  set_with_description,
}
use ofborg.Evaluation.Run.{
  StepError, EvaluationComplete, Strategy, handle_strategy_err, unless_failed, completed, checked,
  merging, fetched, targeted, cloning, begun, auto_archs, consumer,
}
use ofborg.Evaluation.Gives.{
  IsBroken, no_app, no_clone, no_checkout, no_fetch, no_commit, no_pre_clone, no_target,
  no_after_fetch, no_merge_conflict, no_after_merge, no_builds, Keeps, Gives, Gives-none,
  Gives-give, Gives-after, Gives-bind, Gives-if, status-panics, handled, Passes, run_checks-Passes,
}

-- The job is only acknowledged, or every check of the strategy succeeds on the checkout and the builds
-- are those that the strategy then asks for, sent to these machines, with the acknowledgement behind.
abbrev pub IsOutcome :
    {S : Type 0}
    → (Payload → Text)
    → World
    → Strategy S
    → (S → Type 0)
    → List System
    → Actions
    → Type 0
IsOutcome {S} to_json w st Inv archs actions =
    (actions ≡ ack ∷ [])
    ⊎ ((refpath : Text) × (s s' : CommitStatus) × (x x' : S) × (es : List Effect)
        × (complete : EvaluationComplete) × Inv x
        × All (λ c. (out : Text) × (execute w.merged w.path refpath c ≡ some (ok out)))
            (st.evaluation_checks x)
        × (st.all_evaluations_passed refpath s x ≡ some ((x', s', ok complete), es))
        × (actions ≡ done (schedule_builds to_json complete.builds archs)))

-- An outcome, or a panic with its cause.
abbrev Ends :
    {S : Type 0}
    → (Payload → Text)
    → World
    → Strategy S
    → (S → Type 0)
    → List System
    → Out Actions
    → Type 0
Ends to_json w st Inv archs o = Gives (IsBroken w st) (IsOutcome to_json w st Inv archs) o

module _ (lower : Text → Text) (to_json : Payload → Text) (w : World) {S : Type 0} (st : Strategy S)
    (Inv : S → Type 0) (keeps : Keeps st Inv) (archs : List System) where
  skip-Ends : Ends to_json w st Inv archs (give skip)
  unfolding skip
  skip-Ends = Gives-give skip (inl refl)

  unless_failed-Ends :
      {A : Type 0} (ret : Result A StepError) (s : CommitStatus) (next : CommitStatus → Out Actions)
      → ((s' : CommitStatus) → Ends to_json w st Inv archs (next s'))
      → Ends to_json w st Inv archs (unless_failed w ret s next)
  unfolding unless_failed
  unless_failed-Ends ret s next h =
      Gives-bind (handle_strategy_err w ret s) _ (handled w st ret s).panics
        (λ p es e. Gives-if p.1 _ _ (λ _. h p.0) (λ _. skip-Ends))

  -- The last status, and then the given actions.
  closed :
      (d : Text) (state : State) (s : CommitStatus) (actions : Actions)
      → IsOutcome to_json w st Inv archs actions
      → Ends to_json w st Inv archs (bind (set_with_description w d state s) (λ _. give actions))
  closed d state s actions h =
      Gives-bind (set_with_description w d state s) (λ _. give actions)
        (status-panics w st d state s) (λ _ _ _. Gives-give actions h)

  completed-Ends :
      (refpath : Text) (s : CommitStatus) (x : S)
      (r : S × CommitStatus × Result EvaluationComplete StepError) (es : List Effect)
      → Inv x
      → All
          (λ c. (out : Text) × (execute w.merged w.path refpath c ≡ some (ok out)))
          (st.evaluation_checks x)
      → st.all_evaluations_passed refpath s x ≡ some (r, es)
      → Ends to_json w st Inv archs (completed lower to_json w st archs r)
  unfolding completed done
  completed-Ends refpath s x (x1, s1, ok complete) es i passed e = Gives-after _ _ (
      closed (text "^.^!") success s1 (done (schedule_builds to_json complete.builds archs))
        (inr (refpath, s, s1, x, x1, es, complete, i, passed, e, refl)))
  completed-Ends refpath s x (x1, s1, err e) es i passed _ =
      unless_failed-Ends {A = EvaluationComplete} (err e) s1
        (λ s2. bind (set_with_description w (text "^.^!") success s2) (λ _. give (done [])))
        (λ s2. closed (text "^.^!") success s2 (done []) (inl refl))

  checked-Ends :
      (refpath : Text) (x : S) (s : CommitStatus)
      → Inv x
      → Ends to_json w st Inv archs (checked lower to_json w st archs refpath x s)
  unfolding checked Passes done
  checked-Ends refpath x s i =
      let ran = run_checks-Passes w st refpath (st.evaluation_checks x) in
      Gives-bind _ _ ran.panics (λ b es e.
        Gives-if b _ _
          (λ h.
            Gives-bind _ _ (no_builds refpath s x)
              (λ r fs f. completed-Ends refpath s x r fs i (ran.given b es e h) f))
          (λ h. closed (text "Complete, with errors") failure s (done []) (inl refl)))

  merging-Ends :
      (refpath : Text) (pr : Pr) (x : S) (s : CommitStatus)
      → Inv x
      → Ends to_json w st Inv archs (merging lower to_json w st archs refpath pr x s)
  unfolding merging skip
  merging-Ends refpath pr x s i =
      Gives-bind _ _ (status-panics w st (text "Merging PR") pending s) (λ s1 _ _.
        Gives-if (not (w.merge_commit pr.head_sha)) _ _
          (λ _.
            Gives-bind _ _ (status-panics w st (text "Failed to merge") failure s1)
              (λ _ _ _. Gives-bind _ _ (no_merge_conflict x) (λ _ _ _. skip-Ends)))
          (λ _. Gives-bind _ _ (no_after_merge s1 x) (λ p fs f. unless_failed-Ends p.2 p.1 _ (λ s2.
            Gives-bind _ _ (status-panics w st (text "Beginning Evaluations") pending s2)
              (λ s3 _ _. checked-Ends refpath p.0 s3 (keeps.kept_after_merge s1 x p fs f i))))))

  fetched-Ends :
      (refpath : Text) (pr : Pr) (x : S) (s : CommitStatus)
      → Inv x
      → Ends to_json w st Inv archs (fetched lower to_json w st archs refpath pr x s)
  unfolding fetched skip
  fetched-Ends refpath pr x s i =
      Gives-bind _ _ (status-panics w st (text "Fetching PR") pending s) (λ s1 _ _.
        Gives-if (not (w.fetch_pr pr.number)) _ _
          (λ h. Gives-none (no_fetch pr.number (ground arith)))
          (λ _. elim (Option-cases (w.commit_exists pr.head_sha)) [
            | inl e ↦ rw e (Gives-none (no_commit pr.head_sha e))
            | inr (false, e) ↦ rw e (closed (text "Commit not found") error s1 skip (inl refl))
            | inr (true, e) ↦ rw e (
                Gives-bind _ _ (no_after_fetch x) (λ p fs f.
                  unless_failed-Ends p.1 s1 _
                    (λ s2. merging-Ends refpath pr p.0 s2 (keeps.kept_after_fetch x p fs f i))))
          ]))

  targeted-Ends :
      (pr : Pr) (branch : Text) (x : S) (s : CommitStatus) (o : Option Text)
      → w.checkout_origin_ref branch ≡ o
      → Inv x
      → Ends to_json w st Inv archs (targeted lower to_json w st archs pr x s o)
  unfolding targeted
  targeted-Ends pr branch x s none e i = Gives-none (no_checkout branch e)
  targeted-Ends pr branch x s (some refpath) e i = Gives-bind _ _ (no_target refpath s x) (λ p fs f.
      unless_failed-Ends p.2 p.1 _
        (λ s1. fetched-Ends refpath pr p.0 s1 (keeps.kept_target refpath s x p fs f i)))

  cloning-Ends :
      (job : EvaluationJob) (x : S) (s : CommitStatus)
      → Inv x
      → Ends to_json w st Inv archs (cloning lower to_json w st archs job x s)
  unfolding cloning
  cloning-Ends job x s i =
      let branch = unwrap_or job.pr.target_branch (text "master") in
      Gives-bind _ _ (status-panics w st (text "Cloning project") pending s) (λ s1 _ _.
        Gives-if (not (w.clone_for job.repo.full_name job.repo.clone_url)) _ _
          (λ h. Gives-none (no_clone job.repo.full_name job.repo.clone_url (ground arith)))
          (λ _.
            Gives-bind _ _ (status-panics w st (text "Checking out " ++ branch) pending s1)
              (λ s2 _ _. targeted-Ends job.pr branch x s2 (w.checkout_origin_ref branch) refl i)))

  begun-Ends :
      (identity : Text) (job : EvaluationJob) (x : S)
      → Inv x
      → Ends to_json w st Inv archs (begun lower to_json w st identity job x archs)
  unfolding begun
  begun-Ends identity job x i =
      let fresh : CommitStatus = record {
        context = text "grahamcofborg-eval";
        description = text "Starting";
        url = text "";
      } in
      Gives-bind _ _ (status-panics w st (text "Starting") pending fresh) (λ s _ _.
        Gives-bind _ _ (no_pre_clone x) (λ p fs f.
          unless_failed-Ends p.1 s _
            (λ s1. cloning-Ends job p.0 s1 (keeps.kept_pre_clone x p fs f i))))

-- The evaluation of a job whose issue GitHub gives comes to its end, unless a call fails that the code
-- unwraps or a step of the strategy panics. It then only acknowledges the job, or every check of the
-- strategy has succeeded and exactly the builds that the strategy asked for are sent, to the machines
-- that the issue's author may use, and to none of them if the issue is work in progress. The state in
-- which the strategy asks for them has every property that the strategy's first state has and its
-- steps keep.
pub consumer-Ends :
    (lower : Text → Text) (to_json : Payload → Text) (w : World) {S : Type 0} (st : Strategy S)
    (Inv : S → Type 0) (keeps : Keeps st Inv) (acl : Acl) (identity : Text) (create : Issue → S)
    (job : EvaluationJob) (iss : Issue)
    → w.issue job.pr.number ≡ some iss
    → Inv (create iss)
    → Gives
        (IsBroken w st)
        (IsOutcome to_json w st Inv (auto_archs lower acl job iss))
        (consumer lower to_json w st acl identity create job)
unfolding consumer
consumer-Ends lower to_json w st Inv keeps acl identity create job iss e i =
    let archs = auto_archs lower acl job iss in
    rw (e, consumer)
      (Gives-if (not (w.app_for job.repo.owner job.repo.name)) _ _
        (λ h. Gives-none (no_app job.repo.owner job.repo.name (ground arith)))
        (λ _.
          Gives-if (text_eq iss.state (text "closed")) _ _
            (λ _. skip-Ends lower to_json w st Inv keeps archs)
            (λ _. begun-Ends lower to_json w st Inv keeps archs identity job (create iss) i)))
