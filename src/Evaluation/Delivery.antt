-- ===== src/Evaluation/Delivery.antt =====
-- Handling the delivery of an evaluation job: ofborg/src/tasks/evaluate.rs under
-- ofborg/src/worker.rs. What its consumer reports to the statistics is left out.
use ofborg.Base.{
  ℕ, Bool, true, false, not, Option, none, some, List, [], ◌∷◌, ◌++◌, map, Text, text, Result, ok,
  err, ◌≡◌, refl, sym, subst, inl, inr, arith, if◌then◌else◌, Bool-cases,
}
use ofborg.Message.{EvaluationJob, BuildJob, Payload, build_job}
use ofborg.Access.{System, Acl, as_build_destination}
use ofborg.Nix.{Nix}
use ofborg.Stats.{SysEvents}
use ofborg.Worker.{Actions, Call, ack, publish_serde_action, handle_delivery}
use ofborg.Worker.Settled.{EndsInAck, IsSettled, handle_delivery-IsSettled}
use ofborg.Evaluation.{schedule_builds, skip, done, is_nixpkgs}
use ofborg.Evaluation.Effects.{Effect, Out, Issue, World, give}
use ofborg.Evaluation.Run.{Strategy, auto_archs, consumer}
use ofborg.Evaluation.Gives.{Keeps}
use ofborg.Evaluation.Scheduled.{IsOutcome, consumer-Ends}
use ofborg.Evaluation.Nixpkgs.{Surroundings, new}
use ofborg.Evaluation.Nixpkgs.Steps.{nixpkgs_strategy}
use ofborg.Evaluation.Generic.{generic_strategy, evaluate}

-- The three events of the reading of a job, and the sink V of events.
pub record Events (E V : Type 0) : Type 0 where
  pub job_received : E
  pub job_decode_success : E
  pub job_decode_failure : E
  pub sink : SysEvents E V

unfoldable pub msg_to_job :
    {E V : Type 0}
    → Events E V
    → (Text → Option EvaluationJob)
    → V
    → Text
    → Option (V × Result EvaluationJob Text)
msg_to_job events from v body = elim (events.sink.notify events.job_received v) [
  | none ↦ none
  | some v1 ↦ elim (from body) [
    | some e ↦ elim (events.sink.notify events.job_decode_success v1) [
      | none ↦ none
      | some v2 ↦ some (v2, ok e)
    ]
    | none ↦ elim (events.sink.notify events.job_decode_failure v1) [
      | none ↦ none
      | some v2 ↦ some (v2, err (text "Failed to decode message"))
    ]
  ]
]

EndsInAck-behind :
    (f : System → Option Text × Option Text) (to_json : Payload → Text) (msg : Payload)
    (archs : List System) (rest : Actions)
    → EndsInAck (rest ++ ack ∷ [])
    → EndsInAck (
        (map (λ arch. publish_serde_action to_json (f arch).0 (f arch).1 msg) archs ++ rest)
        ++ ack ∷ [])
unfolding publish_serde_action
EndsInAck-behind f to_json msg [] rest h = h
EndsInAck-behind f to_json msg (a ∷ archs) rest h = EndsInAck-behind f to_json msg archs rest h

published-EndsInAck :
    (to_json : Payload → Text) (builds : List BuildJob) (archs : List System)
    → EndsInAck (done (schedule_builds to_json builds archs))
unfolding done schedule_builds publish_serde_action
published-EndsInAck to_json [] archs = refl
published-EndsInAck to_json (job ∷ builds) archs =
    EndsInAck-behind as_build_destination to_json (build_job job) archs _
      (published-EndsInAck to_json builds archs)

anything : {S : Type 0} (st : Strategy S) → Keeps st (λ _. Unit)
anything st = record {
  kept_pre_clone = λ x p es e h. tt;
  kept_target = λ dir s x p es e h. tt;
  kept_after_fetch = λ x p es e h. tt;
  kept_after_merge = λ s x p es e h. tt;
}

module _ (lower : Text → Text) (to_json : Payload → Text) (w : World) {S : Type 0} (st : Strategy S)
    (acl : Acl) (identity : Text) (create : Issue → S) (job : EvaluationJob) where
  consumer-EndsInAck :
      (actions : Actions) (es : List Effect)
      → consumer lower to_json w st acl identity create job ≡ some (actions, es)
      → EndsInAck actions
  unfolding consumer skip
  consumer-EndsInAck actions es e = go (w.issue job.pr.number) refl
    where
      unknown :
          (b : Bool) → (if not b then none else give skip) ≡ some (actions, es) → EndsInAck actions
      unknown false e = absurd (ground arith)
      unknown true e = let same : actions ≡ skip = ground arith in subst EndsInAck (sym same) refl

      outcome :
          (iss : Issue)
          → IsOutcome to_json w st (λ _. Unit) (auto_archs lower acl job iss) actions
          → EndsInAck actions
      outcome iss (inl same) = subst EndsInAck (sym same) refl
      outcome iss (inr (refpath, s, s', x, x', fs, complete, i, checks, run, same)) =
          subst EndsInAck (sym same)
            (published-EndsInAck to_json complete.builds (auto_archs lower acl job iss))

      go : (o : Option Issue) → w.issue job.pr.number ≡ o → EndsInAck actions
      go none h = unknown (w.app_for job.repo.owner job.repo.name) (rw (consumer, h) at e)
      go (some iss) h = outcome iss (
          (consumer-Ends lower to_json w st (λ _. Unit) (anything st) acl identity create job iss h
              tt).given
            actions es e)

module _ {E V F S : Type 0} (events : Events E V) (from : Text → Option EvaluationJob)
    (to_json : Payload → Text) (w : World) (o : Surroundings F S) (acl : Acl) (identity : Text)
    (nix : Nix) (tag_paths : List (Text × List Text)) where
  abbrev pub evaluated : V → EvaluationJob → Option (V × Actions)
  evaluated v job = elim (evaluate to_json w o acl identity nix tag_paths job) [
    | none ↦ none
    | some (actions, es) ↦ some (v, actions)
  ]

  evaluate-EndsInAck :
      (job : EvaluationJob) (actions : Actions) (es : List Effect)
      → evaluate to_json w o acl identity nix tag_paths job ≡ some (actions, es)
      → EndsInAck actions
  unfolding evaluate
  evaluate-EndsInAck job actions es e = elim (Bool-cases (is_nixpkgs job)) [
    | inl h ↦
        consumer-EndsInAck o.lower to_json w (nixpkgs_strategy w o) acl identity
          (new job nix tag_paths) job actions es (rw (evaluate, h) at e)
    | inr h ↦
        consumer-EndsInAck o.lower to_json w generic_strategy acl identity (λ _. tt) job actions es
          (rw (evaluate, h) at e)
  ]

  evaluated-EndsInAck :
      (v : V) (job : EvaluationJob) (v' : V) (actions : Actions)
      → evaluated v job ≡ some (v', actions)
      → EndsInAck actions
  evaluated-EndsInAck v job v' actions e =
      go (evaluate to_json w o acl identity nix tag_paths job) refl e
    where
      given : Out Actions → Option (V × Actions)
      given out = elim out [ none ↦ none | some (actions, es) ↦ some (v, actions) ]

      go :
          (out : Out Actions)
          → evaluate to_json w o acl identity nix tag_paths job ≡ out
          → given out ≡ some (v', actions)
          → EndsInAck actions
      go none q e = absurd (ground arith)
      go (some (a, es)) q e =
          let same : a ≡ actions = ground arith in
          subst EndsInAck same (evaluate-EndsInAck job a es q)

  -- However the evaluation of a job fares, and whatever the broker refuses: if all of the worker's
  -- calls are made, the last one acknowledges the job and no other settles it; if it breaks off, at an
  -- event that cannot be reported, at a failure that the code unwraps or at a refused call, nothing
  -- settles the job.
  pub evaluation_delivery-IsSettled :
      (accepts : Call → Bool) (v : V) (tag : ℕ) (body : Text)
      → IsSettled tag (handle_delivery accepts (msg_to_job events from) evaluated v tag body).0
  evaluation_delivery-IsSettled accepts v tag body =
      handle_delivery-IsSettled accepts (msg_to_job events from) evaluated evaluated-EndsInAck v tag
        body
