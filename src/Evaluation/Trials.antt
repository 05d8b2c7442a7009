-- ===== src/Evaluation/Trials.antt =====
-- The evaluation of a pull request for nixpkgs, from the job to the builds:
-- ofborg/src/tasks/evaluate.rs with ofborg/src/tasks/eval/nixpkgs.rs.
use ofborg.Base.{
  true, some, List, [], ◌∷◌, Text, ok, ◌≡◌, ◌⊎◌, refl, subst, ap, ◌∙◌, arith, inl, inr, All,
}
use ofborg.Message.{BuildJob, EvaluationJob, Payload}
use ofborg.Access.{System, Acl}
use ofborg.Worker.{Actions, ack}
use ofborg.Nix.{Nix}
use ofborg.NixStats.{EvaluationStats}
use ofborg.NixEnv
use ofborg.OutPathDiff.{PackageOutPaths}
use ofborg.EvalChecker.{execute}
use ofborg.Evaluation.{schedule_builds, done, is_nixpkgs}
use ofborg.Evaluation.Effects.{Issue, World}
use ofborg.Evaluation.Run.{auto_archs}
use ofborg.Evaluation.Gives.{Gives, IsBroken}
use ofborg.Evaluation.Scheduled.{IsOutcome, consumer-Ends}
use ofborg.Evaluation.Nixpkgs.{NixpkgsStrategy, Surroundings, new, run_after}
use ofborg.Evaluation.Nixpkgs.Steps.{nixpkgs_strategy, named_packages, evaluation_checks}
use ofborg.Evaluation.Nixpkgs.Builds.{IsTrial, Asks, all_evaluations_passed-Asks}
use ofborg.Evaluation.Nixpkgs.Kept.{IsFor, nixpkgs_strategy-Keeps}
use ofborg.Evaluation.Generic.{evaluate}

module _ {F S : Type 0} (to_json : Payload → Text) (w : World) (o : Surroundings F S) (nix : Nix)
    (job : EvaluationJob) where
  -- The job is only acknowledged, or all nine checks succeed on the checkout and one trial build is
  -- sent to these machines.
  pub record IsTried (archs : List System) (actions : Actions) : Type 0 where
    pub tried :
        (actions ≡ ack ∷ [])
        ⊎ ((refpath : Text) × (pkgs : PackageOutPaths) × (stats : EvaluationStats S)
            × (b : BuildJob) × All
                (λ c. (out : Text) × (execute w.merged w.path refpath c ≡ some (ok out)))
                (evaluation_checks nix)
            × (run_after w o (NixEnv.new nix refpath true) ≡ some (ok (pkgs, stats)))
            × IsTrial job (named_packages w o job) pkgs b
            × (actions ≡ done (schedule_builds to_json (b ∷ []) archs)))

  -- the packages that the strategy takes for touched
  touched_of :
      (x : NixpkgsStrategy S) (touched : List Text)
      → IsFor w o job nix x
      → x.touched_packages ≡ some touched
      → touched ≡ named_packages w o job
  touched_of x touched i e = elim i.touched [ inl f ↦ absurd (ground arith) | inr f ↦ ground arith ]

  Asks-IsTried :
      (archs : List System) (actions : Actions) (refpath : Text) (x : NixpkgsStrategy S)
      (builds : List BuildJob)
      → IsFor w o job nix x
      → All
          (λ c. (out : Text) × (execute w.merged w.path refpath c ≡ some (ok out)))
          (evaluation_checks x.nix)
      → Asks w o refpath x builds
      → actions ≡ done (schedule_builds to_json builds archs)
      → IsTried archs actions
  unfolding Asks schedule_builds done
  Asks-IsTried archs actions refpath x builds i passed (inl e) g = record {
    tried = inl (g ∙ ap (λ bs. done (schedule_builds to_json bs archs)) e);
  }
  Asks-IsTried archs actions refpath x builds i passed (inr (touched, pkgs, stats, b, e, r, f, t))
        g =
      record {
        tried = inr (
          refpath,
          pkgs,
          stats,
          b,
          subst
              (λ n.
                All (λ c. (out : Text) × (execute w.merged w.path refpath c ≡ some (ok out)))
                  (evaluation_checks n))
              i.same_nix passed,
          subst (λ n. run_after w o (NixEnv.new n refpath true) ≡ some (ok (pkgs, stats)))
              i.same_nix r,
          subst (λ j. IsTrial j (named_packages w o job) pkgs b) i.same_job
              (subst (λ p. IsTrial x.job p pkgs b) (touched_of x touched i e) t),
          g ∙ ap (λ bs. done (schedule_builds to_json bs archs)) f,
        );
      }

  IsOutcome-IsTried :
      (archs : List System) (actions : Actions)
      → IsOutcome to_json w (nixpkgs_strategy w o) (IsFor w o job nix) archs actions
      → IsTried archs actions
  unfolding nixpkgs_strategy
  IsOutcome-IsTried archs actions (inl e) = record { tried = inl e }
  IsOutcome-IsTried archs actions (inr (refpath, s, s1, x, x1, es, complete, i, passed, e, g)) =
      Asks-IsTried archs actions refpath x complete.builds i passed
        (all_evaluations_passed-Asks w o refpath s s1 x x1 complete es e) g

  -- The evaluation of a job for nixpkgs whose issue GitHub gives comes to its end, unless a call fails
  -- that the code unwraps or a step panics. It then only acknowledges the job, or all nine checks have
  -- succeeded on one checkout and a single job is sent, to the machines that the issue's author may
  -- use: a job for this pull request, of at least one and at most ten different packages, which are
  -- exactly those that the merged checkout has and that the messages of its commits name.
  pub evaluate-IsTried :
      (acl : Acl) (identity : Text) (tag_paths : List (Text × List Text)) (iss : Issue)
      → is_nixpkgs job ≡ true
      → w.issue job.pr.number ≡ some iss
      → Gives
          (IsBroken w (nixpkgs_strategy w o))
          (IsTried (auto_archs o.lower acl job iss))
          (evaluate to_json w o acl identity nix tag_paths job)
  unfolding evaluate new
  evaluate-IsTried acl identity tag_paths iss e f =
      let ends =
        consumer-Ends o.lower to_json w (nixpkgs_strategy w o) (IsFor w o job nix)
          (nixpkgs_strategy-Keeps w o job nix) acl identity (new job nix tag_paths) job iss f
          (record { same_job = refl; same_nix = refl; touched = inl refl }) in
      rw (e, evaluate)
        (record {
          given = λ actions es g.
              IsOutcome-IsTried (auto_archs o.lower acl job iss) actions (ends.given actions es g);
          panics = ends.panics;
        })
