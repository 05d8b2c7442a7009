-- ===== src/Evaluation/Generic.antt =====
-- The strategy for every other repository, which does nothing: ofborg/src/tasks/eval/generic.rs; and
-- the choice between the two in ofborg/src/tasks/evaluate.rs.
use ofborg.Base.{[], ok, List, Text, if◌then◌else◌}
use ofborg.Message.{EvaluationJob, Payload}
use ofborg.Access.{Acl}
use ofborg.Nix.{Nix}
use ofborg.Worker.{Actions}
use ofborg.Evaluation.{is_nixpkgs}
use ofborg.Evaluation.Effects.{Out, give, World}
use ofborg.Evaluation.Run.{Strategy, consumer}
use ofborg.Evaluation.Nixpkgs.{Surroundings, new}
use ofborg.Evaluation.Nixpkgs.Steps.{nixpkgs_strategy}

unfoldable pub generic_strategy : Strategy (Unit {0})
generic_strategy = record {
  pre_clone = λ x. give (x, ok tt);
  on_target_branch = λ co status x. give (x, status, ok tt);
  after_fetch = λ x. give (x, ok tt);
  merge_conflict = λ x. give x;
  after_merge = λ status x. give (x, status, ok tt);
  evaluation_checks = λ x. [];
  all_evaluations_passed =
      λ co status x. give (x, status, ok (record { builds = []; checks = [] }));
}

-- The whole consumer, with the strategy that it makes.
module _ {F S : Type 0} (to_json : Payload → Text) (w : World) (o : Surroundings F S) where
  unfoldable pub evaluate : Acl → Text → Nix → List (Text × List Text) → EvaluationJob → Out Actions
  unfolding consumer nixpkgs_strategy generic_strategy new is_nixpkgs
  evaluate acl identity nix tag_paths job =
      if is_nixpkgs job
      then consumer o.lower to_json w (nixpkgs_strategy w o) acl identity (new job nix tag_paths)
          job
      else consumer o.lower to_json w generic_strategy acl identity (λ _. tt) job
