-- ===== src/Evaluation/Nixpkgs/Steps.antt =====
-- The strategy for nixpkgs at work: the steps and the checks of `EvaluationStrategy` in
-- ofborg/src/tasks/eval/nixpkgs.rs.
use ofborg.Base.{some, List, [], ◌∷◌, Text, text, unwrap_or, ok}
use ofborg.Message.{EvaluationJob}
use ofborg.Nix.{Nix, query_packages_json, instantiate}
use ofborg.EvalChecker
use ofborg.EvalChecker.{EvalChecker}
use ofborg.Evaluation.Commits.{parse_commit_messages}
use ofborg.Evaluation.Effects.{
  pending, CommitStatus, Out, bind, give, World, set_with_description, relabel,
}
use ofborg.Evaluation.Run.{Strategy}
use ofborg.Evaluation.Nixpkgs.{
  NixpkgsStrategy, Surroundings, StepResult, tag_from_title, tag_from_paths, check_stdenvs_before,
  check_stdenvs_after, check_outpaths_before, check_outpaths_after,
}
use ofborg.Evaluation.Nixpkgs.Passed.{all_evaluations_passed}

abbrev release_args : Text → Text → List Text
release_args file attribute =
    text "--arg"
    ∷ text "nixpkgs"
    ∷ text "{ outPath=./.; revCount=999999; shortRev=\"ofborg\"; }"
    ∷ file
    ∷ text "-A"
    ∷ attribute
    ∷ []

unfoldable pub evaluation_checks : Nix → List EvalChecker
evaluation_checks nix =
    EvalChecker.new (text "package-list") query_packages_json (text "--file" ∷ text "." ∷ []) nix
    ∷ EvalChecker.new (text "package-list-no-aliases") query_packages_json
        (text "--file"
          ∷ text "."
          ∷ text "--arg"
          ∷ text "config"
          ∷ text "{ allowAliases = false; }"
          ∷ [])
        nix
    ∷ EvalChecker.new (text "nixos") instantiate
        (release_args (text "./nixos/release-combined.nix") (text "tested")) nix
    ∷ EvalChecker.new (text "nixos-options") instantiate
        (release_args (text "./nixos/release.nix") (text "options")) nix
    ∷ EvalChecker.new (text "nixos-manual") instantiate
        (release_args (text "./nixos/release.nix") (text "manual")) nix
    ∷ EvalChecker.new (text "nixpkgs-manual") instantiate
        (release_args (text "./pkgs/top-level/release.nix") (text "manual")) nix
    ∷ EvalChecker.new (text "nixpkgs-tarball") instantiate
        (release_args (text "./pkgs/top-level/release.nix") (text "tarball")) nix
    ∷ EvalChecker.new (text "nixpkgs-unstable-jobset") instantiate
        (release_args (text "./pkgs/top-level/release.nix") (text "unstable")) nix
    ∷ EvalChecker.new (text "darwin") instantiate
        (release_args (text "./pkgs/top-level/release.nix") (text "darwin-tested")) nix
    ∷ []

abbrev pub merge_conflict_label : List Text
merge_conflict_label = text "2.status: merge conflict" ∷ []

module _ {F S : Type 0} (w : World) (o : Surroundings F S) where
  unfoldable pub pre_clone : NixpkgsStrategy S → Out (NixpkgsStrategy S × StepResult w o (Unit {0}))
  unfolding bind tag_from_title
  pre_clone x = bind (tag_from_title w o x) (λ _. give (x, ok tt))

  abbrev pub TargetResult : Type 0
  TargetResult = NixpkgsStrategy S × CommitStatus × StepResult w o (Unit {0})

  -- a step on the outpaths, with the status beside
  unfoldable pub with_status :
      Out (NixpkgsStrategy S × StepResult w o (Unit {0})) → CommitStatus → Out TargetResult
  unfolding bind
  with_status step status = bind step (λ p. give (p.0, status, p.1))

  unfoldable pub target_outpaths : Text → CommitStatus → NixpkgsStrategy S → Out TargetResult
  unfolding bind set_with_description check_outpaths_before with_status
  target_outpaths dir status x =
      bind (set_with_description w (text "Checking original out paths") pending status)
        (with_status (check_outpaths_before w o dir x))

  unfoldable pub on_target_branch : Text → CommitStatus → NixpkgsStrategy S → Out TargetResult
  unfolding bind set_with_description check_stdenvs_before target_outpaths
  on_target_branch dir status x =
      bind (set_with_description w (text "Checking original stdenvs") pending status)
        (λ s1. bind (check_stdenvs_before w o dir x) (target_outpaths dir s1))

  abbrev pub fetched_paths : NixpkgsStrategy S → NixpkgsStrategy S
  fetched_paths x = record x {
    changed_paths = some (unwrap_or (w.files_changed_from_head x.job.pr.head_sha) []);
  }

  -- the packages that the messages of the pull request name
  unfoldable pub named_packages : EvaluationJob → List Text
  unfolding parse_commit_messages
  named_packages job =
      parse_commit_messages o.is_space
        (unwrap_or (w.commit_messages_from_head job.pr.head_sha) (text "" ∷ []))

  unfoldable pub after_fetch :
      NixpkgsStrategy S → Out (NixpkgsStrategy S × StepResult w o (Unit {0}))
  unfolding bind tag_from_paths named_packages
  after_fetch x =
      let x1 = fetched_paths x in
      bind (tag_from_paths w o x1)
        (λ _. give (record x1 { touched_packages = some (named_packages x.job) }, ok tt))

  unfoldable pub merge_conflict : NixpkgsStrategy S → Out (NixpkgsStrategy S)
  unfolding bind relabel
  merge_conflict x = bind (relabel w merge_conflict_label []) (λ _. give x)

  unfoldable pub merge_outpaths : CommitStatus → NixpkgsStrategy S → Out TargetResult
  unfolding bind set_with_description check_outpaths_after with_status
  merge_outpaths status x =
      bind (set_with_description w (text "Checking new out paths") pending status)
        (with_status (check_outpaths_after w o x))

  unfoldable pub merge_stdenvs : NixpkgsStrategy S → CommitStatus → Out TargetResult
  unfolding bind check_stdenvs_after merge_outpaths
  merge_stdenvs x status = bind (check_stdenvs_after w o x) (merge_outpaths status)

  unfoldable pub after_merge : CommitStatus → NixpkgsStrategy S → Out TargetResult
  unfolding bind relabel set_with_description merge_stdenvs
  after_merge status x = bind (relabel w [] merge_conflict_label) (λ _.
      bind (set_with_description w (text "Checking new stdenvs") pending status) (merge_stdenvs x))

  -- the interface, filled
  unfoldable pub nixpkgs_strategy : Strategy (NixpkgsStrategy S)
  nixpkgs_strategy = record {
    pre_clone = pre_clone;
    on_target_branch = on_target_branch;
    after_fetch = after_fetch;
    merge_conflict = merge_conflict;
    after_merge = after_merge;
    evaluation_checks = λ x. evaluation_checks x.nix;
    all_evaluations_passed = all_evaluations_passed w o;
  }
