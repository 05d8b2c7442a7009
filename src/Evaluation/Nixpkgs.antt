-- ===== src/Evaluation/Nixpkgs.antt =====
-- The strategy for nixpkgs: ofborg/src/tasks/eval/nixpkgs.rs, its state and its single steps.
pub mod Passed
pub mod Steps
pub mod Builds
pub mod Kept
use ofborg.Base.{
  ℕ, Bool, true, false, not, ◌||◌, ◌&&◌, Option, none, some, List, [], ◌∷◌, ◌++◌, map, keep, Text,
  text, text_eq, contains, join, sort, is_empty, length, leb, ltb, has_substring, if◌then◌else◌,
  Result, ok, err,
}
use ofborg.Message.{EvaluationJob, BuildJob, nixpkgs, new_build_job}
use ofborg.Message.Results.{succeeded}
use ofborg.CommentPoster.{CheckRunOptions, completed}
use ofborg.Nix.{Nix, Command}
use ofborg.NixStats.{EvaluationStats, Arithmetic}
use ofborg.NixEnv
use ofborg.NixEnv.{HydraNixEnv, FileSystem, execute_with_stats, display}
use ofborg.OutPathDiff
use ofborg.OutPathDiff.{
  OutPathDiff, PackageOutPaths, find_before, find_after, package_diff, calculate_rebuild,
}
use ofborg.Stdenvs
use ofborg.Stdenvs.{Stdenvs, identify_before, identify_after, stdenv_of, are_same}
use ofborg.Maintainers
use ofborg.Maintainers.{ImpactedMaintainers, maintainers, maintainers_by_package}
use ofborg.Maintainers.Calculate.{Calculator, CalculationError, calculate, debug}
use ofborg.Tagger.{PackageArch}
use ofborg.Tagger.Paths
use ofborg.Tagger.PathLaws.{after_paths}
use ofborg.Tagger.Stdenv
use ofborg.Tagger.Rebuild
use ofborg.Tagger.Rebuild.{RebuildTagger, parse_attrs}
use ofborg.Tagger.Packages
use ofborg.Tagger.Maintainer
use ofborg.Tagger.Maintainer.{MaintainerPrTagger, record_maintainer}
use ofborg.Evaluation.Commits.{split, parse_commit_messages}
use ofborg.Evaluation.Effects.{
  State, pending, success, failure, CommitStatus, Effect, review_requested, Out, after, bind, give,
  Issue, World, set, set_with_description, make_gist, relabel,
}
use ofborg.Evaluation.Run.{StepError, fail, fail_with_gist, EvaluationComplete}

pub record NixpkgsStrategy (S : Type 0) : Type 0 where
  pub job : EvaluationJob
  pub issue : Issue
  pub nix : Nix
  pub tag_paths : List (Text × List Text)
  -- with the checkout for which it was made
  pub stdenv_diff : Option (Text × Stdenvs)
  -- with its calculator
  pub outpath_diff : Option (HydraNixEnv × OutPathDiff (EvaluationStats S))
  pub changed_paths : Option (List Text)
  pub touched_packages : Option (List Text)

unfoldable pub new :
    {S : Type 0} → EvaluationJob → Nix → List (Text × List Text) → Issue → NixpkgsStrategy S
new job nix tag_paths issue = record {
  job = job;
  issue = issue;
  nix = nix;
  tag_paths = tag_paths;
  stdenv_diff = none;
  outpath_diff = none;
  changed_paths = none;
  touched_packages = none;
}

-- What the strategy uses beside GitHub, git and nix: Unicode's tables, the files of the checkout before
-- and after the merge, the texts and readers of the evaluation of its packages, the calculation of the
-- maintainers, floating-point arithmetic, the clock and a new identifier.
pub record Surroundings (F S : Type 0) : Type 0 where
  pub lower : Text → Text
  pub is_space : ℕ → Bool
  pub fs : FileSystem F
  pub files_original : F
  pub files_merged : F
  pub outpaths_nix : Text
  pub from_reader : Text → Result (EvaluationStats S) Text
  pub seek_error : Option Text
  pub read_error : Option Text
  pub calculator : Calculator
  pub arithmetic : Arithmetic S
  pub now : Text
  pub new_v4 : Text

module _ {A : Type 0} where
  -- a panic, or a value without effects
  abbrev pub lift : Option A → Out A
  lift none = none
  lift (some a) = give a

  abbrev pub when : Option A → (A → Out (Unit {0})) → Out (Unit {0})
  when none f = give tt
  when (some a) f = f a

abbrev pub result_of : {F A : Type 0} → Option (F × A) → Option A
result_of none = none
result_of (some (f, a)) = some a

module _ {F S : Type 0} (w : World) (o : Surroundings F S) where
  unfoldable pub tag_from_title : NixpkgsStrategy S → Out (Unit {0})
  unfolding relabel
  tag_from_title x =
      let darwin : Bool = elim (w.issue x.job.pr.number) [
        | none ↦ false
        | some iss ↦
            has_substring (text "darwin") (o.lower iss.title)
            || has_substring (text "macos") (o.lower iss.title)
      ] in
      if darwin then relabel w (text "6.topic: darwin" ∷ []) [] else give tt

  unfoldable pub tag_from_paths : NixpkgsStrategy S → Out (Unit {0})
  unfolding relabel bind
  tag_from_paths x = when x.changed_paths (λ changed_paths.
      let tagger = after_paths changed_paths (Paths.new x.tag_paths) in
      bind (lift (Paths.tags_to_remove tagger)) (λ removed. relabel w tagger.selected removed))

  unfoldable pub check_stdenvs_before : Text → NixpkgsStrategy S → Out (NixpkgsStrategy S)
  unfolding bind
  check_stdenvs_before dir x =
      bind (lift (identify_before (stdenv_of w.original w.path x.nix dir) Stdenvs.new))
        (λ stdenvs. give (record x { stdenv_diff = some (dir, stdenvs) }))

  abbrev pub identified_after :
      Option (Text × Stdenvs) → NixpkgsStrategy S → Out (NixpkgsStrategy S)
  identified_after none x = give x
  identified_after (some (dir, stdenvs)) x =
      bind (lift (identify_after (stdenv_of w.merged w.path x.nix dir) stdenvs))
        (λ identified. give (record x { stdenv_diff = some (dir, identified) }))

  unfoldable pub check_stdenvs_after : NixpkgsStrategy S → Out (NixpkgsStrategy S)
  unfolding bind
  check_stdenvs_after x = identified_after x.stdenv_diff x

  unfoldable pub update_stdenv_labels : NixpkgsStrategy S → Out (Unit {0})
  unfolding relabel bind
  update_stdenv_labels x = when x.stdenv_diff (λ d.
      let tagged =
        if are_same d.1 then some Stdenv.new else Stdenv.changed (Stdenvs.changed d.1) Stdenv.new in
      bind (lift tagged) (λ tagger.
        bind (lift (Stdenv.tags_to_remove tagger)) (λ removed. relabel w tagger.selected removed)))

  -- the run of a calculator on the checkout before the merge, and after it
  unfoldable pub run_before :
      HydraNixEnv → Option (Result (PackageOutPaths × EvaluationStats S) NixEnv.Error)
  run_before env = result_of (
      execute_with_stats o.fs (λ c f. w.original c) w.path o.outpaths_nix o.from_reader o.seek_error
        o.read_error o.is_space env o.files_original)

  unfoldable pub run_after :
      HydraNixEnv → Option (Result (PackageOutPaths × EvaluationStats S) NixEnv.Error)
  run_after env = result_of (
      execute_with_stats o.fs (λ c f. w.merged c) w.path o.outpaths_nix o.from_reader o.seek_error
        o.read_error o.is_space env o.files_merged)

  abbrev pub StepResult : Type 0 → Type 0
  StepResult A = Result A StepError

  abbrev pub found_before :
      HydraNixEnv
      → NixpkgsStrategy S
      → Result (OutPathDiff (EvaluationStats S)) NixEnv.Error
      → NixpkgsStrategy S × StepResult (Unit {0})
  found_before calculator x (ok d) = (record x { outpath_diff = some (calculator, d) }, ok tt)
  found_before calculator x (err e) = (
    x,
    err (
        fail_with_gist
          (text
            "The branch this PR will merge in to does not cleanly evaluate, and so this PR cannot be checked.")
          (text "Output path comparison") (display e)),
  )

  unfoldable pub check_outpaths_before :
      Text → NixpkgsStrategy S → Out (NixpkgsStrategy S × StepResult (Unit {0}))
  unfolding bind run_before
  check_outpaths_before dir x =
      let calculator = NixEnv.new x.nix dir false in
      bind (lift (run_before calculator))
        (λ calculated. give (found_before calculator x (find_before calculated OutPathDiff.new)))

  abbrev pub found_after :
      HydraNixEnv
      → NixpkgsStrategy S
      → Result (OutPathDiff (EvaluationStats S)) NixEnv.Error
      → NixpkgsStrategy S × StepResult (Unit {0})
  found_after calculator x (ok d) = (record x { outpath_diff = some (calculator, d) }, ok tt)
  found_after calculator x (err e) = (
    x,
    err (
        fail_with_gist (text "This PR does not cleanly list of package outputs after merging.")
          (text "Output path comparison") (display e)),
  )

  abbrev pub sniff_after :
      Option (HydraNixEnv × OutPathDiff (EvaluationStats S))
      → NixpkgsStrategy S
      → Out (NixpkgsStrategy S × StepResult (Unit {0}))
  sniff_after none x = give (x, err (fail (text "Ofborg BUG: No outpath diff! Please report!")))
  sniff_after (some (calculator, d)) x = elim d.original [
    | none ↦ give (found_after calculator x (ok d))
    | some _ ↦
        bind (lift (run_after calculator))
          (λ calculated. give (found_after calculator x (find_after calculated d)))
  ]

  unfoldable pub check_outpaths_after :
      NixpkgsStrategy S → Out (NixpkgsStrategy S × StepResult (Unit {0}))
  unfolding bind run_after
  check_outpaths_after x = sniff_after x.outpath_diff x
