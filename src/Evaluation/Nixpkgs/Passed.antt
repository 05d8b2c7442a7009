-- ===== src/Evaluation/Nixpkgs/Passed.antt =====
-- The last step of the strategy for nixpkgs, when all checks have passed:
-- ofborg/src/tasks/eval/nixpkgs.rs.
use ofborg.Base.{
  true, not, ◌&&◌, Option, none, some, List, [], ◌∷◌, ◌++◌, map, keep, Text, text, contains, join,
  sort, dedup, is_empty, length, leb, ltb, if◌then◌else◌, Result, ok, err,
}
use ofborg.Message.{EvaluationJob, BuildJob, nixpkgs, new_build_job}
use ofborg.Message.Results.{succeeded}
use ofborg.CommentPoster.{CheckRunOptions, completed}
use ofborg.NixStats.{EvaluationStats, EvaluationStatsDiff, compare}
use ofborg.NixStats.Table.{markdown}
use ofborg.NixEnv
use ofborg.NixEnv.{HydraNixEnv, FileSystem, execute_with_stats, display}
use ofborg.OutPathDiff.{PackageOutPaths, package_diff, performance_diff, calculate_rebuild}
use ofborg.Maintainers
use ofborg.Maintainers.{ImpactedMaintainers, maintainers, maintainers_by_package}
use ofborg.Maintainers.Calculate.{CalculationError, calculate, debug}
use ofborg.Tagger.{PackageArch}
use ofborg.Tagger.Rebuild
use ofborg.Tagger.Rebuild.{RebuildTagger, parse_attrs}
use ofborg.Tagger.Packages
use ofborg.Tagger.Maintainer
use ofborg.Tagger.Maintainer.{MaintainerPrTagger, record_maintainer}
use ofborg.Evaluation.Commits.{split}
use ofborg.Evaluation.Effects.{
  pending, success, failure, CommitStatus, review_requested, Out, bind, give, Issue, World, set,
  set_with_description, make_gist, relabel,
}
use ofborg.Evaluation.Run.{fail, EvaluationComplete}
use ofborg.Evaluation.Nixpkgs.{
  NixpkgsStrategy, Surroundings, StepResult, lift, when, update_stdenv_labels, run_after,
}

module _ {F S : Type 0} (w : World) (o : Surroundings F S) where
  abbrev report_of : NixpkgsStrategy S → Text → List CheckRunOptions
  report_of x report =
      record {
        name = text "Evaluation Performance Report";
        head_sha = x.job.pr.head_sha;
        details_url = none;
        external_id = none;
        status = some completed;
        started_at = none;
        conclusion_of = some succeeded;
        completed_at = some o.now;
        output = some (record {
          title = text "Evaluator Performance Report";
          summary = text "";
          text_of = some report;
        });
      }
      ∷ []

  abbrev reported : NixpkgsStrategy S → Option (EvaluationStatsDiff S) → Out (List CheckRunOptions)
  reported x none = give []
  reported x (some d) = bind (lift (markdown o.arithmetic d)) (λ report. give (report_of x report))

  unfoldable pub performance_stats : NixpkgsStrategy S → Out (List CheckRunOptions)
  unfolding bind markdown compare
  performance_stats x = elim x.outpath_diff [
    | none ↦ give []
    | some p ↦ reported x (performance_diff compare p.1)
  ]

  abbrev label_difference : Option (List PackageArch × List PackageArch) → Out (Unit {0})
  label_difference none = give tt
  label_difference (some (removed, added)) =
      relabel w (Packages.changed removed added Packages.new).selected []

  unfoldable pub update_new_package_labels : NixpkgsStrategy S → Out (Unit {0})
  unfolding relabel
  update_new_package_labels x = when x.outpath_diff (λ p. label_difference (package_diff p.1))

  unfoldable pub gist_changed_paths : List PackageArch → Out Text
  unfolding make_gist
  gist_changed_paths attrs =
      make_gist w (text "Changed Paths") (some (text "")) (
        join (text "\n")
          (map (λ attr. attr.architecture ++ (text "\t" ++ attr.package_name)) attrs))

  unfoldable pub request_reviews : List Text → Out (Unit {0})
  request_reviews names =
      if ltb (length names) 10 then some (tt, map review_requested names) else give tt

  -- the gist's text
  abbrev maintainers_text : Result ImpactedMaintainers CalculationError → Text
  maintainers_text (ok m) = text "Maintainers:\n" ++ Maintainers.fmt m
  maintainers_text (err e) = text "Ignorable calculation error:\n" ++ debug e

  abbrev tell_maintainers : Issue → Result ImpactedMaintainers CalculationError → Out (Unit {0})
  tell_maintainers issue (err e) = give tt
  tell_maintainers issue (ok maint) = bind (request_reviews (maintainers maint)) (λ _.
      let tagger = record_maintainer issue.login (maintainers_by_package maint) Maintainer.new in
      relabel w tagger.selected ([]))

  unfoldable pub record_impacted_maintainers :
      Text → List PackageArch → NixpkgsStrategy S → Out (Unit {0})
  unfolding bind make_gist set request_reviews
  record_impacted_maintainers dir attrs x = when x.changed_paths (λ changed_paths.
      let changed_attributes = map (λ attr. split b'.' attr.package_name) attrs in
      bind (lift (calculate o.calculator x.nix dir changed_paths changed_attributes)) (λ m.
        bind (make_gist w (text "Potential Maintainers") (some (text "")) (maintainers_text m))
          (λ url.
            let status : CommitStatus = record {
              context = text "grahamcofborg-eval-check-maintainers";
              description = text "matching changed paths to changed attrs...";
              url = url;
            } in
            bind (set w success status) (λ _. tell_maintainers x.issue m))))

  -- what the tagger selects, for the rebuilt packages
  abbrev rebuild_tagger : Option (List PackageArch) → Out RebuildTagger
  rebuild_tagger none = give Rebuild.new
  rebuild_tagger (some attrs) = lift (parse_attrs attrs Rebuild.new)

  abbrev tell_changed :
      Text → CommitStatus → NixpkgsStrategy S → Option (List PackageArch) → Out CommitStatus
  tell_changed dir s x none = give s
  tell_changed dir s x (some attrs) =
      if is_empty attrs
      then give s
      else bind (gist_changed_paths attrs) (λ url.
        bind (record_impacted_maintainers dir attrs x) (λ _. give (record s { url = url })))

  -- The status afterwards.
  unfoldable pub update_rebuild_labels : Text → CommitStatus → NixpkgsStrategy S → Out CommitStatus
  unfolding bind relabel gist_changed_paths record_impacted_maintainers
  update_rebuild_labels dir s x = elim x.outpath_diff [
    | none ↦ give s
    | some p ↦
        let attrs = calculate_rebuild p.1 in
        bind (tell_changed dir s x attrs) (λ s1. bind (rebuild_tagger attrs) (λ tagger.
          bind (relabel w tagger.selected (Rebuild.tags_to_remove tagger)) (λ _. give s1)))
  ]

  -- the touched packages among the evaluated ones
  unfoldable pub try_build : List Text → PackageOutPaths → List Text
  try_build touched pkgs = dedup (sort (keep (contains touched) (map (λ e. e.0.package_name) pkgs)))

  unfoldable pub jobs_for : EvaluationJob → List Text → List BuildJob
  jobs_for job packages =
      if not (is_empty packages) && leb (length packages) 10
      then new_build_job o.lower job.repo job.pr nixpkgs packages none none o.new_v4 ∷ []
      else []

  abbrev pub meta_status : CommitStatus
  meta_status = record {
    context = text "grahamcofborg-eval-check-meta";
    description = text "config.nix: checkMeta = true";
    url = text "";
  }

  abbrev pub queued_builds :
      EvaluationJob
      → List Text
      → Result (PackageOutPaths × EvaluationStats S) NixEnv.Error
      → Out (StepResult w o (List BuildJob))
  queued_builds job touched (ok (pkgs, stats)) =
      bind (set w success meta_status) (λ _. give (ok (jobs_for job (try_build touched pkgs))))
  queued_builds job touched (err e) =
      bind (make_gist w (text "Meta Check") none (display e)) (λ url.
        bind (set w failure (record meta_status { url = url }))
          (λ _. give (err (fail (text "Failed to validate package metadata.")))))

  abbrev pub touched_builds :
      Text → NixpkgsStrategy S → Option (List Text) → Out (StepResult w o (List BuildJob))
  touched_builds dir x none = give (ok [])
  touched_builds dir x (some touched) =
      bind (set w pending meta_status)
        (λ _. bind (lift (run_after w o (NixEnv.new x.nix dir true))) (queued_builds x.job touched))

  unfoldable pub check_meta_queue_builds :
      Text → NixpkgsStrategy S → Out (StepResult w o (List BuildJob))
  unfolding bind set make_gist run_after try_build jobs_for
  check_meta_queue_builds dir x = touched_builds dir x x.touched_packages

  abbrev pub completed_with :
      NixpkgsStrategy S
      → CommitStatus
      → List CheckRunOptions
      → StepResult w o (List BuildJob)
      → NixpkgsStrategy S × CommitStatus × StepResult w o EvaluationComplete
  completed_with x s checks (err e) = (x, s, err e)
  completed_with x s checks (ok builds) = (x, s, ok (record { builds = builds; checks = checks }))

  -- from the builds on
  unfoldable pub queueing :
      Text
      → NixpkgsStrategy S
      → CommitStatus
      → List CheckRunOptions
      → Out (NixpkgsStrategy S × CommitStatus × StepResult w o EvaluationComplete)
  unfolding bind check_meta_queue_builds
  queueing dir x s checks =
      bind (check_meta_queue_builds dir x) (λ r. give (completed_with x s checks r))

  -- from the report on
  unfoldable pub reporting :
      Text
      → NixpkgsStrategy S
      → CommitStatus
      → Out (NixpkgsStrategy S × CommitStatus × StepResult w o EvaluationComplete)
  unfolding bind performance_stats queueing
  reporting dir x s = bind (performance_stats x) (queueing dir x s)

  -- from the labels for packages on
  unfoldable pub calculating :
      Text
      → NixpkgsStrategy S
      → CommitStatus
      → Out (NixpkgsStrategy S × CommitStatus × StepResult w o EvaluationComplete)
  unfolding bind update_new_package_labels update_rebuild_labels reporting
  calculating dir x s =
      bind (update_new_package_labels x)
        (λ _. bind (update_rebuild_labels dir s x) (reporting dir x))

  unfoldable pub all_evaluations_passed :
      Text
      → CommitStatus
      → NixpkgsStrategy S
      → Out (NixpkgsStrategy S × CommitStatus × StepResult w o EvaluationComplete)
  unfolding bind set_with_description update_stdenv_labels calculating
  all_evaluations_passed dir s x = bind (update_stdenv_labels w o x) (λ _.
      bind (set_with_description w (text "Calculating Changed Outputs") pending s)
        (calculating dir x))
