-- ===== src/Evaluation/Nixpkgs/Kept.antt =====
-- What the strategy for nixpkgs keeps through its steps: ofborg/src/tasks/eval/nixpkgs.rs.
use ofborg.Base.{false, Option, none, some, [], Text, text, Result, ok, err, ◌≡◌, ap, ◌⊎◌, inr}
use ofborg.Message.{EvaluationJob}
use ofborg.Nix.{Nix}
use ofborg.NixStats.{EvaluationStats}
use ofborg.NixEnv
use ofborg.NixEnv.{HydraNixEnv}
use ofborg.OutPathDiff
use ofborg.OutPathDiff.{OutPathDiff, PackageOutPaths, find_before, find_after}
use ofborg.Stdenvs
use ofborg.Stdenvs.{Stdenvs, identify_before, identify_after, stdenv_of}
use ofborg.Evaluation.Effects.{
  CommitStatus, pending, Out, bind, give, World, relabel, set_with_description,
}
use ofborg.Evaluation.Gives.{Gives, Gives-give, Gives-bind, Keeps}
use ofborg.Evaluation.Nixpkgs.{
  NixpkgsStrategy, Surroundings, StepResult, lift, run_before, run_after, tag_from_title,
  tag_from_paths, check_stdenvs_before, check_stdenvs_after, check_outpaths_before,
  check_outpaths_after, identified_after, sniff_after, found_after, found_before,
}
use ofborg.Evaluation.Nixpkgs.Steps.{
  merge_conflict_label, pre_clone, on_target_branch, after_fetch, after_merge, nixpkgs_strategy,
  with_status, target_outpaths, merge_outpaths, merge_stdenvs, fetched_paths, named_packages,
}

module _ {F S : Type 0} (w : World) (o : Surroundings F S) (job : EvaluationJob) (nix : Nix) where
  -- A state for this job, that knows of no touched packages but those.
  pub record IsFor (x : NixpkgsStrategy S) : Type 0 where
    pub same_job : x.job ≡ job
    pub same_nix : x.nix ≡ nix
    pub touched : (x.touched_packages ≡ none) ⊎ (x.touched_packages ≡ some (named_packages w o job))

  -- The state in a step's result.
  record StaysFor (p : NixpkgsStrategy S × StepResult w o (Unit {0})) : Type 0 where
    pub stays : IsFor p.0

  record StatusStaysFor (p : NixpkgsStrategy S × CommitStatus × StepResult w o (Unit {0}))
      : Type 0 where
    pub stays : IsFor p.0

  stdenvs_before-IsFor :
      (dir : Text) (x : NixpkgsStrategy S)
      → IsFor x
      → Gives Unit IsFor (check_stdenvs_before w o dir x)
  unfolding check_stdenvs_before
  stdenvs_before-IsFor dir x h =
      Gives-bind (lift (identify_before (stdenv_of w.original w.path x.nix dir) Stdenvs.new))
        (λ d. give (record x { stdenv_diff = some (dir, d) })) (λ _. tt)
        (λ d _ _.
          Gives-give (record x { stdenv_diff = some (dir, d) })
            (record { same_job = h.same_job; same_nix = h.same_nix; touched = h.touched }))

  identified-IsFor :
      (d : Option (Text × Stdenvs)) (x : NixpkgsStrategy S)
      → IsFor x
      → Gives Unit IsFor (identified_after w o d x)
  identified-IsFor none x h = Gives-give x h
  identified-IsFor (some (dir, s)) x h =
      Gives-bind (lift (identify_after (stdenv_of w.merged w.path x.nix dir) s))
        (λ d. give (record x { stdenv_diff = some (dir, d) })) (λ _. tt)
        (λ d _ _.
          Gives-give (record x { stdenv_diff = some (dir, d) })
            (record { same_job = h.same_job; same_nix = h.same_nix; touched = h.touched }))

  found-StaysFor :
      (calculator : HydraNixEnv) (x : NixpkgsStrategy S)
      (r : Result (OutPathDiff (EvaluationStats S)) NixEnv.Error)
      → IsFor x
      → StaysFor (found_after w o calculator x r)
  found-StaysFor calculator x (ok d) h = record {
    stays = record { same_job = h.same_job; same_nix = h.same_nix; touched = h.touched };
  }
  found-StaysFor calculator x (err e) h = record { stays = h }

  sniffed-StaysFor :
      (d : Option (HydraNixEnv × OutPathDiff (EvaluationStats S))) (x : NixpkgsStrategy S)
      → IsFor x
      → Gives Unit StaysFor (sniff_after w o d x)
  sniffed-StaysFor none x h = Gives-give _ (record { stays = h })
  sniffed-StaysFor (some (calculator, d)) x h = with_original d.original
    where
      with_original :
          (r : Option (PackageOutPaths × EvaluationStats S))
          → Gives Unit StaysFor (elim r [
            | none ↦ give (found_after w o calculator x (ok d))
            | some _ ↦
                bind
                  (lift (run_after w o calculator))
                  (λ calculated. give (found_after w o calculator x (find_after calculated d)))
          ])
      with_original none = Gives-give _ (found-StaysFor calculator x (ok d) h)
      with_original (some _) =
          Gives-bind (lift (run_after w o calculator))
            (λ calculated. give (found_after w o calculator x (find_after calculated d))) (λ _. tt)
            (λ calculated _ _.
              Gives-give _ (found-StaysFor calculator x (find_after calculated d) h))

  before-StaysFor :
      (dir : Text) (x : NixpkgsStrategy S)
      → IsFor x
      → Gives Unit StaysFor (check_outpaths_before w o dir x)
  unfolding check_outpaths_before
  before-StaysFor dir x h =
      let calculator = NixEnv.new x.nix dir false in
      Gives-bind (lift (run_before w o calculator))
        (λ r. give (found_before w o calculator x (find_before r OutPathDiff.new))) (λ _. tt)
        (λ r _ _. Gives-give _ (found calculator (find_before r OutPathDiff.new)))
    where
      found :
          (calculator : HydraNixEnv) (r : Result (OutPathDiff (EvaluationStats S)) NixEnv.Error)
          → StaysFor (found_before w o calculator x r)
      found calculator (ok d) = record {
        stays = record { same_job = h.same_job; same_nix = h.same_nix; touched = h.touched };
      }
      found calculator (err e) = record { stays = h }

  with_status-StatusStaysFor :
      (c : Out (NixpkgsStrategy S × StepResult w o (Unit {0}))) (s : CommitStatus)
      → Gives Unit StaysFor c
      → Gives Unit StatusStaysFor (with_status w o c s)
  unfolding with_status
  with_status-StatusStaysFor c s h =
      Gives-bind c (λ p. give (p.0, s, p.1)) (λ _. tt)
        (λ p es e. Gives-give (p.0, s, p.1) (record { stays = (h.given p es e).stays }))

  target_outpaths-StaysFor :
      (dir : Text) (s : CommitStatus) (x : NixpkgsStrategy S)
      → IsFor x
      → Gives Unit StatusStaysFor (target_outpaths w o dir s x)
  unfolding target_outpaths
  target_outpaths-StaysFor dir s x h =
      let outpaths = check_outpaths_before w o dir x in
      Gives-bind (set_with_description w (text "Checking original out paths") pending s)
        (with_status w o outpaths) (λ _. tt)
        (λ s1 _ _. with_status-StatusStaysFor outpaths s1 (before-StaysFor dir x h))

  target-StatusStaysFor :
      (dir : Text) (s : CommitStatus) (x : NixpkgsStrategy S)
      → IsFor x
      → Gives Unit StatusStaysFor (on_target_branch w o dir s x)
  unfolding on_target_branch
  target-StatusStaysFor dir s x h =
      let stdenvs = check_stdenvs_before w o dir x in
      Gives-bind (set_with_description w (text "Checking original stdenvs") pending s)
        (λ s1. bind stdenvs (target_outpaths w o dir s1)) (λ _. tt)
        (λ s1 _ _.
          Gives-bind stdenvs (target_outpaths w o dir s1) (λ _. tt)
            (λ x1 es e.
              target_outpaths-StaysFor dir s1 x1 ((stdenvs_before-IsFor dir x h).given x1 es e)))

  merge_outpaths-StaysFor :
      (s : CommitStatus) (x : NixpkgsStrategy S)
      → IsFor x
      → Gives Unit StatusStaysFor (merge_outpaths w o s x)
  unfolding merge_outpaths check_outpaths_after
  merge_outpaths-StaysFor s x h =
      let outpaths = sniff_after w o x.outpath_diff x in
      Gives-bind (set_with_description w (text "Checking new out paths") pending s)
        (with_status w o outpaths) (λ _. tt)
        (λ s1 _ _. with_status-StatusStaysFor outpaths s1 (sniffed-StaysFor x.outpath_diff x h))

  merge_stdenvs-StaysFor :
      (s : CommitStatus) (x : NixpkgsStrategy S)
      → IsFor x
      → Gives Unit StatusStaysFor (merge_stdenvs w o x s)
  unfolding merge_stdenvs check_stdenvs_after
  merge_stdenvs-StaysFor s x h =
      Gives-bind (identified_after w o x.stdenv_diff x) (merge_outpaths w o s) (λ _. tt)
        (λ x1 es e.
          merge_outpaths-StaysFor s x1 ((identified-IsFor x.stdenv_diff x h).given x1 es e))

  merge-StatusStaysFor :
      (s : CommitStatus) (x : NixpkgsStrategy S)
      → IsFor x
      → Gives Unit StatusStaysFor (after_merge w o s x)
  unfolding after_merge
  merge-StatusStaysFor s x h =
      let status = set_with_description w (text "Checking new stdenvs") pending s in
      Gives-bind (relabel w [] merge_conflict_label) (λ _. bind status (merge_stdenvs w o x))
        (λ _. tt)
        (λ _ _ _.
          Gives-bind status (merge_stdenvs w o x) (λ _. tt)
            (λ s1 _ _. merge_stdenvs-StaysFor s1 x h))

  clone-StaysFor : (x : NixpkgsStrategy S) → IsFor x → Gives Unit StaysFor (pre_clone w o x)
  unfolding pre_clone
  clone-StaysFor x h =
      Gives-bind (tag_from_title w o x) (λ _. give (x, ok tt)) (λ _. tt)
        (λ _ _ _. Gives-give (x, ok tt) (record { stays = h }))

  fetch-StaysFor : (x : NixpkgsStrategy S) → IsFor x → Gives Unit StaysFor (after_fetch w o x)
  unfolding after_fetch named_packages
  fetch-StaysFor x h =
      let x1 = fetched_paths w o x in
      let named = some (named_packages w o x.job) in
      Gives-bind (tag_from_paths w o x1) (λ _. give (record x1 { touched_packages = named }, ok tt))
        (λ _. tt)
        (λ _ _ _.
          Gives-give (record x1 { touched_packages = named }, ok tt)
            (record {
              stays = record {
                same_job = h.same_job;
                same_nix = h.same_nix;
                touched = inr (ap (λ j. some (named_packages w o j)) h.same_job);
              };
            }))

  -- Every step of the strategy leaves it at work on the same job.
  pub nixpkgs_strategy-Keeps : Keeps (nixpkgs_strategy w o) IsFor
  unfolding nixpkgs_strategy
  nixpkgs_strategy-Keeps = record {
    kept_pre_clone = λ x p es e h. ((clone-StaysFor x h).given p es e).stays;
    kept_target = λ dir s x p es e h. ((target-StatusStaysFor dir s x h).given p es e).stays;
    kept_after_fetch = λ x p es e h. ((fetch-StaysFor x h).given p es e).stays;
    kept_after_merge = λ s x p es e h. ((merge-StatusStaysFor s x h).given p es e).stays;
  }
