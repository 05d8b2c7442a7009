-- ===== src/Evaluation/Nixpkgs/Builds.antt =====
-- The builds that the strategy for nixpkgs asks for: ofborg/src/tasks/eval/nixpkgs.rs.
use ofborg.Base.{
  true, not, ◌&&◌, Option, none, some, List, [], ◌∷◌, map, keep, Text, text, contains, distinct,
  distinct-dedup, sorted-sort, contains-dedup, contains-sort, contains-keep, sort, length, leb,
  is_empty, Result, ok, err, ◌≡◌, ◌≢◌, ◌≤◌, refl, arith, ◌⊎◌, inl, inr, Bool-cases, ◌∙◌,
}
use ofborg.Message.{EvaluationJob, BuildJob, nixpkgs, new_build_job}
use ofborg.NixStats.{EvaluationStats}
use ofborg.NixEnv
use ofborg.CommentPoster.{CheckRunOptions}
use ofborg.OutPathDiff.{PackageOutPaths}
use ofborg.Evaluation.Effects.{
  CommitStatus, Effect, Out, bind, give, World, success, pending, set, set_with_description,
}
use ofborg.Evaluation.Gives.{Gives, Gives-give, Gives-bind}
use ofborg.Evaluation.Run.{EvaluationComplete, fail}
use ofborg.Evaluation.Nixpkgs.{
  NixpkgsStrategy, Surroundings, StepResult, lift, run_after, update_stdenv_labels,
}
use ofborg.Evaluation.Nixpkgs.Passed.{
  try_build, jobs_for, queued_builds, touched_builds, completed_with, performance_stats, reporting,
  meta_status, update_new_package_labels, update_rebuild_labels, queueing, calculating,
  check_meta_queue_builds, all_evaluations_passed,
}

abbrev names : PackageOutPaths → List Text
names pkgs = map (λ e. e.0.package_name) pkgs

-- A build job for the pull request, of at most ten different packages, which its messages name and
-- which the checkout has.
pub record IsTrial (job : EvaluationJob) (touched : List Text) (pkgs : PackageOutPaths)
    (b : BuildJob) : Type 0 where
  pub for_job : (b.repo ≡ job.repo) × (b.pr ≡ job.pr)
  pub of_nixpkgs : b.subset ≡ some nixpkgs
  pub is_nonempty : b.attrs ≢ []
  pub is_small : length b.attrs ≤ 10
  pub has_distinct : distinct b.attrs ≡ true
  pub are_known : (a : Text) → contains b.attrs a ≡ (contains (names pkgs) a && contains touched a)

module _ {F S : Type 0} (w : World) (o : Surroundings F S) where
  contains-try_build :
      (touched : List Text) (pkgs : PackageOutPaths) (a : Text)
      → contains (try_build w o touched pkgs) a ≡ (contains (names pkgs) a && contains touched a)
  unfolding try_build
  contains-try_build touched pkgs a =
      contains-dedup (sort (keep (contains touched) (names pkgs))) a
      ∙ contains-sort a (keep (contains touched) (names pkgs))
      ∙ contains-keep (contains touched) (names pkgs) a

  jobs_for-IsTrial :
      (job : EvaluationJob) (touched : List Text) (pkgs : PackageOutPaths)
      → (jobs_for w o job (try_build w o touched pkgs) ≡ [])
        ⊎ ((b : BuildJob) × (jobs_for w o job (try_build w o touched pkgs) ≡ b ∷ [])
            × IsTrial job touched pkgs b)
  unfolding jobs_for new_build_job
  jobs_for-IsTrial job touched pkgs =
      elim (Bool-cases (
        not (is_empty (try_build w o touched pkgs))
        && leb (length (try_build w o touched pkgs)) 10)) [
          | inl e ↦ rw e (
              inr (
                _,
                refl,
                record {
                  for_job = (refl, refl);
                  of_nixpkgs = refl;
                  is_nonempty = ground arith;
                  is_small = ground arith;
                  has_distinct = different;
                  are_known = contains-try_build touched pkgs;
                },
              ))
          | inr e ↦ rw e (inl refl)
        ]
    where
      different : distinct (try_build w o touched pkgs) ≡ true
      different =
          unfold try_build in
          distinct-dedup (sort (keep (contains touched) (names pkgs)))
            (sorted-sort (keep (contains touched) (names pkgs)))

  -- What the strategy may ask for in this state, on the checkout.
  unfoldable pub Asks : Text → NixpkgsStrategy S → List BuildJob → Type 0
  Asks dir x builds =
      (builds ≡ [])
      ⊎ ((touched : List Text) × (pkgs : PackageOutPaths) × (stats : EvaluationStats S)
          × (b : BuildJob) × (x.touched_packages ≡ some touched)
          × (run_after w o (NixEnv.new x.nix dir true) ≡ some (ok (pkgs, stats)))
          × (builds ≡ b ∷ [])
          × IsTrial x.job touched pkgs b)

  abbrev AsksIfOk : Text → NixpkgsStrategy S → StepResult w o (List BuildJob) → Type 0
  AsksIfOk dir x (ok builds) = Asks dir x builds
  AsksIfOk dir x (err e) = Unit

  queued-Asks :
      (dir : Text) (x : NixpkgsStrategy S) (touched : List Text)
      (r : Result (PackageOutPaths × EvaluationStats S) NixEnv.Error)
      → x.touched_packages ≡ some touched
      → run_after w o (NixEnv.new x.nix dir true) ≡ some r
      → Gives Unit (AsksIfOk dir x) (queued_builds w o x.job touched r)
  unfolding Asks
  queued-Asks dir x touched (ok (pkgs, stats)) e f =
      Gives-bind (set w success (meta_status w o))
        (λ _. give (ok (jobs_for w o x.job (try_build w o touched pkgs)))) (λ _. tt)
        (λ _ _ _.
          Gives-give (ok (jobs_for w o x.job (try_build w o touched pkgs)))
            (elim (jobs_for-IsTrial x.job touched pkgs) [
              | inl g ↦ inl g
              | inr (b, g, h) ↦ inr (touched, pkgs, stats, b, e, f, g, h)
            ]))
  queued-Asks dir x touched (err e) _ _ =
      Gives-bind _ _ (λ _. tt)
        (λ url _ _.
          Gives-bind _ _ (λ _. tt)
            (λ _ _ _. Gives-give (err (fail (text "Failed to validate package metadata."))) tt))

  lift-some :
      {A : Type 0} (r : Option A) (a : A) (es : List Effect)
      → Path (Out A) (lift r) (some (a, es))
      → r ≡ some a
  lift-some none a es e = absurd (ground arith)
  lift-some (some b) a es e = ground arith

  touched-Asks :
      (dir : Text) (x : NixpkgsStrategy S) (t : Option (List Text))
      → x.touched_packages ≡ t
      → Gives Unit (AsksIfOk dir x) (touched_builds w o dir x t)
  unfolding Asks
  touched-Asks dir x none e = Gives-give (ok []) (inl refl)
  touched-Asks dir x (some touched) e =
      Gives-bind _ _ (λ _. tt)
        (λ _ _ _.
          Gives-bind (lift (run_after w o (NixEnv.new x.nix dir true)))
            (queued_builds w o x.job touched) (λ _. tt)
            (λ r es f. queued-Asks dir x touched r e (lift-some _ r es f)))

  abbrev Passed :
      Text
      → NixpkgsStrategy S
      → NixpkgsStrategy S × CommitStatus × StepResult w o EvaluationComplete
      → Type 0
  Passed dir x (x', s, ok complete) = Asks dir x complete.builds
  Passed dir x (x', s, err e) = Unit

  record IsPassed (dir : Text) (x : NixpkgsStrategy S)
      (r : NixpkgsStrategy S × CommitStatus × StepResult w o EvaluationComplete) : Type 0 where
    pub asks : Passed dir x r

  completed-IsPassed :
      (dir : Text) (x : NixpkgsStrategy S) (s : CommitStatus) (checks : List CheckRunOptions)
      (r : StepResult w o (List BuildJob))
      → AsksIfOk dir x r
      → IsPassed dir x (completed_with w o x s checks r)
  completed-IsPassed dir x s checks (ok builds) h = record { asks = h }
  completed-IsPassed dir x s checks (err e) h = record { asks = tt }

  queueing-IsPassed :
      (dir : Text) (x : NixpkgsStrategy S) (s : CommitStatus) (checks : List CheckRunOptions)
      → Gives Unit (IsPassed dir x) (queueing w o dir x s checks)
  unfolding queueing check_meta_queue_builds
  queueing-IsPassed dir x s checks =
      Gives-bind (touched_builds w o dir x x.touched_packages)
        (λ r. give (completed_with w o x s checks r)) (λ _. tt)
        (λ r es f. Gives-give (completed_with w o x s checks r) (
          completed-IsPassed dir x s checks r
            ((touched-Asks dir x x.touched_packages refl).given r es f)))

  reporting-IsPassed :
      (dir : Text) (x : NixpkgsStrategy S) (s : CommitStatus)
      → Gives Unit (IsPassed dir x) (reporting w o dir x s)
  unfolding reporting
  reporting-IsPassed dir x s =
      Gives-bind (performance_stats w o x) (queueing w o dir x s) (λ _. tt)
        (λ checks _ _. queueing-IsPassed dir x s checks)

  calculating-IsPassed :
      (dir : Text) (x : NixpkgsStrategy S) (s : CommitStatus)
      → Gives Unit (IsPassed dir x) (calculating w o dir x s)
  unfolding calculating
  calculating-IsPassed dir x s =
      Gives-bind (update_new_package_labels w o x)
        (λ _. bind (update_rebuild_labels w o dir s x) (reporting w o dir x)) (λ _. tt)
        (λ _ _ _.
          Gives-bind (update_rebuild_labels w o dir s x) (reporting w o dir x) (λ _. tt)
            (λ s1 _ _. reporting-IsPassed dir x s1))

  last-IsPassed :
      (dir : Text) (s : CommitStatus) (x : NixpkgsStrategy S)
      → Gives Unit (IsPassed dir x) (all_evaluations_passed w o dir s x)
  unfolding all_evaluations_passed
  last-IsPassed dir s x =
      let status = set_with_description w (text "Calculating Changed Outputs") pending s in
      Gives-bind (update_stdenv_labels w o x) (λ _. bind status (calculating w o dir x)) (λ _. tt)
        (λ _ _ _.
          Gives-bind status (calculating w o dir x) (λ _. tt)
            (λ s1 _ _. calculating-IsPassed dir x s1))

  -- When the last step succeeds, it asks for no build, or for a single one: of at least one and at most
  -- ten different packages, which are exactly those that the checkout has after the merge, checked with
  -- their meta data, and that the commit messages name.
  pub all_evaluations_passed-Asks :
      (dir : Text) (s s' : CommitStatus) (x x' : NixpkgsStrategy S) (complete : EvaluationComplete)
      (es : List Effect)
      → all_evaluations_passed w o dir s x ≡ some ((x', s', ok complete), es)
      → Asks dir x complete.builds
  all_evaluations_passed-Asks dir s s' x x' complete es e =
      ((last-IsPassed dir s x).given (x', s', ok complete) es e).asks
