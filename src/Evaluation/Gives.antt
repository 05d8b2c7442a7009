-- ===== src/Evaluation/Gives.antt =====
-- Panics and results of the evaluation's single calls: ofborg/src/tasks/evaluate.rs.
use ofborg.Base.{
  ℕ, Bool, true, false, Option, none, some, List, [], ◌∷◌, ◌++◌, Text, text, if◌then◌else◌, Result,
  ok, err, ◌≡◌, refl, subst, arith, inl, inr, All, Bool-cases, Option-cases,
}
use ofborg.EvalChecker.{EvalChecker, full_name, execute}
use ofborg.Evaluation.Effects.{
  State, pending, success, failure, CommitStatus, Effect, Out, after, bind, give, World, set,
  set_with_description, make_gist,
}
use ofborg.Evaluation.Run.{
  StepError, fail, fail_with_gist, Strategy, handle_strategy_err, judged, run_check, run_checks,
}

-- A call of the evaluator that fails and is unwrapped, or a step of the strategy that panics.
pub data IsBroken (w : World) {S : Type 0} (st : Strategy S) : Type 0 where
  no_app : (owner name : Text) → w.app_for owner name ≡ false → IsBroken w st
  no_status : (s : CommitStatus) (state : State) → w.accepts s state ≡ false → IsBroken w st
  no_gist :
      (name : Text) (d : Option Text) (content : Text)
      → w.gist name d content ≡ none
      → IsBroken w st
  no_clone : (name url : Text) → w.clone_for name url ≡ false → IsBroken w st
  no_checkout : (branch : Text) → w.checkout_origin_ref branch ≡ none → IsBroken w st
  no_fetch : (number : ℕ) → w.fetch_pr number ≡ false → IsBroken w st
  no_commit : (commit : Text) → w.commit_exists commit ≡ none → IsBroken w st
  no_run :
      (refpath : Text) (c : EvalChecker) → execute w.merged w.path refpath c ≡ none → IsBroken w st
  no_pre_clone : (x : S) → st.pre_clone x ≡ none → IsBroken w st
  no_target :
      (refpath : Text) (s : CommitStatus) (x : S)
      → st.on_target_branch refpath s x ≡ none
      → IsBroken w st
  no_after_fetch : (x : S) → st.after_fetch x ≡ none → IsBroken w st
  no_merge_conflict : (x : S) → st.merge_conflict x ≡ none → IsBroken w st
  no_after_merge : (s : CommitStatus) (x : S) → st.after_merge s x ≡ none → IsBroken w st
  no_builds :
      (refpath : Text) (s : CommitStatus) (x : S)
      → st.all_evaluations_passed refpath s x ≡ none
      → IsBroken w st

-- An invariant of the strategy's state, which every step keeps that leads to a further one.
pub record Keeps {S : Type 0} (st : Strategy S) (Inv : S → Type 0) : Type 0 where
  pub kept_pre_clone :
      (x : S) (p : S × Result (Unit {0}) StepError) (es : List Effect)
      → st.pre_clone x ≡ some (p, es)
      → Inv x
      → Inv p.0
  pub kept_target :
      (refpath : Text) (s : CommitStatus) (x : S)
      (p : S × CommitStatus × Result (Unit {0}) StepError) (es : List Effect)
      → st.on_target_branch refpath s x ≡ some (p, es)
      → Inv x
      → Inv p.0
  pub kept_after_fetch :
      (x : S) (p : S × Result (Unit {0}) StepError) (es : List Effect)
      → st.after_fetch x ≡ some (p, es)
      → Inv x
      → Inv p.0
  pub kept_after_merge :
      (s : CommitStatus) (x : S) (p : S × CommitStatus × Result (Unit {0}) StepError)
      (es : List Effect)
      → st.after_merge s x ≡ some (p, es)
      → Inv x
      → Inv p.0

-- The computation gives a result for which `P` holds, or it panics because of `B`.
pub record Gives {A : Type 0} (B : Type 0) (P : A → Type 0) (o : Out A) : Type 0 where
  pub given : (a : A) (es : List Effect) → o ≡ some (a, es) → P a
  pub panics : o ≡ none → B

pub Gives-none : {A B : Type 0} {P : A → Type 0} → B → Gives B P none
Gives-none b = record { given = λ a es e. absurd (ground arith); panics = λ _. b }

pub Gives-give : {A B : Type 0} {P : A → Type 0} (a : A) → P a → Gives B P (give a)
Gives-give {A} {B} {P} a h = record {
  given = λ b es e. subst P (first b es e) h;
  panics = λ e. absurd (ground arith);
}
  where
    first : (b : A) (es : List Effect) → give a ≡ some (b, es) → a ≡ b
    first b es e = ground arith

pub Gives-after :
    {A B : Type 0} {P : A → Type 0} (es : List Effect) (o : Out A)
    → Gives B P o
    → Gives B P (after es o)
unfolding after
Gives-after es none h = h
Gives-after {A} {B} {P} es (some (a, fs)) h = record {
  given = λ b gs e. subst P (first b gs e) (h.given a fs refl);
  panics = λ e. absurd (ground arith);
}
  where
    first : (b : A) (gs : List Effect) → Path (Out A) (some (a, es ++ fs)) (some (b, gs)) → a ≡ b
    first b gs e = ground arith

pub Gives-bind :
    {A C B : Type 0} {P : C → Type 0} (o : Out A) (f : A → Out C)
    → (o ≡ none → B)
    → ((a : A) (es : List Effect) → o ≡ some (a, es) → Gives B P (f a))
    → Gives B P (bind o f)
unfolding bind
Gives-bind none f n h = Gives-none (n refl)
Gives-bind (some (a, es)) f n h = Gives-after es (f a) (h a es refl)

pub Gives-if :
    {A B : Type 0} {P : A → Type 0} (b : Bool) (x y : Out A)
    → (b ≡ true → Gives B P x)
    → (b ≡ false → Gives B P y)
    → Gives B P (if b then x else y)
Gives-if true x y hx hy = hx refl
Gives-if false x y hx hy = hy refl

module _ (w : World) {S : Type 0} (st : Strategy S) where
  pub set-panics : (state : State) (s : CommitStatus) → set w state s ≡ none → IsBroken w st
  unfolding set
  set-panics state s e = elim (Bool-cases (w.accepts s state)) [
    | inl h ↦ absurd (ground arith)
    | inr h ↦ no_status s state h
  ]

  pub status-panics :
      (d : Text) (state : State) (s : CommitStatus)
      → set_with_description w d state s ≡ none
      → IsBroken w st
  unfolding set_with_description
  status-panics d state s e = set-panics state (record s { description = d }) e

  pub gist-panics :
      (name : Text) (d : Option Text) (content : Text)
      → make_gist w name d content ≡ none
      → IsBroken w st
  unfolding make_gist
  gist-panics name d content e = elim (Option-cases (w.gist name d content)) [
    | inl h ↦ no_gist name d content h
    | inr (url, h) ↦ absurd (ground arith)
  ]

  abbrev pub Any : {A : Type 0} → A → Type 0
  Any a = Unit

  pub handled :
      {A : Type 0} (ret : Result A StepError) (s : CommitStatus)
      → Gives (IsBroken w st) Any (handle_strategy_err w ret s)
  unfolding handle_strategy_err
  handled (ok a) s = Gives-give (s, true) tt
  handled (err (fail m)) s =
      Gives-bind (set_with_description w m failure s) (λ s1. give (s1, false))
        (status-panics m failure s) (λ s1 es e. Gives-give (s1, false) tt)
  handled (err (fail_with_gist m f c)) s =
      Gives-bind (make_gist w f (some (text "")) c)
        (λ url.
          bind (set_with_description w m failure (record s { url = url })) (λ s1. give (s1, false)))
        (gist-panics f (some (text "")) c)
        (λ url es e.
          Gives-bind (set_with_description w m failure (record s { url = url }))
            (λ s1. give (s1, false)) (status-panics m failure (record s { url = url }))
            (λ s1 es e. Gives-give (s1, false) tt))

  unfoldable pub Passes : Text → EvalChecker → Type 0
  Passes refpath c = (out : Text) × (execute w.merged w.path refpath c ≡ some (ok out))

  pub failed-Passes :
      (refpath : Text) (c : EvalChecker) (s : CommitStatus)
      → Gives
          (IsBroken w st)
          (λ b. b ≡ true → Passes refpath c)
          (bind (set w failure s) (λ _. give false))
  failed-Passes refpath c s =
      Gives-bind (set w failure s) (λ _. give false) (set-panics failure s)
        (λ s' fs h. Gives-give false (λ k. absurd (ground arith)))

  judged-Passes :
      (refpath : Text) (c : EvalChecker) (s : CommitStatus) (o : Option (Result Text Text))
      → execute w.merged w.path refpath c ≡ o
      → Gives (IsBroken w st) (λ b. b ≡ true → Passes refpath c) (judged w c s o)
  unfolding judged Passes
  judged-Passes refpath c s none e = Gives-none (no_run refpath c e)
  judged-Passes refpath c s (some (ok out)) e =
      Gives-bind (set w success s) (λ _. give true) (set-panics success s)
        (λ s' es h. Gives-give true (λ k. (out, e)))
  judged-Passes refpath c s (some (err out)) e =
      Gives-bind (make_gist w (full_name c) (some (text "Failure")) out)
        (λ url. bind (set w failure (record s { url = url })) (λ _. give false))
        (gist-panics (full_name c) (some (text "Failure")) out)
        (λ url es h. failed-Passes refpath c (record s { url = url }))

  pub run_check-Passes :
      (refpath : Text) (c : EvalChecker)
      → Gives (IsBroken w st) (λ b. b ≡ true → Passes refpath c) (run_check w refpath c)
  unfolding run_check
  run_check-Passes refpath c =
      Gives-bind _ _ (set-panics pending _)
        (λ s es e. judged-Passes refpath c s (execute w.merged w.path refpath c) refl)

  pub run_checks-Passes :
      (refpath : Text) (cs : List EvalChecker)
      → Gives (IsBroken w st) (λ b. b ≡ true → All (Passes refpath) cs) (run_checks w refpath cs)
  unfolding run_checks
  run_checks-Passes refpath [] = Gives-give true (λ e. tt)
  run_checks-Passes refpath (c ∷ cs) = Gives-bind _ _ (run_check-Passes refpath c).panics (λ b es e.
      Gives-if b _ _
        (λ h. both ((run_check-Passes refpath c).given b es e h) (run_checks-Passes refpath cs))
        (λ h. Gives-give false (λ k. absurd (ground arith))))
    where
      both :
          Passes refpath c
          → Gives
              (IsBroken w st)
              (λ b. b ≡ true → All (Passes refpath) cs)
              (run_checks w refpath cs)
          → Gives
              (IsBroken w st)
              (λ b. b ≡ true → All (Passes refpath) (c ∷ cs))
              (run_checks w refpath cs)
      both p h = record { given = λ b es e k. (p, h.given b es e k); panics = h.panics }
