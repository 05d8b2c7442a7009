-- ===== src/Evaluation/Effects.antt =====
-- What an evaluation shows to the world: ofborg/src/commitstatus.rs and the calls of GitHub in
-- ofborg/src/tasks/evaluate.rs, as a monad of effects that may panic.
use ofborg.Base.{ℕ, Bool, Option, none, some, List, [], ◌∷◌, ◌++◌, Text, if◌then◌else◌}
use ofborg.CommentPoster.{CheckRunOptions}
use ofborg.Nix.{Command, Run}

-- `hubcaps::statuses::State`
pub data State : Type 0 where
  pending success failure error : State

-- `CommitStatus`, without the commit, which is the job's in all of them.
pub record CommitStatus : Type 0 where
  pub context : Text
  pub description : Text
  pub url : Text

-- What the world gets to see, in order.
pub data Effect : Type 0 where
  status_set : CommitStatus → State → Effect
  gist_made : Text → Effect
  labels_updated : (to_add to_remove : List Text) → Effect
  review_requested : Text → Effect
  check_sent : CheckRunOptions → Effect

-- A computation with effects that may panic.
abbrev pub Out : Type 0 → Type 0
Out A = Option (A × List Effect)

unfoldable pub after : {A : Type 0} → List Effect → Out A → Out A
after es none = none
after es (some (a, fs)) = some (a, es ++ fs)

unfoldable pub bind : {A B : Type 0} → Out A → (A → Out B) → Out B
unfolding after
bind none f = none
bind (some (a, es)) f = after es (f a)

abbrev pub give : {A : Type 0} → A → Out A
give a = some (a, [])

pub record Issue : Type 0 where
  pub state : Text
  pub title : Text
  pub labels : List Text
  pub login : Text

-- What GitHub, git and nix answer. `none` and `false` are the failures that the code unwraps, but for
-- `issue`, `merge_commit`, `files_changed_from_head` and `commit_messages_from_head`, whose failures it
-- handles. `commit_exists` panics itself, where it gives `none`. `relabels` tells whether `update_labels` gets through; `original` and
-- `merged` run a command on the checkout before and after the merge, with the process's `path`.
pub record World : Type 0 where
  pub app_for : Text → Text → Bool
  pub issue : ℕ → Option Issue
  pub accepts : CommitStatus → State → Bool
  pub gist : Text → Option Text → Text → Option Text
  pub clone_for : Text → Text → Bool
  pub checkout_origin_ref : Text → Option Text
  pub fetch_pr : ℕ → Bool
  pub commit_exists : Text → Option Bool
  pub merge_commit : Text → Bool
  pub files_changed_from_head : Text → Option (List Text)
  pub commit_messages_from_head : Text → Option (List Text)
  pub relabels : List Text → List Text → Bool
  pub original : Command → Option Run
  pub merged : Command → Option Run
  pub path : Option Text

module _ (w : World) where
  unfoldable pub set : State → CommitStatus → Out CommitStatus
  set state s = if w.accepts s state then some (s, status_set s state ∷ []) else none

  unfoldable pub set_with_description : Text → State → CommitStatus → Out CommitStatus
  unfolding set
  set_with_description description state s = set state (record s { description = description })

  unfoldable pub make_gist : Text → Option Text → Text → Out Text
  make_gist name description content = elim (w.gist name description content) [
    | none ↦ none
    | some url ↦ some (url, gist_made url ∷ [])
  ]

  -- `update_labels` on the pull request's issue
  unfoldable pub relabel : List Text → List Text → Out (Unit {0})
  relabel to_add to_remove =
      if w.relabels to_add to_remove then some (tt, labels_updated to_add to_remove ∷ []) else none
