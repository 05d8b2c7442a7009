-- ===== src/Clone.antt =====
-- Clones of git repositories, under a lock: ofborg/src/clone.rs.
use ofborg.Base.{
  Bool, Option, none, some, List, [], ◌∷◌, ◌++◌, Text, text, if◌then◌else◌, Result, ok, err,
}

pub record GitCommand : Type 0 where
  pub args : List Text
  pub current_dir : Option Text

-- What git leaves behind; both texts with its faulty bytes replaced.
pub record Output : Type 0 where
  pub success : Bool
  pub stdout : Text
  pub stderr : Text

-- What a process does, in order: it takes the lock of a path, it gives it back, and it runs git on a
-- directory.
pub data Event : Type 0 where
  locked unlocked : (lock_path : Text) → Event
  ran : (directory : Text) → GitCommand → Event

-- The operating system, with its state: the lock of a path, the directories, and git. An error is its
-- text.
pub record System (M : Type 0) : Type 0 where
  pub lock : Text → M → M × Option Text
  pub unlock : Text → M → M
  pub create_dir_all : Text → M → M × Option Text
  pub is_dir : Text → M → Bool
  pub git : GitCommand → M → M × Result Output Text

-- A computation on the system, with its trace.
abbrev pub Git : Type 0 → Type 0 → Type 0
Git M A = M → M × (List Event × Result A Text)

pub record GitClonable : Type 0 where
  pub clone_from : Text
  pub clone_to : Text
  pub extra_clone_args : List Text
  pub lock_path : Text

module _ {M : Type 0} where
  abbrev pub returns : {A : Type 0} → Result A Text → Git M A
  returns r m = (m, ([], r))

  -- the events in front of a result
  abbrev traced :
      {A : Type 0}
      → List Event
      → M × (List Event × Result A Text)
      → M × (List Event × Result A Text)
  traced es (m, (fs, r)) = (m, (es ++ fs, r))

  -- `?`, with the trace so far
  unfoldable pub continue :
      {A B : Type 0}
      → (A → Git M B)
      → M × (List Event × Result A Text)
      → M × (List Event × Result B Text)
  continue f (m, (es, err e)) = (m, (es, err e))
  continue f (m, (es, ok a)) = traced es (f a m)

  unfoldable pub then_do : {A B : Type 0} → Git M A → (A → Git M B) → Git M B
  unfolding continue
  then_do c f m = continue f (c m)

module _ {M : Type 0} (s : System M) where
  -- The lock is given back with the scope at the latest, also when an error leaves it.
  unfoldable pub released :
      {A : Type 0} → Text → M × (List Event × Result A Text) → M × (List Event × Result A Text)
  released path (m, (es, r)) = (s.unlock path m, (locked path ∷ (es ++ unlocked path ∷ []), r))

  unfoldable pub entered :
      {A : Type 0} → Text → Git M A → M × Option Text → M × (List Event × Result A Text)
  unfolding released
  entered path body (m, some e) = (m, ([], err e))
  entered path body (m, none) = released path (body m)

  unfoldable pub with_lock : {A : Type 0} → GitClonable → Git M A → Git M A
  unfolding entered
  with_lock g body m = entered g.lock_path body (s.lock g.lock_path m)

  abbrev ran_with :
      Text → GitCommand → M × Result Output Text → M × (List Event × Result Output Text)
  ran_with directory c (m, r) = (m, (ran directory c ∷ [], r))

  unfoldable pub run_git : Text → GitCommand → Git M Output
  run_git directory c m = ran_with directory c (s.git c m)

  -- `success`, or the error
  abbrev pub or_fail : Text → Output → Git M (Unit {0})
  or_fail message out = returns (if out.success then ok tt else err message)

  abbrev pub created_dir : M × Option Text → M × (List Event × Result (Unit {0}) Text)
  created_dir (m, none) = (m, ([], ok tt))
  created_dir (m, some e) = (m, ([], err e))

  unfoldable pub make_dir : Text → Git M (Unit {0})
  make_dir path m = created_dir (s.create_dir_all path m)

  abbrev pub git_in : GitClonable → List Text → Git M Output
  git_in g args = run_git g.clone_to (record { args = args; current_dir = some g.clone_to })

  -- `debug` prints a text as `{:?}` does.
  module _ (debug : Text → Text) (g : GitClonable) where
    unfoldable pub clone_command : GitCommand
    clone_command = record {
      args = text "clone" ∷ (g.extra_clone_args ++ g.clone_from ∷ g.clone_to ∷ []);
      current_dir = none;
    }

    unfoldable pub initial_clone : Git M (Unit {0})
    unfolding then_do run_git clone_command
    initial_clone = then_do (run_git g.clone_to clone_command) (
        or_fail (
          text "Failed to clone from "
          ++ (debug g.clone_from ++ (text " to " ++ debug g.clone_to))))

    unfoldable pub clone_unless_present : Git M (Unit {0})
    unfolding initial_clone
    clone_unless_present m = if s.is_dir g.clone_to m then (m, ([], ok tt)) else initial_clone m

    unfoldable pub clone_repo : Git M (Unit {0})
    unfolding with_lock clone_unless_present
    clone_repo = with_lock g clone_unless_present

    unfoldable pub fetch_repo : Git M (Unit {0})
    unfolding with_lock then_do run_git
    fetch_repo =
        with_lock g (
          then_do (git_in g (text "fetch" ∷ text "origin" ∷ [])) (or_fail (text "Failed to fetch")))

    -- How the three commands end is not looked at.
    unfoldable pub clean : Git M (Unit {0})
    unfolding with_lock then_do run_git
    clean = with_lock g (
        then_do (git_in g (text "am" ∷ text "--abort" ∷ [])) (λ _.
          then_do (git_in g (text "merge" ∷ text "--abort" ∷ []))
            (λ _. then_do (git_in g (text "reset" ∷ text "--hard" ∷ [])) (λ _. returns (ok tt)))))

    unfoldable pub checkout : Text → Git M (Unit {0})
    unfolding with_lock then_do run_git
    checkout git_ref =
        with_lock g (
          then_do (git_in g (text "checkout" ∷ git_ref ∷ [])) (or_fail (text "Failed to checkout")))
