-- ===== src/Checkout/Workers.antt =====
-- Workers that use the same cache of clones at the same time: ofborg/src/clone.rs and
-- ofborg/src/checkout.rs.
use ofborg.Base.{ℕ, true, none, some, List, [], ◌∷◌, ◌++◌, Text, ◌≡◌, ◌≢◌, ◌⊎◌, refl}
use ofborg.Clone.{Event, locked, ran, System, GitCommand}
use ofborg.Checkout.{
  CachedProject, CachedProjectCo, clone_for, checkout_origin_ref, fetch_pr, commit_exists,
  merge_commit, commit_messages_from_head, files_changed_from_head,
}
use ofborg.Checkout.Guarded.{guarded, guarded-append}
use ofborg.Checkout.Locking.{
  clone_for-IsGuarded, checkout_origin_ref-IsGuarded, fetch_pr-IsGuarded, commit_exists-IsGuarded,
  merge_commit-IsGuarded, commit_messages-IsGuarded, files_changed-IsGuarded,
}
use ofborg.Checkout.Exclusion.{Process, Reaches, IsFresh, Moves, runs_alone, waiting-Moves}

-- What a worker does with the cache: operations one after the other, each as the system answers it,
-- to its end or to its error.
pub data IsTrace {M : Type 0} (s : System M) (debug lower : Text → Text) : List Event → Type 0 where
  idle : IsTrace s debug lower []
  one_more :
      (es fs : List Event)
      → IsTrace s debug lower es
      → IsTrace s debug lower fs
      → IsTrace s debug lower (es ++ fs)
  clones :
      (p : CachedProject) (use_category id : Text) (m : M)
      → IsTrace s debug lower (clone_for s debug lower use_category id p m).1.0
  checks_out :
      (co : CachedProjectCo) (git_ref : Text) (m : M)
      → IsTrace s debug lower (checkout_origin_ref s debug lower co git_ref m).1.0
  fetches :
      (co : CachedProjectCo) (pr : ℕ) (m : M)
      → IsTrace s debug lower (fetch_pr s debug lower co pr m).1.0
  looks :
      (co : CachedProjectCo) (commit : Text) (m : M)
      → IsTrace s debug lower (commit_exists s debug lower co commit m).1.0
  merges :
      (co : CachedProjectCo) (commit : Text) (m : M)
      → IsTrace s debug lower (merge_commit s debug lower co commit m).1.0
  lists_messages :
      (co : CachedProjectCo) (commit : Text) (m : M)
      → IsTrace s debug lower (commit_messages_from_head s debug lower co commit m).1.0
  lists_files :
      (co : CachedProjectCo) (commit : Text) (m : M)
      → IsTrace s debug lower (files_changed_from_head s debug lower co commit m).1.0

module _ {M : Type 0} (s : System M) (debug lower : Text → Text) where
  trace-guarded : (es : List Event) → IsTrace s debug lower es → guarded none es ≡ true
  unfolding guarded
  trace-guarded _ idle = refl
  trace-guarded _ (one_more es fs h k) =
      guarded-append none es fs (trace-guarded es h) (trace-guarded fs k)
  trace-guarded _ (clones p c id m) = (clone_for-IsGuarded s debug lower p c id).has_guarded m
  trace-guarded _ (checks_out co r m) =
      (checkout_origin_ref-IsGuarded s debug lower co r).has_guarded m
  trace-guarded _ (fetches co pr m) = (fetch_pr-IsGuarded s debug lower co pr).has_guarded m
  trace-guarded _ (looks co x m) = (commit_exists-IsGuarded s debug lower co x).has_guarded m
  trace-guarded _ (merges co x m) = (merge_commit-IsGuarded s debug lower co x).has_guarded m
  trace-guarded _ (lists_messages co x m) =
      (commit_messages-IsGuarded s debug lower co x).has_guarded m
  trace-guarded _ (lists_files co x m) = (files_changed-IsGuarded s debug lower co x).has_guarded m

  -- Workers that hold no lock and have such operations before them.
  pub record AreWorkers (c : ℕ → Process) : Type 0 where
    pub hold_none : (i : ℕ) → (c i).held ≡ none
    pub operate : (i : ℕ) → IsTrace s debug lower (c i).rest

  workers-IsFresh : (c : ℕ → Process) → AreWorkers c → IsFresh c
  workers-IsFresh c h = record {
    holds_none = h.hold_none;
    has_guarded = λ i. trace-guarded (c i).rest (h.operate i);
  }

  -- However workers that use the same cache are interleaved, two of them that are both about to run
  -- git on the same directory are one and the same.
  pub workers_alone :
      (c d : ℕ → Process) (i j : ℕ) (directory : Text) (g g' : GitCommand) (es es' : List Event)
      → AreWorkers c
      → Reaches c d
      → (d i).rest ≡ ran directory g ∷ es
      → (d j).rest ≡ ran directory g' ∷ es'
      → i ≡ j
  workers_alone c d i j directory g g' es es' h =
      runs_alone c d i j directory g g' es es' (workers-IsFresh c h)

  -- However workers that use the same cache are interleaved, none of them is ever stuck: one that has
  -- something to do does it, or it waits for a lock, and then any worker that holds this lock can go
  -- on, and if none holds it, the waiting one can.
  pub workers-Moves :
      (c d : ℕ → Process) (i : ℕ) (ev : Event) (es : List Event)
      → AreWorkers c
      → Reaches c d
      → (d i).rest ≡ ev ∷ es
      → Moves d i
        ⊎ ((p : Text) × (ev ≡ locked p)
            × ((j : ℕ) → (d j).held ≡ some p → Moves d j)
            × (((j : ℕ) → (d j).held ≢ some p) → Moves d i))
  workers-Moves c d i ev es h = waiting-Moves c d i ev es (workers-IsFresh c h)
