-- ===== src/Checkout.antt =====
-- The cached clones of a project and its checkouts: ofborg/src/checkout.rs.
pub mod Guarded
pub mod Script
pub mod Order
pub mod Locking
pub mod Exclusion
pub mod Workers
mod Tests
use ofborg.Base.{
  ℕ, Bool, true, false, Option, none, some, List, [], ◌∷◌, ◌++◌, Text, text, decimal, lines,
  if◌then◌else◌, Result, ok, err,
}
use ofborg.Clone.{
  Output, System, Git, GitClonable, GitCommand, returns, then_do, with_lock, run_git, or_fail,
  make_dir, clone_repo, fetch_repo, clean, checkout,
}

-- `PathBuf::push` of a relative path
unfoldable pub push : Text → Text → Text
push path component = path ++ (text "/" ++ component)

pub record CachedCloner : Type 0 where
  pub root : Text

pub record CachedProject : Type 0 where
  pub root : Text
  pub clone_url : Text

pub record CachedProjectCo : Type 0 where
  pub root : Text
  pub id : Text
  pub clone_url : Text
  pub local_reference : Text

-- `md5` prints the checksum of a name.
unfoldable pub project : (Text → Text) → Text → Text → CachedCloner → CachedProject
project md5 name clone_url c = record {
  root = push (push c.root (text "repo")) (md5 name);
  clone_url = clone_url;
}

unfoldable pub project_clonable : CachedProject → GitClonable
unfolding push
project_clonable p = record {
  clone_from = p.clone_url;
  clone_to = push p.root (text "clone");
  extra_clone_args = text "--bare" ∷ [];
  lock_path = push p.root (text "clone.lock");
}

unfoldable pub co_clonable : CachedProjectCo → GitClonable
unfolding push
co_clonable co = record {
  clone_from = co.clone_url;
  clone_to = push co.root co.id;
  extra_clone_args = text "--shared" ∷ text "--reference-if-able" ∷ co.local_reference ∷ [];
  lock_path = push co.root (co.id ++ text ".lock");
}

-- `debug` prints a text as `{:?}` does, and `lower` is `str::to_lowercase`.
module _ {M : Type 0} (s : System M) (debug lower : Text → Text) where
  unfoldable pub prefetch_cache : CachedProject → Git M Text
  unfolding then_do make_dir clone_repo fetch_repo project_clonable
  prefetch_cache p =
      let g = project_clonable p in
      then_do (make_dir s p.root) (λ _.
        then_do (clone_repo s debug g)
          (λ _. then_do (fetch_repo s debug g) (λ _. returns (ok g.clone_to))))

  unfoldable pub clone_for : Text → Text → CachedProject → Git M CachedProjectCo
  unfolding then_do prefetch_cache
  clone_for use_category id p = then_do (prefetch_cache p) (λ _. returns (
      ok (record {
        root = push p.root use_category;
        id = id;
        clone_url = (project_clonable p).clone_from;
        local_reference = (project_clonable p).clone_to;
      })))

  module _ (co : CachedProjectCo) where
    unfoldable pub checkout_ref : Text → Git M Text
    unfolding then_do make_dir clone_repo fetch_repo clean checkout co_clonable
    checkout_ref git_ref =
        let g = co_clonable co in
        then_do (make_dir s co.root) (λ _. then_do (clone_repo s debug g) (λ _.
          then_do (fetch_repo s debug g) (λ _.
            then_do (clean s debug g)
              (λ _. then_do (checkout s debug g git_ref) (λ _. returns (ok g.clone_to))))))

    unfoldable pub checkout_origin_ref : Text → Git M Text
    unfolding checkout_ref
    checkout_origin_ref git_ref = checkout_ref (text "origin/" ++ git_ref)

    -- one command under the lock
    unfoldable pub under_lock : {A : Type 0} → List Text → (Output → Git M A) → Git M A
    unfolding with_lock then_do run_git co_clonable
    under_lock args judge =
        let g = co_clonable co in
        with_lock s g (
          then_do (run_git s g.clone_to (record { args = args; current_dir = some g.clone_to }))
            judge)

    unfoldable pub fetch_pr : ℕ → Git M (Unit {0})
    unfolding under_lock
    fetch_pr pr_id =
        under_lock
          (text "fetch"
            ∷ text "origin"
            ∷ (text "+refs/pull/" ++ (decimal pr_id ++ text "/head:pr"))
            ∷ [])
          (or_fail s (text "Failed to fetch PR"))

    -- An error is a panic here.
    unfoldable pub commit_exists : Text → Git M Bool
    unfolding under_lock
    commit_exists commit =
        under_lock (text "--no-pager" ∷ text "show" ∷ commit ∷ []) (λ out. returns (ok out.success))

    unfoldable pub merge_commit : Text → Git M (Unit {0})
    unfolding under_lock
    merge_commit commit =
        under_lock
          (text "merge"
            ∷ text "--no-gpg-sign"
            ∷ text "-m"
            ∷ text "Automatic merge for GrahamCOfBorg"
            ∷ commit
            ∷ [])
          (or_fail s (text "Failed to merge"))

    abbrev pub lines_or_fail : Output → Git M (List Text)
    lines_or_fail out =
        returns (if out.success then ok (lines out.stdout) else err (lower out.stderr))

    unfoldable pub commit_messages_from_head : Text → Git M (List Text)
    unfolding under_lock
    commit_messages_from_head commit =
        under_lock (text "log" ∷ text "--format=format:%s" ∷ (text "HEAD.." ++ commit) ∷ [])
          lines_or_fail

    unfoldable pub files_changed_from_head : Text → Git M (List Text)
    unfolding under_lock
    files_changed_from_head commit =
        under_lock (text "diff" ∷ text "--name-only" ∷ (text "HEAD..." ++ commit) ∷ [])
          lines_or_fail
