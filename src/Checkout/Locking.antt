-- ===== src/Checkout/Locking.antt =====
-- Every operation on a checkout keeps to the locks: ofborg/src/clone.rs and ofborg/src/checkout.rs.
use ofborg.Base.{
  ℕ, true, false, Option, none, some, List, [], ◌++◌, Text, text, if◌then◌else◌, Result, ok, ◌≡◌,
  refl, append_assoc, sym, Bool,
}
use ofborg.Clone.{
  Output, System, Git, GitClonable, returns, make_dir, initial_clone, clone_unless_present,
  clone_repo, fetch_repo, clean, checkout, clone_command, created_dir, git_in,
}
use ofborg.Checkout.{
  CachedProject, CachedProjectCo, push, project_clonable, co_clonable, prefetch_cache, clone_for,
  checkout_ref, checkout_origin_ref, under_lock, fetch_pr, commit_exists, merge_commit,
  commit_messages_from_head, files_changed_from_head,
}
use ofborg.Checkout.Guarded.{
  lock_of, guarded, inside, IsGuarded, IsInside, then_do-IsGuarded, then_do-IsInside,
  with_lock-IsGuarded, run_git-IsInside,
}

module _ {M : Type 0} where
  returns-IsInside : {A : Type 0} (p : Text) (r : Result A Text) → IsInside {M = M} p (returns r)
  unfolding inside
  returns-IsInside p r = record { has_inside = λ m. refl }

  returns-IsGuarded : {A : Type 0} (r : Result A Text) → IsGuarded {M = M} (returns r)
  unfolding guarded
  returns-IsGuarded r = record { has_guarded = λ m. refl }

module _ {M : Type 0} (s : System M) (debug : Text → Text) where
  make_dir-IsGuarded : (path : Text) → IsGuarded (make_dir s path)
  unfolding make_dir guarded
  make_dir-IsGuarded path = record { has_guarded = λ m. made (s.create_dir_all path m) }
    where
      made : (r : M × Option Text) → guarded none (created_dir s r).1.0 ≡ true
      made (m, none) = refl
      made (m, some e) = refl

  module _ (g : GitClonable) (e : g.lock_path ≡ lock_of g.clone_to) where
    git_in-IsInside : (args : List Text) → IsInside g.lock_path (git_in s g args)
    git_in-IsInside args =
        run_git-IsInside s g (record { args = args; current_dir = some g.clone_to }) e

    clone_repo-IsGuarded : IsGuarded (clone_repo s debug g)
    unfolding clone_repo clone_unless_present inside
    clone_repo-IsGuarded =
        with_lock-IsGuarded s g (clone_unless_present s debug g)
          (record { has_inside = λ m. present m (s.is_dir g.clone_to m) })
      where
        cloned : IsInside g.lock_path (initial_clone s debug g)
        cloned =
            then_do-IsInside g.lock_path _ _ (run_git-IsInside s g (clone_command s debug g) e)
              (λ out. returns-IsInside g.lock_path _)

        present :
            (m : M) (b : Bool)
            → inside g.lock_path (if b then (m, ([], ok tt)) else initial_clone s debug g m).1.0
              ≡ true
        present m true = refl
        present m false = cloned.has_inside m

    fetch_repo-IsGuarded : IsGuarded (fetch_repo s debug g)
    unfolding fetch_repo
    fetch_repo-IsGuarded = with_lock-IsGuarded s g _ (
        then_do-IsInside g.lock_path _ _ (git_in-IsInside _)
          (λ out. returns-IsInside g.lock_path _))

    clean-IsGuarded : IsGuarded (clean s debug g)
    unfolding clean
    clean-IsGuarded = with_lock-IsGuarded s g _ (
        then_do-IsInside g.lock_path _ _ (git_in-IsInside _) (λ _.
          then_do-IsInside g.lock_path _ _ (git_in-IsInside _) (λ _.
            then_do-IsInside g.lock_path _ _ (git_in-IsInside _)
              (λ _. returns-IsInside g.lock_path _))))

    checkout-IsGuarded : (git_ref : Text) → IsGuarded (checkout s debug g git_ref)
    unfolding checkout
    checkout-IsGuarded git_ref = with_lock-IsGuarded s g _ (
        then_do-IsInside g.lock_path _ _ (git_in-IsInside _)
          (λ out. returns-IsInside g.lock_path _))

project_lock :
    (p : CachedProject) → (project_clonable p).lock_path ≡ lock_of (project_clonable p).clone_to
unfolding project_clonable push text
project_lock p = sym (append_assoc p.root (text "/clone") (text ".lock"))

co_lock : (co : CachedProjectCo) → (co_clonable co).lock_path ≡ lock_of (co_clonable co).clone_to
unfolding co_clonable push text
co_lock co = sym (append_assoc co.root (text "/" ++ co.id) (text ".lock"))

module _ {M : Type 0} (s : System M) (debug lower : Text → Text) where
  prefetch_cache-IsGuarded : (p : CachedProject) → IsGuarded (prefetch_cache s debug lower p)
  unfolding prefetch_cache
  prefetch_cache-IsGuarded p =
      let g = project_clonable p in
      then_do-IsGuarded _ _ (make_dir-IsGuarded s debug p.root) (λ _.
        then_do-IsGuarded _ _ (clone_repo-IsGuarded s debug g (project_lock p)) (λ _.
          then_do-IsGuarded _ _ (fetch_repo-IsGuarded s debug g (project_lock p))
            (λ _. returns-IsGuarded _)))

  pub clone_for-IsGuarded :
      (p : CachedProject) (use_category id : Text)
      → IsGuarded (clone_for s debug lower use_category id p)
  unfolding clone_for
  clone_for-IsGuarded p use_category id =
      then_do-IsGuarded _ _ (prefetch_cache-IsGuarded p) (λ _. returns-IsGuarded _)

  module _ (co : CachedProjectCo) where
    checkout_ref-IsGuarded : (git_ref : Text) → IsGuarded (checkout_ref s debug lower co git_ref)
    unfolding checkout_ref
    checkout_ref-IsGuarded git_ref =
        let g = co_clonable co in
        then_do-IsGuarded _ _ (make_dir-IsGuarded s debug co.root) (λ _.
          then_do-IsGuarded _ _ (clone_repo-IsGuarded s debug g (co_lock co)) (λ _.
            then_do-IsGuarded _ _ (fetch_repo-IsGuarded s debug g (co_lock co)) (λ _.
              then_do-IsGuarded _ _ (clean-IsGuarded s debug g (co_lock co)) (λ _.
                then_do-IsGuarded _ _ (checkout-IsGuarded s debug g (co_lock co) git_ref)
                  (λ _. returns-IsGuarded _)))))

    under_lock-IsGuarded :
        {A : Type 0} (args : List Text) (judge : Output → Git M A)
        → ((out : Output) → IsInside (co_clonable co).lock_path (judge out))
        → IsGuarded (under_lock s debug lower co args judge)
    unfolding under_lock
    under_lock-IsGuarded args judge h =
        let g = co_clonable co in
        with_lock-IsGuarded s g _
          (then_do-IsInside g.lock_path _ judge (git_in-IsInside s debug g (co_lock co) args) h)

  module _ (co : CachedProjectCo) where
    pub checkout_origin_ref-IsGuarded :
        (git_ref : Text) → IsGuarded (checkout_origin_ref s debug lower co git_ref)
    unfolding checkout_origin_ref
    checkout_origin_ref-IsGuarded git_ref = checkout_ref-IsGuarded co (text "origin/" ++ git_ref)

    pub fetch_pr-IsGuarded : (pr : ℕ) → IsGuarded (fetch_pr s debug lower co pr)
    unfolding fetch_pr
    fetch_pr-IsGuarded pr = under_lock-IsGuarded co _ _ (λ out. returns-IsInside _ _)

    pub commit_exists-IsGuarded :
        (commit : Text) → IsGuarded (commit_exists s debug lower co commit)
    unfolding commit_exists
    commit_exists-IsGuarded commit = under_lock-IsGuarded co _ _ (λ out. returns-IsInside _ _)

    pub merge_commit-IsGuarded : (commit : Text) → IsGuarded (merge_commit s debug lower co commit)
    unfolding merge_commit
    merge_commit-IsGuarded commit = under_lock-IsGuarded co _ _ (λ out. returns-IsInside _ _)

    pub commit_messages-IsGuarded :
        (commit : Text) → IsGuarded (commit_messages_from_head s debug lower co commit)
    unfolding commit_messages_from_head
    commit_messages-IsGuarded commit = under_lock-IsGuarded co _ _ (λ out. returns-IsInside _ _)

    pub files_changed-IsGuarded :
        (commit : Text) → IsGuarded (files_changed_from_head s debug lower co commit)
    unfolding files_changed_from_head
    files_changed-IsGuarded commit = under_lock-IsGuarded co _ _ (λ out. returns-IsInside _ _)

  -- Every operation on a project and on its checkouts, however the system answers and wherever it
  -- fails: it takes a lock only when it holds none, it runs git on a directory only while it holds the
  -- directory's lock, and at its end it has given every lock back.
  all-IsGuarded :
      (p : CachedProject) (co : CachedProjectCo) (use_category id git_ref commit : Text) (pr : ℕ)
      → IsGuarded (clone_for s debug lower use_category id p)
        × IsGuarded (checkout_origin_ref s debug lower co git_ref)
        × IsGuarded (fetch_pr s debug lower co pr)
        × IsGuarded (commit_exists s debug lower co commit)
        × IsGuarded (merge_commit s debug lower co commit)
        × IsGuarded (commit_messages_from_head s debug lower co commit)
        × IsGuarded (files_changed_from_head s debug lower co commit)
  all-IsGuarded p co use_category id git_ref commit pr = (
    clone_for-IsGuarded p use_category id,
    checkout_origin_ref-IsGuarded co git_ref,
    fetch_pr-IsGuarded co pr,
    commit_exists-IsGuarded co commit,
    merge_commit-IsGuarded co commit,
    commit_messages-IsGuarded co commit,
    files_changed-IsGuarded co commit,
  )
