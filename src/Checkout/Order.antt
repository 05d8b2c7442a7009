-- ===== src/Checkout/Order.antt =====
-- A checkout step by step: `checkout_ref` of ofborg/src/checkout.rs.
use ofborg.Base.{true, false, some, List, [], ◌∷◌, ◌++◌, Text, text, ok, inl, inr, refl, Bool-cases}
use ofborg.Clone.{
  System, Git, GitClonable, GitCommand, then_do, returns, make_dir, git_in, clone_command,
  initial_clone, clone_unless_present, clone_repo, fetch_repo, clean, checkout,
}
use ofborg.Checkout.{CachedProjectCo, co_clonable, checkout_ref, checkout_origin_ref}
use ofborg.Checkout.Script.{
  commands, Script, Keeps, then_do-Keeps, with_lock-Keeps, run_git-Keeps, make_dir-Keeps,
  judged-Keeps, locked-Keeps, optional-Keeps,
}

module _ {M : Type 0} (sys : System M) (debug : Text → Text) where
  abbrev git_args : GitClonable → List Text → Text × GitCommand
  git_args g args = (g.clone_to, record { args = args; current_dir = some g.clone_to })

  -- A clone, if it is not there; a fetch; whatever was begun is given up; and the reference.
  unfoldable pub plan : GitClonable → Text → Script
  plan g git_ref =
      (true, (g.clone_to, clone_command sys debug g))
      ∷ (false, git_args g (text "fetch" ∷ text "origin" ∷ []))
      ∷ (false, git_args g (text "am" ∷ text "--abort" ∷ []))
      ∷ (false, git_args g (text "merge" ∷ text "--abort" ∷ []))
      ∷ (false, git_args g (text "reset" ∷ text "--hard" ∷ []))
      ∷ (false, git_args g (text "checkout" ∷ git_ref ∷ []))
      ∷ []

  clone_repo-Keeps :
      (g : GitClonable) (m : M)
      → Keeps ((true, (g.clone_to, clone_command sys debug g)) ∷ []) (clone_repo sys debug g m)
  unfolding clone_repo clone_unless_present initial_clone commands
  clone_repo-Keeps g =
      with_lock-Keeps sys ((true, (g.clone_to, clone_command sys debug g)) ∷ []) g
        (clone_unless_present sys debug g) go
    where
      go :
          (m : M)
          → Keeps
              ((true, (g.clone_to, clone_command sys debug g)) ∷ [])
              (clone_unless_present sys debug g m)
      go m = elim (Bool-cases (sys.is_dir g.clone_to m)) [
        | inl h ↦ rw (clone_unless_present, h) (inl (refl, refl))
        | inr h ↦
            rw (clone_unless_present, h)
              (optional-Keeps sys g.clone_to (clone_command sys debug g)
                (initial_clone sys debug g m)
                (judged-Keeps sys g.clone_to (clone_command sys debug g) _ m))
      ]

  fetch_repo-Keeps :
      (g : GitClonable) (m : M)
      → Keeps
          ((false, git_args g (text "fetch" ∷ text "origin" ∷ [])) ∷ [])
          (fetch_repo sys debug g m)
  unfolding fetch_repo
  fetch_repo-Keeps g =
      locked-Keeps sys g g.clone_to (git_args g (text "fetch" ∷ text "origin" ∷ [])).1
        (text "Failed to fetch")

  checkout-Keeps :
      (g : GitClonable) (git_ref : Text) (m : M)
      → Keeps
          ((false, git_args g (text "checkout" ∷ git_ref ∷ [])) ∷ [])
          (checkout sys debug g git_ref m)
  unfolding checkout
  checkout-Keeps g git_ref =
      locked-Keeps sys g g.clone_to (git_args g (text "checkout" ∷ git_ref ∷ [])).1
        (text "Failed to checkout")

  abbrev aborts : GitClonable → Script
  aborts g =
      (false, git_args g (text "am" ∷ text "--abort" ∷ []))
      ∷ (false, git_args g (text "merge" ∷ text "--abort" ∷ []))
      ∷ (false, git_args g (text "reset" ∷ text "--hard" ∷ []))
      ∷ []

  abbrev reset : GitClonable → Git M (Unit {0})
  reset g = then_do (git_in sys g (text "reset" ∷ text "--hard" ∷ [])) (λ _. returns (ok tt))

  abbrev merge_abort : GitClonable → Git M (Unit {0})
  merge_abort g = then_do (git_in sys g (text "merge" ∷ text "--abort" ∷ [])) (λ _. reset g)

  abbrev one : GitClonable → List Text → Script
  one g args = (false, git_args g args) ∷ []

  runs : (g : GitClonable) (args : List Text) (m : M) → Keeps (one g args) (git_in sys g args m)
  runs g args = run_git-Keeps sys g.clone_to (git_args g args).1

  nothing : {A : Type 0} (a : A) (m : M) → Keeps [] (returns (ok a) m)
  unfolding commands
  nothing a m = refl

  clean-Keeps : (g : GitClonable) (m : M) → Keeps (aborts g) (clean sys debug g m)
  unfolding clean
  clean-Keeps g =
      with_lock-Keeps sys (aborts g) g
        (then_do (git_in sys g (text "am" ∷ text "--abort" ∷ [])) (λ _. merge_abort g))
        (then_do-Keeps (one g (text "am" ∷ text "--abort" ∷ []))
          (one g (text "merge" ∷ text "--abort" ∷ []) ++ one g (text "reset" ∷ text "--hard" ∷ []))
          (git_in sys g (text "am" ∷ text "--abort" ∷ [])) (λ _. merge_abort g)
          (runs g (text "am" ∷ text "--abort" ∷ []))
          (λ _.
            then_do-Keeps (one g (text "merge" ∷ text "--abort" ∷ []))
              (one g (text "reset" ∷ text "--hard" ∷ []))
              (git_in sys g (text "merge" ∷ text "--abort" ∷ [])) (λ _. reset g)
              (runs g (text "merge" ∷ text "--abort" ∷ []))
              (λ _.
                then_do-Keeps (one g (text "reset" ∷ text "--hard" ∷ [])) []
                  (git_in sys g (text "reset" ∷ text "--hard" ∷ [])) (λ _. returns (ok tt))
                  (runs g (text "reset" ∷ text "--hard" ∷ [])) (λ _. nothing tt))))

  module _ (g : GitClonable) (git_ref : Text) where
    abbrev last_step : Git M Text
    last_step = then_do (checkout sys debug g git_ref) (λ _. returns (ok g.clone_to))

    abbrev cleaned : Git M Text
    cleaned = then_do (clean sys debug g) (λ _. last_step)

    abbrev fetched : Git M Text
    fetched = then_do (fetch_repo sys debug g) (λ _. cleaned)

    abbrev cloned : Git M Text
    cloned = then_do (clone_repo sys debug g) (λ _. fetched)

    last_step-Keeps : (m : M) → Keeps (one g (text "checkout" ∷ git_ref ∷ [])) (last_step m)
    last_step-Keeps =
        then_do-Keeps (one g (text "checkout" ∷ git_ref ∷ [])) [] (checkout sys debug g git_ref)
          (λ _. returns (ok g.clone_to)) (checkout-Keeps g git_ref) (λ _. nothing g.clone_to)

    cloned-Keeps : (m : M) → Keeps (plan g git_ref) (cloned m)
    unfolding plan
    cloned-Keeps =
        then_do-Keeps ((true, (g.clone_to, clone_command sys debug g)) ∷ [])
          (one g (text "fetch" ∷ text "origin" ∷ [])
            ++ (aborts g ++ one g (text "checkout" ∷ git_ref ∷ [])))
          (clone_repo sys debug g) (λ _. fetched) (clone_repo-Keeps g)
          (λ _.
            then_do-Keeps (one g (text "fetch" ∷ text "origin" ∷ []))
              (aborts g ++ one g (text "checkout" ∷ git_ref ∷ [])) (fetch_repo sys debug g)
              (λ _. cleaned) (fetch_repo-Keeps g)
              (λ _.
                then_do-Keeps (aborts g) (one g (text "checkout" ∷ git_ref ∷ []))
                  (clean sys debug g) (λ _. last_step) (clean-Keeps g) (λ _. last_step-Keeps)))

  -- Whatever git and the file system do, and whatever state they are in: a checkout runs git in this
  -- order, in the checkout's directory: the clone, which may be left out; the fetch; `am --abort`,
  -- `merge --abort` and `reset --hard`; and the checkout of the reference on origin. If it fails, these
  -- runs stop somewhere; if it succeeds, each one was made.
  pub checkout_origin_ref-Keeps :
      (lower : Text → Text) (co : CachedProjectCo) (git_ref : Text) (m : M)
      → Keeps
          (plan (co_clonable co) (text "origin/" ++ git_ref))
          (checkout_origin_ref sys debug lower co git_ref m)
  unfolding checkout_origin_ref checkout_ref
  checkout_origin_ref-Keeps lower co git_ref =
      let g = co_clonable co in
      then_do-Keeps [] (plan g (text "origin/" ++ git_ref)) (make_dir sys co.root)
        (λ _. cloned g (text "origin/" ++ git_ref)) (make_dir-Keeps sys co.root)
        (λ _. cloned-Keeps g (text "origin/" ++ git_ref))
