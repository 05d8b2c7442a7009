-- ===== src/CommentFilter/Permission.antt =====
-- Where a comment's messages may go: ofborg/src/tasks/githubcommentfilter.rs.
use ofborg.Base.{
  ℕ, suc, Bool, false, Option, none, some, List, [], ◌∷◌, map, keep, is_empty, Text, text, ◌≡◌,
  refl, ◌⊎◌, inl, inr, arith, All, All-append, Occurs, Bool-cases, Option-cases,
}
use ofborg.GhEvent.{IssueComment}
use ofborg.Message.{Repo, Pr, Subset, nixpkgs, nixos, Payload}
use ofborg.Access.{
  System, as_build_destination, can_run_nixos_tests, Acl, build_job_architectures_for_user_repo,
}
use ofborg.Worker.{QueueMsg, Action, ack, nack_requeue, nack_dump, publish, publish_serde_action}
use ofborg.CommentFilter.{
  Instruction, build, eval, is_deleted, Parsed, parse, Pull, Services, destinations, publish_build,
  respond, repo_msg, pr_msg, fetched, consumer,
}

-- A message to the queue of one of the machines, to the reporters, or to the evaluators.
abbrev pub GoesTo : List System → QueueMsg → Type 0
GoesTo archs m =
    ((s : System) × Occurs s archs × ((m.exchange, m.routing_key) ≡ as_build_destination s))
    ⊎ ((m.exchange ≡ some (text "build-results")) × (m.routing_key ≡ none))
    ⊎ ((m.exchange ≡ none) × (m.routing_key ≡ some (text "mass-rebuild-check-jobs")))

abbrev pub IsPermitted : List System → Action → Type 0
IsPermitted archs ack = Unit
IsPermitted archs nack_requeue = ⊥
IsPermitted archs nack_dump = ⊥
IsPermitted archs (publish m) = GoesTo archs m

Occurs-keep : {A : Type 0} (p : A → Bool) (a : A) (xs : List A) → Occurs a (keep p xs) → Occurs a xs
Occurs-keep p a [] h = h
Occurs-keep p a (x ∷ xs) h = elim (Bool-cases (p x)) [
  | inl e ↦ first (Occurs-keep p a xs) (rw e at h)
  | inr e ↦ inr (Occurs-keep p a xs (rw e at h))
]
  where
    first :
        (Occurs a (keep p xs) → Occurs a xs)
        → (a ≡ x) ⊎ Occurs a (keep p xs)
        → (a ≡ x) ⊎ Occurs a xs
    first ih (inl e) = inl e
    first ih (inr m) = inr (ih m)

module _ (env : Services) where
  Occurs-destinations :
      (subset : Subset) (archs : List System) (s : System)
      → Occurs s (destinations env subset archs)
      → Occurs s archs
  Occurs-destinations nixpkgs archs s h = h
  Occurs-destinations nixos archs s h = Occurs-keep can_run_nixos_tests s archs h

  published-IsPermitted :
      (archs : List System) (msg : Payload) (ds : List System)
      → ((s : System) → Occurs s ds → Occurs s archs)
      → All (IsPermitted archs) (map (publish_build env msg) ds)
  unfolding publish_build publish_serde_action
  published-IsPermitted archs msg [] sub = tt
  published-IsPermitted archs msg (s ∷ ds) sub =
      (inl (s, sub s (inl refl), refl), published-IsPermitted archs msg ds (λ t m. sub t (inr m)))

  respond-IsPermitted :
      (repo : Repo) (pr : Pr) (archs : List System) (n : ℕ) (is : List Instruction)
      → All (IsPermitted archs) (respond env repo pr archs n is)
  unfolding respond publish_serde_action
  respond-IsPermitted repo pr archs n [] = (tt, tt)
  respond-IsPermitted repo pr archs n (build subset attrs ∷ rest) =
      All-append (IsPermitted archs) _ _
        (All-append (IsPermitted archs) _ _
          (published-IsPermitted archs _ (destinations env subset archs)
            (Occurs-destinations subset archs))
          (inr (inl (refl, refl)), tt))
        (respond-IsPermitted repo pr archs (suc n) rest)
  respond-IsPermitted repo pr archs n (eval ∷ rest) =
      (inr (inr (refl, refl)), respond-IsPermitted repo pr archs n rest)

  fetched-IsPermitted :
      (job : IssueComment) (archs : List System) (is : List Instruction) (pull : Option Pull)
      → All (IsPermitted archs) (fetched env job archs is pull)
  unfolding fetched
  fetched-IsPermitted job archs is none = (tt, tt)
  fetched-IsPermitted job archs is (some pull) =
      respond-IsPermitted (repo_msg env job) (pr_msg env job pull) archs 0 is

  module _ (parse_line_impl : Text → Parsed) (acl : Acl) (job : IssueComment) where
    abbrev pub granted : List System
    granted =
        build_job_architectures_for_user_repo env.lower acl job.comment.user.login
          job.repository.full_name

    abbrev pub pull : Option Pull
    pull = env.get_pull job.repository.owner.login job.repository.name job.issue.number

    -- Either the comment is only acknowledged, or it stands, says something, and its author may
    -- build.
    pub consumer-cases :
        (consumer env parse_line_impl acl job ≡ ack ∷ [])
        ⊎ ((is : List Instruction) × (parse parse_line_impl job.comment.body ≡ some is)
            × (is_empty granted ≡ false)
            × (consumer env parse_line_impl acl job ≡ fetched env job granted is pull))
    unfolding consumer
    consumer-cases = elim (Option-cases (parse parse_line_impl job.comment.body)) [
      | inl e ↦ inl (ground arith)
      | inr (is, e) ↦ elim (Bool-cases (is_empty granted)) [
        | inl f ↦ inl (ground arith)
        | inr f ↦ elim (Bool-cases (is_deleted env job.action)) [
          | inl g ↦ inl (ground arith)
          | inr g ↦ inr (is, e, f, ground arith)
        ]
      ]
    ]

    -- Whatever a comment says, its messages go to the queues of the machines that the access list
    -- grants its author for the repository, to the reporters and to the evaluators, and nowhere
    -- else; no delivery is refused.
    pub consumer-IsPermitted : All (IsPermitted granted) (consumer env parse_line_impl acl job)
    consumer-IsPermitted = elim consumer-cases [
      | inl e ↦ rw e (tt, tt)
      | inr (is, _, _, e) ↦ rw e (fetched-IsPermitted job granted is pull)
    ]

    -- An author to whom the access list grants no machine starts nothing.
    pub consumer-ungranted : granted ≡ [] → consumer env parse_line_impl acl job ≡ ack ∷ []
    consumer-ungranted h = elim consumer-cases [ inl e ↦ e | inr (_, _, f, _) ↦ ground arith ]
