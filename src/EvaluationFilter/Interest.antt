-- ===== src/EvaluationFilter/Interest.antt =====
-- Which events start an evaluation: ofborg/src/tasks/evaluationfilter.rs.
use ofborg.Base.{
  true, Option, none, some, [], ◌∷◌, Text, text, ◌≡◌, refl, ◌⊎◌, inl, inr, arith, Occurs, contains,
  contains_iff, Option-cases, Bool-cases, ◌≢◌,
}
use ofborg.GhEvent.{
  PullRequestState, open_state, PullRequestAction, opened, edited_pr, reopened, synchronize,
  PullRequestChanges, BaseChange, PullRequestEvent,
}
use ofborg.Message.{Payload, evaluation_job}
use ofborg.Access.{Acl, is_repo_eligible}
use ofborg.Worker.{ack, publish_serde_action}
use ofborg.Worker.Settled.{EndsInAck}
use ofborg.EvaluationFilter.{evaluation_of, interesting, consumer}

-- The events that can change the outcome: the pull request appears, gets new commits, or is moved
-- to another base.
abbrev pub ChangesCode : PullRequestAction → Option PullRequestChanges → Type 0
ChangesCode action changes =
    (action ≡ opened)
    ⊎ (action ≡ reopened)
    ⊎ (action ≡ synchronize)
    ⊎ ((action ≡ edited_pr)
        × ((c : PullRequestChanges) × (b : BaseChange) × (changes ≡ some c) × (c.base ≡ some b)))

ChangesCode-interesting :
    (action : PullRequestAction) (changes : Option PullRequestChanges)
    → ChangesCode action changes
    → interesting action changes ≡ true
unfolding interesting
ChangesCode-interesting action changes h = ground arith

interesting-ChangesCode :
    (action : PullRequestAction) (changes : Option PullRequestChanges)
    → interesting action changes ≡ true
    → ChangesCode action changes
unfolding interesting
interesting-ChangesCode edited_pr (some c) h = elim (Option-cases c.base) [
  | inl e ↦ absurd (ground arith)
  | inr (b, e) ↦ inr (inr (inr (refl, (c, b, refl, e))))
]
interesting-ChangesCode _ changes h = ground arith

module _ (lower : Text → Text) (to_json : Payload → Text) (acl : Acl) (job : PullRequestEvent) where
  abbrev pub IsWanted : Type 0
  IsWanted =
      Occurs (lower job.repository.full_name) acl.repos
      × (job.pull_request.state ≡ open_state)
      × ChangesCode job.action job.changes

  -- An event for an eligible repository, on an open pull request, that changes the code or the base,
  -- queues one evaluation of it and is acknowledged.
  consumer_wanted :
      IsWanted
      → consumer lower to_json acl job
        ≡ publish_serde_action to_json none
            (some (text "mass-rebuild-check-jobs"))
            (evaluation_job (evaluation_of job))
          ∷ ack
          ∷ []
  unfolding consumer is_repo_eligible
  consumer_wanted (eligible, is_open, changes) = ground (
    arith,
    contains_iff acl.repos (lower job.repository.full_name),
    ChangesCode-interesting job.action job.changes,
  )

  -- Any other event is acknowledged and starts nothing.
  consumer_unwanted : ¬ IsWanted → consumer lower to_json acl job ≡ ack ∷ []
  unfolding consumer is_repo_eligible
  consumer_unwanted h = ground (
    arith,
    h,
    contains_iff acl.repos (lower job.repository.full_name),
    interesting-ChangesCode job.action job.changes,
  )

  state_cases : (s : PullRequestState) → (s ≡ open_state) ⊎ (s ≢ open_state)
  state_cases s = ground arith

  is_wanted_cases : IsWanted ⊎ (¬ IsWanted)
  is_wanted_cases = elim (Bool-cases (contains acl.repos (lower job.repository.full_name))) [
    | inr h ↦
        inr (λ w. ground (arith, contains_iff acl.repos (lower job.repository.full_name), w.0, h))
    | inl h ↦ elim (state_cases job.pull_request.state) [
      | inr k ↦ inr (λ w. k w.1)
      | inl k ↦ elim (Bool-cases (interesting job.action job.changes)) [
        | inr i ↦ inr (λ w. ground (arith, ChangesCode-interesting job.action job.changes w.2, i))
        | inl i ↦ inl (
          (contains_iff acl.repos (lower job.repository.full_name)).0 h,
          k,
          interesting-ChangesCode job.action job.changes i,
        )
      ]
    ]
  ]

  -- Each event is either for an eligible repository, on an open pull request, and changes the code or
  -- the base: then one evaluation of it is queued and the event is acknowledged; or it is not all of
  -- these: then it is acknowledged and starts nothing.
  pub consumer_decides :
      (IsWanted
        × (consumer lower to_json acl job
            ≡ publish_serde_action to_json none
                (some (text "mass-rebuild-check-jobs"))
                (evaluation_job (evaluation_of job))
              ∷ ack
              ∷ []))
      ⊎ ((¬ IsWanted) × (consumer lower to_json acl job ≡ ack ∷ []))
  consumer_decides = elim is_wanted_cases [
    | inl w ↦ inl (w, consumer_wanted w)
    | inr n ↦ inr (n, consumer_unwanted n)
  ]

  pub consumer-EndsInAck : EndsInAck (consumer lower to_json acl job)
  unfolding consumer publish_serde_action
  consumer-EndsInAck = ground arith
