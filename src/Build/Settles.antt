-- ===== src/Build/Settles.antt =====
-- How a builder settles its jobs: ofborg/src/tasks/build.rs.
use ofborg.Base.{
  ℕ, Bool, true, false, Option, none, List, [], ◌∷◌, ◌++◌, Text, text, unwrap_or, refl, arith, All,
  inl, inr, is_empty, Option-cases, Bool-cases,
}
use ofborg.Message.{BuildJob, v1, failure, Payload, build_result}
use ofborg.Worker.{
  Actions, ack, nack_requeue, nack_dump, publish, publish_serde_action, Call, call_of, perform,
}
use ofborg.Worker.Settled.{EndsInAck, IsPublish, IsSettled, perform-IsSettled}
use ofborg.Worker.Notify.{reported, notify_delivery}
use ofborg.Build.{
  JobActions, new_actions, body_for, tell, tell_log, tell_result, tell_both, commit_missing,
  nothing_to_do, merge_failed, log_started, log_line, log_lines, log_instantiation_errors,
  build_not_attempted, build_finished,
}
use ofborg.Nix.{File}
use ofborg.Build.Run.{
  Machine, checkout_origin_ref, Ending, returned, panicked, attempt, merged, consumer,
  partition_attrs, buildfile,
}

-- Messages alone.
abbrev AreMessages : Actions → Type 0
AreMessages [] = Unit
AreMessages (publish msg ∷ rest) = AreMessages rest
AreMessages (_ ∷ rest) = ⊥

AreMessages-append : (xs ys : Actions) → AreMessages xs → AreMessages ys → AreMessages (xs ++ ys)
AreMessages-append [] ys h k = k
AreMessages-append (publish msg ∷ xs) ys h k = AreMessages-append xs ys h k
AreMessages-append (ack ∷ xs) ys h k = h
AreMessages-append (nack_requeue ∷ xs) ys h k = h
AreMessages-append (nack_dump ∷ xs) ys h k = h

EndsInAck-append : (xs : Actions) → AreMessages xs → EndsInAck (xs ++ ack ∷ [])
EndsInAck-append [] h = refl
EndsInAck-append (publish msg ∷ xs) h = EndsInAck-append xs h
EndsInAck-append (ack ∷ xs) h = absurd h
EndsInAck-append (nack_requeue ∷ xs) h = absurd h
EndsInAck-append (nack_dump ∷ xs) h = absurd h

-- Nothing is settled yet.
record IsOpen (a : JobActions) : Type 0 where
  messages : AreMessages a.told

new_actions-IsOpen :
    (system identity : Text) (job : BuildJob) (uuid : Text)
    → IsOpen (new_actions system identity job uuid)
unfolding new_actions
new_actions-IsOpen system identity job uuid = record { messages = tt }

nothing_to_do-EndsInAck : (a : JobActions) → IsOpen a → EndsInAck (nothing_to_do a).told
unfolding nothing_to_do tell
nothing_to_do-EndsInAck a h = EndsInAck-append a.told h.messages

reported-IsSettled :
    (accepts : Call → Bool) (tag : ℕ) (told : Actions)
    → EndsInAck told
    → IsSettled tag (reported accepts tag (told, true))
unfolding reported
reported-IsSettled accepts tag told h = elim (perform-IsSettled accepts tag told h) [
  | inl (e, calls) ↦ inl (rw e refl, calls)
  | inr (e, all) ↦ inr (rw e refl, all)
]

perform-AreMessages :
    (accepts : Call → Bool) (tag : ℕ) (told : Actions)
    → AreMessages told
    → All IsPublish (perform accepts tag told).calls
unfolding perform call_of
perform-AreMessages accepts tag [] h = tt
perform-AreMessages accepts tag (publish msg ∷ rest) h =
    elim (Bool-cases (accepts (call_of tag (publish msg)))) [
      | inl e ↦ rw (e, perform) (tt, perform-AreMessages accepts tag rest h)
      | inr e ↦ rw (e, perform) tt
    ]
perform-AreMessages accepts tag (ack ∷ rest) h = absurd h
perform-AreMessages accepts tag (nack_requeue ∷ rest) h = absurd h
perform-AreMessages accepts tag (nack_dump ∷ rest) h = absurd h

module _ (to_json : Payload → Text) where
  tell_log-IsOpen : (msg : Payload) (a : JobActions) → IsOpen a → IsOpen (tell_log to_json msg a)
  unfolding tell_log publish_serde_action
  tell_log-IsOpen msg a h = record { messages = AreMessages-append a.told _ h.messages tt }

  tell_result-IsOpen :
      (msg : Payload) (a : JobActions) → IsOpen a → IsOpen (tell_result to_json msg a)
  unfolding tell_result publish_serde_action
  tell_result-IsOpen msg a h = record { messages = AreMessages-append a.told _ h.messages tt }

  log_line-IsOpen : (line : Text) (a : JobActions) → IsOpen a → IsOpen (log_line to_json line a)
  unfolding log_line tell_log publish_serde_action
  log_line-IsOpen line a h = record { messages = AreMessages-append a.told _ h.messages tt }

  log_lines-IsOpen : (ls : List Text) (a : JobActions) → IsOpen a → IsOpen (log_lines to_json ls a)
  unfolding log_lines
  log_lines-IsOpen [] a h = h
  log_lines-IsOpen (line ∷ ls) a h =
      log_lines-IsOpen ls (log_line to_json line a) (log_line-IsOpen line a h)

  errors-IsOpen :
      (l : List (Text × List Text)) (a : JobActions)
      → IsOpen a
      → IsOpen (log_instantiation_errors to_json l a)
  unfolding log_instantiation_errors
  errors-IsOpen [] a h = h
  errors-IsOpen ((attr, log) ∷ rest) a h =
      errors-IsOpen rest _ (log_line-IsOpen _ _ (log_lines-IsOpen log _ (log_line-IsOpen _ a h)))

  tell_both-EndsInAck :
      (msg : Payload) (a : JobActions) → IsOpen a → EndsInAck (tell_both to_json msg a).told
  unfolding tell_both
  tell_both-EndsInAck msg a h =
      let b = tell_result to_json msg a in
      EndsInAck-append (tell_log to_json msg b).told
        (tell_log-IsOpen msg b (tell_result-IsOpen msg a h)).messages

  merge_failed-EndsInAck : (a : JobActions) → IsOpen a → EndsInAck (merge_failed to_json a).told
  unfolding merge_failed tell
  merge_failed-EndsInAck a h =
      let msg = build_result (v1 (body_for a (text "Merge failed" ∷ []) none none) failure) in
      EndsInAck-append (tell_result to_json msg a).told (tell_result-IsOpen msg a h).messages

  module _ (m : Machine) where
    -- The acknowledgement comes last, if the consumer returns, and nothing is settled before a panic.
    Closes : Ending → Type 0
    Closes (returned a) = EndsInAck a.told
    Closes (panicked a) = IsOpen a

    attempt-Closes :
        (file : File) (refpath : Text) (can : List Text) (errors : List (Text × List Text))
        (a : JobActions)
        → IsOpen a
        → Closes (attempt to_json m file refpath can errors a)
    unfolding attempt build_not_attempted build_finished log_started Closes
    attempt-Closes file refpath [] errors a h =
        tell_both-EndsInAck _ _ (errors-IsOpen errors _ (tell_log-IsOpen _ a h))
    attempt-Closes file refpath (first ∷ others) errors a h =
        let noted = errors-IsOpen errors _ (tell_log-IsOpen _ a h) in
        elim (Option-cases (m.build_attrs refpath file (first ∷ others))) [
          | inl e ↦ rw (e, attempt) noted
          | inr ((output, waited), e) ↦
              rw (e, attempt) (tell_both-EndsInAck _ _ (log_lines-IsOpen output _ noted))
        ]

    merged-Closes :
        (refpath : Text) (a : JobActions) → IsOpen a → Closes (merged to_json m refpath a)
    unfolding merged commit_missing merge_failed tell Closes
    merged-Closes refpath a h = elim (Option-cases (m.commit_exists a.job.pr.head_sha)) [
      | inl e ↦ rw (e, merged) h
      | inr (false, e) ↦ rw (e, merged) (EndsInAck-append a.told h.messages)
      | inr (true, e) ↦ elim (Bool-cases (m.merge_commit a.job.pr.head_sha)) [
        | inr f ↦ rw (e, f, merged) (merge_failed-EndsInAck a h)
        | inl f ↦
            elim (Option-cases (partition_attrs m refpath (buildfile a.job.subset) a.job.attrs)) [
              | inl g ↦ rw (e, f, g, merged) h
              | inr ((can, errors), g) ↦
                  rw (e, f, g, merged)
                    (attempt-Closes (buildfile a.job.subset) refpath can errors a h)
            ]
      ]
    ]

    consumer-Closes : (a : JobActions) → IsOpen a → Closes (consumer to_json m a)
    unfolding consumer Closes
    consumer-Closes a h = elim (Bool-cases (is_empty a.job.attrs)) [
      | inl f ↦ rw (f, consumer) (nothing_to_do-EndsInAck a h)
      | inr f ↦ elim (Bool-cases (m.clone_for a.job.repo.full_name a.job.repo.clone_url)) [
        | inr g ↦ rw (f, g, consumer) h
        | inl g ↦
            elim (Option-cases
              (checkout_origin_ref m (unwrap_or a.job.pr.target_branch (text "origin/master")))) [
                | inl e ↦ rw (f, g, e, consumer) h
                | inr (refpath, e) ↦ elim (Bool-cases (m.fetch_pr a.job.pr.number)) [
                  | inr k ↦ rw (f, g, e, k, consumer) h
                  | inl k ↦ rw (f, g, e, k, consumer) (merged-Closes refpath a h)
                ]
              ]
      ]
    ]

    -- What the consumer tells, and whether it returns.
    abbrev pub outcome : Ending → Actions × Bool
    outcome (panicked a) = (a.told, false)
    outcome (returned a) = (a.told, true)

    outcome-IsSettled :
        (accepts : Call → Bool) (tag : ℕ) (ending : Ending)
        → Closes ending
        → IsSettled tag (reported accepts tag (outcome ending))
    unfolding Closes
    outcome-IsSettled accepts tag (returned a) h = reported-IsSettled accepts tag a.told h
    outcome-IsSettled accepts tag (panicked a) h = inr (
      unfold reported in ground arith,
      unfold reported in perform-AreMessages accepts tag a.told h.messages,
    )

    -- However the builder fares with a job, and whatever the broker refuses: if all of its calls are
    -- made, the last one acknowledges the job and no other settles it; if it breaks off, at a job
    -- that does not decode, at a failure of git, at a command that cannot be run or at a refused
    -- call, nothing settles the job, whatever was told by then.
    pub notify_delivery-IsSettled :
        (accepts : Call → Bool) (from_json : Text → Option BuildJob) (system identity uuid : Text)
        (tag : ℕ) (body : Text)
        → IsSettled tag (
            notify_delivery accepts from_json
              (λ job. outcome (consumer to_json m (new_actions system identity job uuid)))
              tag
              body)
    unfolding notify_delivery
    notify_delivery-IsSettled accepts from_json system identity uuid tag body =
        elim (Option-cases (from_json body)) [
          | inl e ↦ rw (e, notify_delivery) (inr (refl, tt))
          | inr (job, e) ↦
              rw (e, notify_delivery)
                (outcome-IsSettled accepts tag _ (
                  consumer-Closes (new_actions system identity job uuid)
                    (new_actions-IsOpen system identity job uuid)))
        ]
