-- ===== src/CommentFilter/Delivery.antt =====
-- Handling the delivery of a comment: ofborg/src/tasks/githubcommentfilter.rs under
-- ofborg/src/worker.rs.
use ofborg.Base.{ℕ, Bool, Option, none, some, ◌≡◌, Text, Result, ok, subst, arith}
use ofborg.GhEvent.{IssueComment}
use ofborg.Access.{Acl}
use ofborg.Worker.{Actions, Call, handle_delivery}
use ofborg.Worker.Settled.{EndsInAck, IsSettled, handle_delivery-IsSettled}
use ofborg.CommentFilter.{Parsed, Services, consumer}
use ofborg.CommentFilter.Jobs.{consumer-EndsInAck}

-- `msg_to_job` panics on a body that does not decode. The worker keeps no state.
unfoldable pub msg_to_job :
    (Text → Option IssueComment) → Unit {0} → Text → Option (Unit {0} × Result IssueComment Text)
msg_to_job from_json s body = elim (from_json body) [ none ↦ none | some job ↦ some (tt, ok job) ]

module _ (env : Services) (parse_line_impl : Text → Parsed) (acl : Acl) where
  abbrev pub run : Unit {0} → IssueComment → Option (Unit {0} × Actions)
  run s job = some (s, consumer env parse_line_impl acl job)

  pub EndsInAck-run :
      (s : Unit {0}) (job : IssueComment) (s' : Unit {0}) (actions : Actions)
      → run s job ≡ some (s', actions)
      → EndsInAck actions
  EndsInAck-run s job s' actions e =
      let same : consumer env parse_line_impl acl job ≡ actions = ground arith in
      subst EndsInAck same (consumer-EndsInAck env parse_line_impl acl job)

  -- Every delivery of a comment that is handled to its end makes its publications and then
  -- acknowledges, once; one that breaks off, at a body that does not decode or at a call that the
  -- broker refuses, acknowledges nothing.
  comment_delivery-IsSettled :
      (accepts : Call → Bool) (from_json : Text → Option IssueComment) (tag : ℕ) (body : Text)
      → IsSettled tag (handle_delivery accepts (msg_to_job from_json) run tt tag body).0
  comment_delivery-IsSettled accepts from_json tag body =
      handle_delivery-IsSettled accepts (msg_to_job from_json) run EndsInAck-run tt tag body
