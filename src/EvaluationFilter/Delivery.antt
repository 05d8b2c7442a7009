-- ===== src/EvaluationFilter/Delivery.antt =====
-- Handling the delivery of a pull request event: ofborg/src/tasks/evaluationfilter.rs under
-- ofborg/src/worker.rs.
use ofborg.Base.{ℕ, Bool, Option, some, ◌≡◌, Text, Result, subst, arith}
use ofborg.GhEvent.{PullRequestEvent}
use ofborg.Message.{Payload}
use ofborg.Access.{Acl}
use ofborg.Worker.{Actions, Call, handle_delivery}
use ofborg.Worker.Settled.{EndsInAck, IsSettled, handle_delivery-IsSettled}
use ofborg.EvaluationFilter.{consumer}
use ofborg.EvaluationFilter.Interest.{consumer-EndsInAck}

-- A body that does not decode is an error, by its text. The worker keeps no state.
unfoldable pub msg_to_job :
    (Text → Result PullRequestEvent Text)
    → Unit {0}
    → Text
    → Option (Unit {0} × Result PullRequestEvent Text)
msg_to_job from_json s body = some (s, from_json body)

module _ (lower : Text → Text) (to_json : Payload → Text) (acl : Acl) where
  abbrev pub run : Unit {0} → PullRequestEvent → Option (Unit {0} × Actions)
  run s job = some (s, consumer lower to_json acl job)

  EndsInAck-run :
      (s : Unit {0}) (job : PullRequestEvent) (s' : Unit {0}) (actions : Actions)
      → run s job ≡ some (s', actions)
      → EndsInAck actions
  EndsInAck-run s job s' actions e =
      let same : consumer lower to_json acl job ≡ actions = ground arith in
      subst EndsInAck same (consumer-EndsInAck lower to_json acl job)

  -- Every delivery of a pull request event that is handled to its end makes its publications and then
  -- acknowledges, once, a body that does not decode included; one that breaks off, at a call that the
  -- broker refuses, acknowledges nothing.
  event_delivery-IsSettled :
      (accepts : Call → Bool) (from_json : Text → Result PullRequestEvent Text) (tag : ℕ)
      (body : Text)
      → IsSettled tag (handle_delivery accepts (msg_to_job from_json) run tt tag body).0
  event_delivery-IsSettled accepts from_json tag body =
      handle_delivery-IsSettled accepts (msg_to_job from_json) run EndsInAck-run tt tag body
