-- ===== src/Worker/Notify.antt =====
-- Handling a delivery while reporting: ofborg/src/notifyworker.rs. Each action is called as it is
-- told, and a refused call panics in the middle of the consumer; so the calls are those of
-- Worker.perform for the actions that the consumer would tell.
use ofborg.Base.{ℕ, Bool, false, Option, none, some, [], Text, ◌&&◌}
use ofborg.Worker.{Actions, Call, Delivery, perform}

-- The actions that the consumer tells, and whether it returns.
unfoldable pub reported : (Call → Bool) → ℕ → Actions × Bool → Delivery
reported accepts tag (told, returns) =
    let d = perform accepts tag told in record d { completed = d.completed && returns }

-- `msg_to_job` gives `none` where its result cannot be unwrapped.
unfoldable pub notify_delivery :
    {J : Type 0} → (Call → Bool) → (Text → Option J) → (J → Actions × Bool) → ℕ → Text → Delivery
unfolding reported
notify_delivery accepts msg_to_job consumer tag body = elim (msg_to_job body) [
  | none ↦ record { calls = []; completed = false }
  | some job ↦ reported accepts tag (consumer job)
]
