-- ===== src/Worker.antt =====
-- What a worker asks of the broker, and how a delivery is handled: ofborg/src/worker.rs.
pub mod Settled
pub mod Acked
pub mod Notify
use ofborg.Base.{
  ℕ, Bool, true, false, Option, none, some, List, [], ◌∷◌, Text, text, Result, ok, err, unwrap_or,
  if◌then◌else◌,
}
use ofborg.Message.{Payload}

-- The one property that the workers set; the others keep the broker library's defaults.
pub record BasicProperties : Type 0 where
  pub content_type : Option Text

pub record QueueMsg : Type 0 where
  pub exchange : Option Text
  pub routing_key : Option Text
  pub mandatory : Bool
  pub immediate : Bool
  pub properties : Option BasicProperties
  pub content : Text

pub data Action : Type 0 where
  ack nack_requeue nack_dump : Action
  publish : QueueMsg → Action

abbrev pub Actions : Type 0
Actions = List Action

-- `to_json` is serde_json's encoding.
unfoldable pub publish_serde_action :
    (Payload → Text) → Option Text → Option Text → Payload → Action
publish_serde_action to_json exchange routing_key msg = publish record {
  exchange = exchange;
  routing_key = routing_key;
  mandatory = false;
  immediate = false;
  properties = some (record { content_type = some (text "application/json") });
  content = to_json msg;
}

-- The calls on `amqp::Channel`, with their arguments.
pub data Call : Type 0 where
  basic_ack : (delivery_tag : ℕ) (multiple : Bool) → Call
  basic_nack : (delivery_tag : ℕ) (multiple requeue : Bool) → Call
  basic_publish :
      (exchange routing_key : Text) (mandatory immediate : Bool) (properties : BasicProperties)
      (content : Text)
      → Call

-- One arm of the match in `handle_delivery`, and in `ChannelNotificationReceiver::tell`.
unfoldable pub call_of : ℕ → Action → Call
call_of tag ack = basic_ack tag false
call_of tag nack_requeue = basic_nack tag false true
call_of tag nack_dump = basic_nack tag false false
call_of tag (publish msg) =
    basic_publish (unwrap_or msg.exchange (text "")) (unwrap_or msg.routing_key (text ""))
      msg.mandatory msg.immediate (unwrap_or msg.properties (record { content_type = none }))
      msg.content

-- The calls that were made, and whether the handler came to its end: an `unwrap` on a call that the
-- broker refuses panics, and the refused call is not among them.
pub record Delivery : Type 0 where
  pub calls : List Call
  pub completed : Bool

module _ (accepts : Call → Bool) where
  -- the loop over the consumer's actions
  unfoldable pub perform : ℕ → Actions → Delivery
  perform tag [] = record { calls = []; completed = true }
  perform tag (a ∷ rest) =
      let later = perform tag rest in
      if accepts (call_of tag a)
      then record { calls = call_of tag a ∷ later.calls; completed = later.completed }
      else record { calls = []; completed = false }

  -- `Worker::handle_delivery`, for a worker with state `S` and jobs `J`. Both of the worker's own
  -- functions may panic, which is `none`; the state is then lost with the process.
  module _ {S J : Type 0} where
    run_consumer : (S → J → Option (S × Actions)) → S → ℕ → J → Delivery × Option S
    run_consumer consumer s tag job = elim (consumer s job) [
      | none ↦ (record { calls = []; completed = false }, none)
      | some (s', actions) ↦
          let d = perform tag actions in (d, if d.completed then some s' else none)
    ]

    after_decoding :
        (S → J → Option (S × Actions)) → ℕ → Option (S × Result J Text) → Delivery × Option S
    unfolding run_consumer
    after_decoding consumer tag none = (record { calls = []; completed = false }, none)
    after_decoding consumer tag (some (s, err e)) =
        let d = perform tag (ack ∷ []) in (d, if d.completed then some s else none)
    after_decoding consumer tag (some (s, ok job)) = run_consumer consumer s tag job

    unfoldable pub handle_delivery :
        (S → Text → Option (S × Result J Text))
        → (S → J → Option (S × Actions))
        → S
        → ℕ
        → Text
        → Delivery × Option S
    unfolding after_decoding
    handle_delivery msg_to_job consumer s tag body = after_decoding consumer tag (msg_to_job s body)
