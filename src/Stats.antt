-- ===== src/Stats.antt =====
-- The events that the workers report and the worker that counts them: ofborg/src/stats.rs and
-- ofborg/src/tasks/statscollector.rs.
pub mod Recorded
pub mod Counting
mod Tests
use ofborg.Base.{
  ℕ, Bool, true, false, Option, none, some, List, [], ◌∷◌, ◌++◌, Text, text, Result, ok, err,
  if◌then◌else◌,
}
use ofborg.Worker.{Call, basic_publish, Actions, ack}

-- E is the enumeration of events, which the build writes.
pub record EventMessage (E : Type 0) : Type 0 where
  pub sender : Text
  pub events : List E

-- What the build writes for the events: their names, two of them, and the recording of an event of a
-- sender in the collector, whose state is C; none is a panic. Stats.Recorded has it for the metrics.
pub record Metrics (E C : Type 0) : Type 0 where
  pub event_metric_name : E → Text
  pub stat_collector_legacy_event : Text → E
  pub stat_collector_bogus_event : E
  pub record_event : Text → E → C → Option C

-- `SysEvents`, with its state V; a panic is none.
pub record SysEvents (E V : Type 0) : Type 0 where
  pub notify : E → V → Option V

pub record RabbitMq : Type 0 where
  pub identity : Text
  pub channel : List Call

module _ {E : Type 0} (accepts : Call → Bool) (to_json : EventMessage E → Text) where
  abbrev publication : Text → E → Call
  publication identity event =
      basic_publish (text "stats") [] false false (record { content_type = none })
        (to_json (record { sender = identity; events = event ∷ [] }))

  -- The channel is the list of the calls that were made on it, a refused one stops the program.
  unfoldable pub notify_broker : E → RabbitMq → Option RabbitMq
  notify_broker event r =
      if accepts (publication r.identity event)
      then some (record r { channel = r.channel ++ publication r.identity event ∷ [] })
      else none

  unfoldable pub broker : SysEvents E RabbitMq
  broker = record { notify = notify_broker }

pub record StatCollectorWorker (V C : Type 0) : Type 0 where
  pub events : V
  pub collector : C

-- `from_slice` and `event_from_slice` are serde_json's two readings.
module _ {E V C : Type 0} (sink : SysEvents E V) (metrics : Metrics E C)
    (from_slice : Text → Option (EventMessage E)) (event_from_slice : Text → Option E) where
  abbrev pub Decoded : Type 0
  Decoded = Option (StatCollectorWorker V C × Result (EventMessage E) Text)

  abbrev told : StatCollectorWorker V C → Result (EventMessage E) Text → Option V → Decoded
  told s result none = none
  told s result (some v) = some (record s { events = v }, result)

  unfoldable pub legacy_msg_to_job : StatCollectorWorker V C → Option E → Decoded
  legacy_msg_to_job s (some e) =
      told s (ok (record { sender = []; events = e ∷ [] }))
        (sink.notify (metrics.stat_collector_legacy_event (metrics.event_metric_name e)) s.events)
  legacy_msg_to_job s none =
      told s (err (text "Failed to decode message"))
        (sink.notify metrics.stat_collector_bogus_event s.events)

  unfoldable pub msg_to_job : StatCollectorWorker V C → Text → Decoded
  unfolding legacy_msg_to_job
  msg_to_job s body = elim (from_slice body) [
    | some e ↦ some (s, ok e)
    | none ↦ legacy_msg_to_job s (event_from_slice (b'"' ∷ (body ++ b'"' ∷ [])))
  ]

module _ {E C : Type 0} (metrics : Metrics E C) where
  unfoldable pub record_each : Text → List E → C → Option C
  record_each sender [] c = some c
  record_each sender (e ∷ es) c = elim (metrics.record_event sender e c) [
    | none ↦ none
    | some next ↦ record_each sender es next
  ]

  unfoldable pub consumer :
      {V : Type 0}
      → StatCollectorWorker V C
      → EventMessage E
      → Option (StatCollectorWorker V C × Actions)
  unfolding record_each
  consumer s job = elim (record_each job.sender job.events s.collector) [
    | none ↦ none
    | some c ↦ some (record s { collector = c }, ack ∷ [])
  ]
