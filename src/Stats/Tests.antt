-- ===== src/Stats/Tests.antt =====
-- A collector of two kinds of events.
use ofborg.Base.{
  ℕ, ◌+◌, ◌%◌, ◌^◌, Bool, true, false, Option, none, some, List, [], ◌∷◌, Text, text, text_eq, ◌==◌,
  ◌≡◌, refl, arith, if◌then◌else◌,
}
use ofborg.Worker.{Call}
use ofborg.Metrics.{MetricType, ticker, counter, metric_of}
use ofborg.Stats.{EventMessage, SysEvents, StatCollectorWorker}
use ofborg.Stats.Recorded.{
  Event, MetricCollector, count, generated, record_event, accumulate, plus_u64, same_key, key_of,
  value_of,
}
use ofborg.Stats.Counting.{handled, amount_in_all, handled_counts}

abbrev received : MetricType
received = ticker (record {
  variant = text "JobReceived";
  fields = [];
  metric_name = text "job_received";
  description = text "Number of received worker jobs";
})

abbrev duration : MetricType
duration = counter (record {
  variant = text "EvaluationDuration";
  fields = (text "branch", text "String") ∷ [];
  metric_name = text "evaluation_duration";
  description = text "Amount of time spent running evaluations";
})

abbrev a_job : Event
a_job = record { metric = received; index = []; value = 0 }

abbrev a_while : Text → Event
a_while branch = record { metric = duration; index = branch ∷ []; value = 12 }

-- The second evaluation of a branch, and an overflow with and without the check.
recorded :
    (record_event true
        (text "w")
        (a_while (text "master"))
        ((text "evaluation_duration" ∷ text "master" ∷ text "w" ∷ [], 30) ∷ [])
      ≡ some ((text "evaluation_duration" ∷ text "master" ∷ text "w" ∷ [], 42) ∷ []))
    × (plus_u64 true 18446744073709551615 1 ≡ none)
    × (plus_u64 false 18446744073709551615 1 ≡ some 0)
unfolding record_event accumulate plus_u64 same_key key_of value_of metric_of text text_eq
recorded = (refl, refl, refl)

abbrev sink : SysEvents Event (List Event)
sink = record { notify = λ e v. some (e ∷ v) }

-- A body in brackets is a message of two events, one in quotes an event.
abbrev message : Text → Option (EventMessage Event)
message [] = none
message (c ∷ rest) =
    if c == b'['
    then some (record { sender = text "builder"; events = a_job ∷ a_while rest ∷ [] })
    else none

abbrev event : Text → Option Event
event (q ∷ c ∷ rest) = if c == b'!' then none else some a_job
event _ = none

abbrev accepts : Call → Bool
accepts c = true

abbrev begin : StatCollectorWorker (List Event) MetricCollector
begin = record { events = []; collector = [] }

abbrev bodies : List (ℕ × Text)
bodies = (1, text "[a") ∷ (2, text "b") ∷ (3, text "!") ∷ []

handled_counts_example :
    (s' : StatCollectorWorker (List Event) MetricCollector) × (handled sink
        (generated false a_while a_job)
        message
        event
        accepts
        begin
        bodies
      ≡ some s')
    × ((k : List Text)
        → count k s'.collector ≡ (count k [] + amount_in_all message event k bodies) % 2 ^ 64)
handled_counts_example =
    handled_counts sink message event accepts a_while a_job (λ e v. (e ∷ v, refl)) (λ tag. refl)
      begin bodies (λ k. unfold count in omega arith)
