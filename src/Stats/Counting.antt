-- ===== src/Stats/Counting.antt =====
-- What the collector counts: ofborg/src/tasks/statscollector.rs under ofborg/src/worker.rs.
use ofborg.Base.{
  ℕ, ◌+◌, ◌%◌, ◌^◌, ◌<◌, Bool, true, false, Option, none, some, List, [], ◌∷◌, ◌++◌, Text, text, ok,
  ◌≡◌, refl, ap, ◌∙◌, arith,
}
use ofborg.Worker.{Call, basic_ack, handle_delivery}
use ofborg.Worker.Acked.{handle_delivery_acks, handle_delivery_drops}
use ofborg.Stats.Recorded.{Event, MetricCollector, generated, count, amount, record_event_lem}
use ofborg.Stats.{
  Decoded, EventMessage, Metrics, SysEvents, StatCollectorWorker, msg_to_job, legacy_msg_to_job,
  record_each, consumer,
}

plus_plus : (a b s : ℕ) → ((a + b) % 2 ^ 64 + s) % 2 ^ 64 ≡ (a + (b + s)) % 2 ^ 64
plus_plus a b s = omega arith

small : (a : ℕ) → a < 2 ^ 64 → a ≡ (a + 0) % 2 ^ 64
small a h = omega arith

-- The deliveries, each with its tag, one after the other, until the worker panics.
module _ {V : Type 0} (sink : SysEvents Event V) (metrics : Metrics Event MetricCollector)
    (from_slice : Text → Option (EventMessage Event)) (event_from_slice : Text → Option Event)
    (accepts : Call → Bool) where
  unfoldable pub handled :
      StatCollectorWorker V MetricCollector
      → List (ℕ × Text)
      → Option (StatCollectorWorker V MetricCollector)
  handled s [] = some s
  handled s ((tag, body) ∷ rest) =
      elim (handle_delivery accepts (msg_to_job sink metrics from_slice event_from_slice)
        (consumer metrics) s tag body).1 [ none ↦ none | some s' ↦ handled s' rest ]

-- What the events of a sender add to the count of a key.
unfoldable pub amount_of : List Text → Text → List Event → ℕ
amount_of k sender [] = 0
amount_of k sender (e ∷ es) = amount k sender e + amount_of k sender es

module _ (from_slice : Text → Option (EventMessage Event))
    (event_from_slice : Text → Option Event) where
  -- What a body adds to it: a message of events, or a single event of the older kind, which has no
  -- sender, or nothing.
  unfoldable pub amount_in : List Text → Text → ℕ
  amount_in k body = elim (from_slice body) [
    | some m ↦ amount_of k m.sender m.events
    | none ↦ elim (event_from_slice (b'"' ∷ (body ++ b'"' ∷ []))) [
      | some e ↦ amount_of k [] (e ∷ [])
      | none ↦ 0
    ]
  ]

  unfoldable pub amount_in_all : List Text → List (ℕ × Text) → ℕ
  amount_in_all k [] = 0
  amount_in_all k (d ∷ rest) = amount_in k d.1 + amount_in_all k rest

module _ {V : Type 0} (sink : SysEvents Event V) (from_slice : Text → Option (EventMessage Event))
    (event_from_slice : Text → Option Event) (accepts : Call → Bool) (legacy : Text → Event)
    (bogus : Event) (reports : (e : Event) (v : V) → (v' : V) × (sink.notify e v ≡ some v'))
    (acked : (tag : ℕ) → accepts (basic_ack tag false) ≡ true) where
  abbrev Worker : Type 0
  Worker = StatCollectorWorker V MetricCollector

  abbrev metrics : Metrics Event MetricCollector
  metrics = generated false legacy bogus

  abbrev decode : Worker → Text → Decoded sink metrics from_slice event_from_slice
  decode = msg_to_job sink metrics from_slice event_from_slice

  -- All counts are of 64 bits.
  abbrev Bounded : MetricCollector → Type 0
  Bounded c = (k : List Text) → count k c < 2 ^ 64

  -- Every count grows by its amount.
  abbrev Grows : MetricCollector → MetricCollector → (List Text → ℕ) → Type 0
  Grows c c' by = (k : List Text) → count k c' ≡ (count k c + by k) % 2 ^ 64

  Grows-Bounded : (c c' : MetricCollector) (by : List Text → ℕ) → Grows c c' by → Bounded c'
  Grows-Bounded c c' by g k = omega (arith, g k)

  record_each-Grows :
      (sender : Text) (es : List Event) (c : MetricCollector)
      → Bounded c
      → (c' : MetricCollector) × (record_each metrics sender es c ≡ some c')
        × Grows c c' (λ k. amount_of k sender es)
  unfolding record_each amount_of generated
  record_each-Grows sender [] c h = (c, refl, λ k. small (count k c) (h k))
  record_each-Grows sender (e ∷ es) c h =
      let r = record_event_lem sender e c h in
      let ih = record_each-Grows sender es r.0 (Grows-Bounded c r.0 (λ k. amount k sender e) r.2) in
      (
        ih.0,
        rw (r.1, record_each) ih.1,
        λ k.
            ih.2 k
            ∙ ap (λ n. (n + amount_of k sender es) % 2 ^ 64) (r.2 k)
            ∙ plus_plus (count k c) (amount k sender e) (amount_of k sender es),
      )

  Handles : Worker → ℕ → Text → Type 0
  Handles s tag body =
      (s' : Worker) × ((handle_delivery accepts decode (consumer metrics) s tag body).1 ≡ some s')
      × Grows s.collector s'.collector (λ k. amount_in from_slice event_from_slice k body)

  handles_job :
      (s t : Worker) (tag : ℕ) (body : Text) (job : EventMessage Event)
      → Bounded s.collector
      → decode s body ≡ some (t, ok job)
      → t.collector ≡ s.collector
      → ((k : List Text)
          → amount_of k job.sender job.events ≡ amount_in from_slice event_from_slice k body)
      → Handles s tag body
  unfolding Handles consumer
  handles_job s t tag body job h d same total =
      let r = record_each-Grows job.sender job.events s.collector h in
      (
        record t { collector = r.0 },
        handle_delivery_acks accepts decode (consumer metrics) tag (acked tag) s t _ body job d
            (rw (consumer, same, r.1) refl),
        λ k. r.2 k ∙ ap (λ n. (count k s.collector + n) % 2 ^ 64) (total k),
      )

  -- An event of the older kind, or none, without a message.
  handles_legacy :
      (s : Worker) (tag : ℕ) (body : Text) (o : Option Event)
      → Bounded s.collector
      → from_slice body ≡ none
      → event_from_slice (b'"' ∷ (body ++ b'"' ∷ [])) ≡ o
      → Handles s tag body
  unfolding msg_to_job legacy_msg_to_job amount_in amount_of Handles generated
  handles_legacy s tag body (some e) h d f =
      let r = reports (legacy (metrics.event_metric_name e)) s.events in
      handles_job s (record s { events = r.0 }) tag body (record { sender = []; events = e ∷ [] }) h
        (rw (msg_to_job, d, f, r.1) refl) refl (λ k. rw (amount_in, d, f) refl)
  handles_legacy s tag body none h d f =
      let r = reports bogus s.events in
      (
        record s { events = r.0 },
        handle_delivery_drops accepts decode (consumer metrics) tag (acked tag) s
            (record s { events = r.0 }) body (text "Failed to decode message")
            (rw (msg_to_job, d, f, r.1) refl),
        λ k. rw (amount_in, d, f) (small (count k s.collector) (h k)),
      )

  handles : (s : Worker) (tag : ℕ) (body : Text) → Bounded s.collector → Handles s tag body
  unfolding msg_to_job legacy_msg_to_job amount_in
  handles s tag body h = go (from_slice body) refl
    where
      go : (o : Option (EventMessage Event)) → from_slice body ≡ o → Handles s tag body
      go (some job) e =
          handles_job s s tag body job h (rw (msg_to_job, e) refl) refl
            (λ k. rw (amount_in, e) refl)
      go none e = handles_legacy s tag body (event_from_slice (b'"' ∷ (body ++ b'"' ∷ []))) h e refl

  -- Where overflow is not checked for, and every report and every acknowledgement goes through:
  -- whatever bodies are delivered to a collector whose counts are of 64 bits, it handles them all, and
  -- in the end the count of each key has grown, in 64 bits, by what the events of these bodies add to
  -- it: those of a message for its sender, a single event of the older kind for the empty one, and
  -- nothing for a body that is neither. An event adds 1 to the key of its metric, its fields and the
  -- sender, or its value if it is a counter.
  pub handled_counts :
      (s : StatCollectorWorker V MetricCollector) (ds : List (ℕ × Text))
      → ((k : List Text) → count k s.collector < 2 ^ 64)
      → (s' : StatCollectorWorker V MetricCollector) × (handled sink
            (generated false legacy bogus)
            from_slice
            event_from_slice
            accepts
            s
            ds
          ≡ some s')
        × ((k : List Text)
            → count k s'.collector
              ≡ (count k s.collector + amount_in_all from_slice event_from_slice k ds) % 2 ^ 64)
  unfolding handled amount_in_all Handles
  handled_counts s [] h = (s, refl, λ k. small (count k s.collector) (h k))
  handled_counts s ((tag, body) ∷ rest) h =
      let now : Handles s tag body = handles s tag body h in
      let r = handled_counts now.0 rest (
        Grows-Bounded s.collector now.0.collector
          (λ k. amount_in from_slice event_from_slice k body) now.2) in
      (
        r.0,
        rw (handled, now.1) r.1,
        λ k.
            r.2 k
            ∙ ap (λ n. (n + amount_in_all from_slice event_from_slice k rest) % 2 ^ 64) (now.2 k)
            ∙ plus_plus (count k s.collector) (amount_in from_slice event_from_slice k body)
                (amount_in_all from_slice event_from_slice k rest),
      )
