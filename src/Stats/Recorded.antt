-- ===== src/Stats/Recorded.antt =====
-- What the recording of an event does that ofborg/build.rs writes, `MetricCollector::record`: the body
-- of an arm, whose text is Metrics.Generated.record_arm.
use ofborg.Base.{
  ℕ, ◌+◌, ◌%◌, ◌^◌, ◌<◌, Bool, true, false, ◌&&◌, Option, none, some, List, [], ◌∷◌, ◌++◌, Text,
  text_eq, text_eq_iff, ltb, if◌then◌else◌, ◌≡◌, ◌↔◌, refl, ap, sym, ◌∙◌, arith, Bool-cases, inl,
  inr,
}
use ofborg.Metrics.{MetricType, ticker, counter, metric_of}
use ofborg.Stats.{Metrics}

-- An event: its metric, the fields of its index, and the further field of a counter, a `u64`.
pub record Event : Type 0 where
  pub metric : MetricType
  pub index : List Text
  pub value : ℕ

-- What an event adds.
unfoldable pub value_of : MetricType → ℕ → ℕ
value_of (ticker m) value = 1
value_of (counter m) value = value

-- The tables of the collector as one, under the name of the table and the parts of its key, the last
-- of which is the worker.
abbrev pub MetricCollector : Type 0
MetricCollector = List (List Text × ℕ)

unfoldable pub key_of : Text → Event → List Text
unfolding metric_of
key_of sender e = (metric_of e.metric).metric_name ∷ (e.index ++ sender ∷ [])

unfoldable pub same_key : List Text → List Text → Bool
same_key [] [] = true
same_key (a ∷ ks) (b ∷ bs) = text_eq a b && same_key ks bs
same_key _ _ = false

-- `+=` on `u64`, which panics on overflow where the build checks for it, and wraps around otherwise.
unfoldable pub plus_u64 : (checks : Bool) → ℕ → ℕ → Option ℕ
plus_u64 checks a n =
    if ltb (a + n) (2 ^ 64) then some (a + n) else if checks then none else some ((a + n) % 2 ^ 64)

abbrev put : List Text → Option ℕ → MetricCollector → Option MetricCollector
put k none rest = none
put k (some a) rest = some ((k, a) ∷ rest)

abbrev put_back : List Text → ℕ → Option MetricCollector → Option MetricCollector
put_back q a none = none
put_back q a (some rest) = some ((q, a) ∷ rest)

-- `entry(k).or_insert(0)` and the sum
unfoldable pub accumulate :
    (checks : Bool) → List Text → ℕ → MetricCollector → Option MetricCollector
unfolding plus_u64 same_key
accumulate checks k n [] = put k (plus_u64 checks 0 n) []
accumulate checks k n ((q, a) ∷ rest) =
    let others = accumulate checks k n rest in
    if same_key k q then put q (plus_u64 checks a n) rest else put_back q a others

unfoldable pub record_event :
    (checks : Bool) → Text → Event → MetricCollector → Option MetricCollector
unfolding accumulate key_of value_of
record_event checks sender e c = accumulate checks (key_of sender e) (value_of e.metric e.value) c

unfoldable pub generated : (checks : Bool) → (Text → Event) → Event → Metrics Event MetricCollector
unfolding record_event
generated checks legacy bogus = record {
  event_metric_name = λ e. (metric_of e.metric).metric_name;
  stat_collector_legacy_event = legacy;
  stat_collector_bogus_event = bogus;
  record_event = record_event checks;
}

-- The count under a key, 0 where there is none.
unfoldable pub count : List Text → MetricCollector → ℕ
count k [] = 0
count k ((q, a) ∷ rest) = let later = count k rest in if same_key k q then a else later

-- What an event of a sender adds to it.
unfoldable pub amount : List Text → Text → Event → ℕ
amount k sender e = if same_key k (key_of sender e) then value_of e.metric e.value else 0

pub same_key_iff : (k q : List Text) → (same_key k q ≡ true) ↔ (k ≡ q)
unfolding same_key
same_key_iff [] [] = ground arith
same_key_iff [] (b ∷ bs) = ground arith
same_key_iff (a ∷ ks) [] = ground arith
same_key_iff (a ∷ ks) (b ∷ bs) = ground (arith, text_eq_iff a b, same_key_iff ks bs)

plus_u64_lem : (a n : ℕ) → plus_u64 false a n ≡ some ((a + n) % 2 ^ 64)
unfolding plus_u64
plus_u64_lem a n = ground arith

accumulate_lem :
    (k : List Text) (n : ℕ) (c : MetricCollector)
    → (c' : MetricCollector) × (accumulate false k n c ≡ some c')
      × ((j : List Text)
          → count j c' ≡ (if same_key j k then (count j c + n) % 2 ^ 64 else count j c))
unfolding accumulate count
accumulate_lem k n [] =
    ((k, (0 + n) % 2 ^ 64) ∷ [], ap (λ o. put k o []) (plus_u64_lem 0 n), λ j. ground arith)
accumulate_lem k n ((q, a) ∷ rest) = elim (Bool-cases (same_key k q)) [
  | inl e ↦ (
    (q, (a + n) % 2 ^ 64) ∷ rest,
    rw (accumulate, e) (ap (λ o. put q o rest) (plus_u64_lem a n)),
    λ j. ground (arith, ap (same_key j) ((same_key_iff k q).0 e)),
  )
  | inr e ↦
      let ih = accumulate_lem k n rest in
      (
        (q, a) ∷ ih.0,
        rw (accumulate, e, ih.1) refl,
        λ j.
            ground
              (arith, e, ih.2 j, same_key_iff j q, same_key_iff j k, same_key_iff k q, apart j e),
      )
]
  where
    apart : (j : List Text) → same_key k q ≡ false → same_key j q ≡ true → same_key j k ≡ false
    apart j e f = elim (Bool-cases (same_key j k)) [
      | inr g ↦ g
      | inl g ↦
          let same : k ≡ q = sym ((same_key_iff j k).0 g) ∙ (same_key_iff j q).0 f in
          absurd (ground (arith, (same_key_iff k q).1 same))
    ]

-- Without checks, the recording does not panic, and adds to each count in 64 bits.
pub record_event_lem :
    (sender : Text) (e : Event) (c : MetricCollector)
    → ((k : List Text) → count k c < 2 ^ 64)
    → (c' : MetricCollector) × (record_event false sender e c ≡ some c')
      × ((k : List Text) → count k c' ≡ (count k c + amount k sender e) % 2 ^ 64)
unfolding record_event amount
record_event_lem sender e c h =
    let r = accumulate_lem (key_of sender e) (value_of e.metric e.value) c in
    (r.0, r.1, λ k. ground (arith, r.2 k, h k))
