-- ===== src/Metrics/Tests.antt =====
-- The metrics with ASCII's capital letters.
use ofborg.Base.{
  All, List, Text, ℕ, ◌&&◌, Bool, true, leb, ◌⊎◌, [], ◌∷◌, map, length, text, text_eq, contains,
  distinct, join, to_ascii_lowercase, Occurs, ◌≡◌, refl,
}
use ofborg.Metrics as M
use ofborg.Metrics.{
  Metric, MetricType, counter, metric_of, enum_field_names, enum_field_types, record_value,
  name_to_parts, new_metric, events,
}
use ofborg.Metrics.Generated as G
use ofborg.Metrics.Generated.{key_names, key_types, record_arm}
use ofborg.Metrics.Laws.{is_cut, name_to_parts_lem, arms_fit}

abbrev is_uppercase : ℕ → Bool
is_uppercase c = leb b'A' c && leb c b'Z'

abbrev duration : MetricType
duration = counter (record {
  variant = text "EvaluationDuration";
  fields = (text "branch", text "String") ∷ [];
  metric_name = text "evaluation_duration";
  description = text "Amount of time spent running evaluations";
})

name_to_parts_lem_example :
    (join [] (name_to_parts is_uppercase (text "JobReceived")) ≡ text "JobReceived")
    × (is_cut is_uppercase (name_to_parts is_uppercase (text "JobReceived")) ≡ true)
name_to_parts_lem_example = name_to_parts_lem is_uppercase (text "JobReceived")

arms_fit_example :
    (types blanks names : List Text) × (M.enum_matcher_types duration
      ≡ M.variant_with duration types)
    × (G.ignoring_pattern duration ≡ M.variant_with duration blanks)
    × (G.binding_pattern duration ≡ M.variant_with duration names)
    × (length blanks ≡ length types)
    × (length names ≡ length types)
    × All (λ b. b ≡ text "_") blanks
    × (length (key_names duration) ≡ length (key_types duration))
    × ((name : Text)
        → Occurs name (key_names duration)
        → (name ≡ text "instance") ⊎ Occurs name names)
    × ((record_value duration ≡ text "1") ⊎ Occurs (record_value duration) names)
arms_fit_example = arms_fit duration

-- No two metrics share a variant or a name.
events_apart :
    (distinct (map (λ m. (metric_of m).variant) (events is_uppercase to_ascii_lowercase)) ≡ true)
    × (distinct (map (λ m. (metric_of m).metric_name) (events is_uppercase to_ascii_lowercase))
        ≡ true)
unfolding M.events M.new_metric M.name_to_parts M.parts_from M.metric_of join text text_eq distinct
    contains to_ascii_lowercase
events_apart = (refl, refl)

counted :
    record_arm duration
    ≡ text
        "\n      Event::EvaluationDuration(branch, value) => {\n        let mut accum_table = self.evaluation_duration\n          .lock()\n          .expect(\"Failed to unwrap metric mutex for evaluation_duration\");\n        let accum = accum_table\n          .entry((branch, instance))\n          .or_insert(0);\n        *accum += value;\n      }\n "
unfolding record_arm G.binding_pattern G.tuple G.key_names M.variant_with M.enum_field_names
    M.enum_index_names M.extra_names M.metric_of M.record_value join text
counted = refl
