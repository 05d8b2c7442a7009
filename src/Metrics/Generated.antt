-- ===== src/Metrics/Generated.antt =====
-- The text of events.rs: `main` of ofborg/build.rs, whose writes here do not fail.
use ofborg.Base.{ℕ, Bool, List, [], ◌∷◌, ◌++◌, map, Text, text, join}
use ofborg.Metrics.{
  MetricType, metric_of, collector_type, metric_type, enum_index_types, enum_index_names,
  enum_field_names, record_value, variant_with, enum_matcher_types, events,
}

abbrev instance_name : List Text
instance_name = text "instance" ∷ []

abbrev in_parentheses : Text → Text
in_parentheses s = text "(" ++ (s ++ text ")")

-- The pattern of an event that binds no field.
unfoldable pub ignoring_pattern : MetricType → Text
unfolding variant_with enum_field_names
ignoring_pattern m = variant_with m (map (λ name. text "_") (enum_field_names m))

-- The pattern of an event that binds each field under its name.
unfoldable pub binding_pattern : MetricType → Text
unfolding variant_with enum_field_names
binding_pattern m = variant_with m (enum_field_names m)

-- The columns of an event's table, the last one the worker.
unfoldable pub key_names : MetricType → List Text
unfolding enum_index_names
key_names m = enum_index_names m ++ instance_name

unfoldable pub key_types : MetricType → List Text
unfolding enum_index_types
key_types m = enum_index_types m ++ text "String" ∷ []

-- A tuple of names, or the only one.
unfoldable pub tuple : List Text → Text
tuple [] = []
tuple (n ∷ []) = n
tuple (n ∷ m ∷ ns) = in_parentheses (join (text ", ") (n ∷ m ∷ ns))

unfoldable pub name_arm : MetricType → Text
unfolding ignoring_pattern metric_of
name_arm m =
    text "    Event::"
    ++ (ignoring_pattern m
        ++ (text " => String::from(\"" ++ ((metric_of m).metric_name ++ text "\")")))

unfoldable pub collector_field : MetricType → Text
unfolding key_types metric_of collector_type
collector_field m =
    text "  "
    ++ ((metric_of m).metric_name
        ++ (text ": Arc<Mutex<HashMap<("
            ++ (join (text ", ") (key_types m) ++ (text ")," ++ (collector_type m ++ text ">>>")))))

unfoldable pub record_arm : MetricType → Text
unfolding binding_pattern metric_of key_names tuple record_value
record_arm m = join [] (
    text "\n      Event::"
    ∷ binding_pattern m
    ∷ text " => {\n        let mut accum_table = self."
    ∷ (metric_of m).metric_name
    ∷ text "\n          .lock()\n          .expect(\"Failed to unwrap metric mutex for "
    ∷ (metric_of m).metric_name
    ∷ text "\");\n        let accum = accum_table\n          .entry("
    ∷ tuple (key_names m)
    ∷ text ")\n          .or_insert(0);\n        *accum += "
    ∷ record_value m
    ∷ text ";\n      }\n "
    ∷ [])

unfoldable pub key_value_pair : Text → Text
key_value_pair name =
    text "            format!(\"" ++ (name ++ (text "=\\\"{}\\\"\", " ++ (name ++ text ")")))

unfoldable pub output_part : MetricType → Text
unfolding metric_of metric_type key_names tuple key_value_pair
output_part m =
    let name = (metric_of m).metric_name in
    join [] (
      text "\n      output.push_str(\"# HELP ofborg_"
      ∷ name
      ∷ text " "
      ∷ (metric_of m).description
      ∷ text "\n\");\n      output.push_str(\"# TYPE ofborg_"
      ∷ name
      ∷ text " "
      ∷ metric_type m
      ∷ text "\n\");\n\n      let table = self."
      ∷ name
      ∷ text ".lock()\n        .expect(\"Failed to unwrap metric mutex for "
      ∷ name
      ∷ text "\");\n      let values: Vec<String> = (*table)\n        .iter()\n        .map(|("
      ∷ tuple (key_names m)
      ∷ text ", value)| {\n          let kvs: Vec<String> = vec![\n"
      ∷ join (text ",\n") (map key_value_pair (key_names m))
      ∷ text "\n          ];\n          format!(\"ofborg_"
      ∷ name
      ∷ text "{{{}}} {}\", kvs.join(\",\"), value)\n        })\n        .collect();\n"
      ∷ text "      output.push_str(&values.join(\"\n\"));\n      output.push_str(\"\n\");\n "
      ∷ [])

unfoldable pub event_enum : List MetricType → Text
unfolding enum_matcher_types
event_enum ms =
    text
      "\nuse std::collections::HashMap;\nuse std::sync::Arc;\nuse std::sync::Mutex;\n#[derive(Serialize, Deserialize, Debug, Clone)]\n#[serde(rename_all=\"kebab-case\")]\npub enum Event {\n"
    ++ (join (text ",\n") (map (λ m. text "  " ++ enum_matcher_types m) ms) ++ text "\n}\n\n")

unfoldable pub event_metric_name_fn : List MetricType → Text
unfolding name_arm
event_metric_name_fn ms =
    text "pub fn event_metric_name(event: &Event) -> String {\n  match *event {\n"
    ++ (join (text ",\n") (map name_arm ms) ++ text "}\n  }")

unfoldable pub collector_struct : List MetricType → Text
unfolding collector_field
collector_struct ms =
    text "\n#[derive(Default, Debug, Clone)]\npub struct MetricCollector {\n"
    ++ (join (text ",\n") (map collector_field ms) ++ text "\n}\n\n")

unfoldable pub record_fn : List MetricType → Text
unfolding record_arm
record_fn ms =
    text
      "\n\nimpl MetricCollector {\n  pub fn new() -> MetricCollector {\n    Default::default()\n  }\n\n  pub fn record(&self, instance: String, event: Event) {\n    match event {\n"
    ++ (join (text ",\n") (map record_arm ms) ++ (text "\n    }\n" ++ text "\n  }\n"))

unfoldable pub prometheus_output_fn : List MetricType → Text
unfolding output_part
prometheus_output_fn ms =
    text "pub fn prometheus_output(&self) -> String {\n    let mut output = String::new();\n"
    ++ (join (text "\n") (map output_part ms) ++ (text "output\n  }" ++ text "\n}"))

-- What the file holds in the end.
unfoldable pub events_rs : (ℕ → Bool) → (Text → Text) → Text
unfolding event_enum event_metric_name_fn collector_struct record_fn prometheus_output_fn
events_rs is_uppercase lower =
    let ms = events is_uppercase lower in
    event_enum ms
    ++ (event_metric_name_fn ms
        ++ (collector_struct ms ++ (record_fn ms ++ prometheus_output_fn ms)))
