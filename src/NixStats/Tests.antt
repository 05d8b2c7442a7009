-- ===== src/NixStats/Tests.antt =====
-- A comparison with whole numbers in the place of floating-point ones.
use ofborg.Base.{ℕ, ◌-◌, some, List, [], ◌∷◌, join, length, Text, text, ltb, decimal, ◌≡◌, All}
use ofborg.NixStats.{Arithmetic, EvaluationStats, EvaluationStatsDiff, compare, data_of}
use ofborg.NixStats.Table.{widths, title_line, dash_line, markdown}
use ofborg.NixStats.Aligned.{rows_level}

abbrev whole : Arithmetic ℕ
whole = record {
  greater = λ a b. ltb b a;
  subtract = λ a b. a - b;
  zero_f32 = 0;
  print_f32 = decimal;
  percent_f32 = λ a b. text "1.00%";
  percent_u64 = λ a b. text "1.00%";
  separated_string = decimal;
}

abbrev stats : ℕ → EvaluationStats ℕ
stats n = record {
  cpu_time = n;
  envs = record { number = n; elements = n; bytes = n };
  list = record { elements = n; bytes = n; concats = n };
  values = record { number = n; bytes = n };
  symbols = record { number = n; bytes = n };
  sets = record { number = n; elements = n; bytes = n };
  sizes = record { env = n; value = n; bindings = n; attr = n };
  gc = record { heap_size = n; total_bytes = n };
  nr_op_updates = n;
  nr_op_update_values_copied = n;
  nr_thunks = n;
  nr_avoided = n;
  nr_lookups = n;
  nr_prim_op_calls = n;
  nr_function_calls = n;
}

abbrev diff : EvaluationStatsDiff ℕ
diff = compare (stats 12) (stats 345)

rows_level_example :
    let w = widths (data_of whole diff) in
    (rows : List Text) × (markdown whole diff
      ≡ some (join (text "\n") (title_line w ∷ dash_line w ∷ join (text "\n") rows ∷ [])))
    × (length rows ≡ 27)
    × All (λ l. length l ≡ length (dash_line w)) rows
rows_level_example = rows_level whole diff
