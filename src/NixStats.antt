-- ===== src/NixStats.antt =====
-- The statistics of an evaluation and their comparison as a table: ofborg/src/nixstats.rs.
pub mod Table
pub mod Aligned
mod Tests
use ofborg.Base.{
  ℕ, zero, suc, ◌+◌, ◌-◌, Bool, true, false, Option, none, some, List, [], ◌∷◌, ◌++◌, map, length,
  replicate, Text, text, text_eq, join, sort, ltb, if◌then◌else◌,
}

pub record Environments : Type 0 where
  pub number : ℕ
  pub elements : ℕ
  pub bytes : ℕ

pub record Lists : Type 0 where
  pub elements : ℕ
  pub bytes : ℕ
  pub concats : ℕ

pub record Values : Type 0 where
  pub number : ℕ
  pub bytes : ℕ

pub record Symbols : Type 0 where
  pub number : ℕ
  pub bytes : ℕ

pub record Sets : Type 0 where
  pub number : ℕ
  pub elements : ℕ
  pub bytes : ℕ

pub record Sizes : Type 0 where
  pub env : ℕ
  pub value : ℕ
  pub bindings : ℕ
  pub attr : ℕ

pub record GarbageCollector : Type 0 where
  pub heap_size : ℕ
  pub total_bytes : ℕ

-- `F` is the type `f32`.
pub record EvaluationStats (F : Type 0) : Type 0 where
  pub cpu_time : F
  pub envs : Environments
  pub list : Lists
  pub values : Values
  pub symbols : Symbols
  pub sets : Sets
  pub sizes : Sizes
  pub gc : GarbageCollector
  pub nr_op_updates : ℕ
  pub nr_op_update_values_copied : ℕ
  pub nr_thunks : ℕ
  pub nr_avoided : ℕ
  pub nr_lookups : ℕ
  pub nr_prim_op_calls : ℕ
  pub nr_function_calls : ℕ

pub record EvaluationStatsDiff (F : Type 0) : Type 0 where
  pub left : EvaluationStats F
  pub right : EvaluationStats F

unfoldable pub compare :
    {F : Type 0} → EvaluationStats F → EvaluationStats F → EvaluationStatsDiff F
compare left right = record { left = left; right = right }

-- Floating-point arithmetic, with two places behind the point in its texts, and the grouping of digits
-- by the crate separator. The two percentages are those of the code, printed.
pub record Arithmetic (F : Type 0) : Type 0 where
  pub greater : F → F → Bool
  pub subtract : F → F → F
  pub zero_f32 : F
  pub print_f32 : F → Text
  pub percent_f32 : F → F → Text
  pub percent_u64 : ℕ → ℕ → Text
  pub separated_string : ℕ → Text

pub record Row : Type 0 where
  pub before : Text
  pub after : Text
  pub diff : Text
  pub diff_pct : Text

abbrev down : Text
down = 8600 ∷ 32 ∷ []

abbrev up : Text
up = 8599 ∷ 32 ∷ []

module _ {F : Type 0} (a : Arithmetic F) where
  unfoldable pub from_u64 : ℕ → ℕ → Row
  from_u64 left right =
      let diff =
        if ltb right left then left - right else if ltb left right then right - left else 0 in
      let direction = if ltb right left then down else if ltb left right then up else [] in
      record {
        before = a.separated_string left;
        after = a.separated_string right;
        diff = direction ++ a.separated_string diff;
        diff_pct = if ltb 0 diff then a.percent_u64 left right else [];
      }

  unfoldable pub from_f32 : F → F → Row
  from_f32 left right =
      let diff =
        if a.greater left right
        then a.subtract left right
        else if a.greater right left
        then a.subtract right left
        else a.zero_f32 in
      let direction =
        if a.greater left right then down else if a.greater right left then up else [] in
      record {
        before = a.print_f32 left;
        after = a.print_f32 right;
        diff = direction ++ a.print_f32 diff;
        diff_pct = if a.greater diff a.zero_f32 then a.percent_f32 left right else [];
      }

  -- the hash map, in the order of the insertions; the keys are different
  unfoldable pub data_of : EvaluationStatsDiff F → List (Text × Row)
  unfolding from_u64 from_f32
  data_of d =
      let l = d.left in
      let r = d.right in
      (text "cpuTime", from_f32 l.cpu_time r.cpu_time)
      ∷ (text "envs-number", from_u64 l.envs.number r.envs.number)
      ∷ (text "envs-elements", from_u64 l.envs.elements r.envs.elements)
      ∷ (text "envs-bytes", from_u64 l.envs.bytes r.envs.bytes)
      ∷ (text "list-elements", from_u64 l.list.elements r.list.elements)
      ∷ (text "list-bytes", from_u64 l.list.bytes r.list.bytes)
      ∷ (text "list-concats", from_u64 l.list.concats r.list.concats)
      ∷ (text "values-number", from_u64 l.values.number r.values.number)
      ∷ (text "values-bytes", from_u64 l.values.bytes r.values.bytes)
      ∷ (text "symbols-number", from_u64 l.symbols.number r.symbols.number)
      ∷ (text "symbols-bytes", from_u64 l.symbols.bytes r.symbols.bytes)
      ∷ (text "sets-number", from_u64 l.sets.number r.sets.number)
      ∷ (text "sets-bytes", from_u64 l.sets.bytes r.sets.bytes)
      ∷ (text "sets-elements", from_u64 l.sets.elements r.sets.elements)
      ∷ (text "sizes-Env", from_u64 l.sizes.env r.sizes.env)
      ∷ (text "sizes-Value", from_u64 l.sizes.value r.sizes.value)
      ∷ (text "sizes-Bindings", from_u64 l.sizes.bindings r.sizes.bindings)
      ∷ (text "sizes-Attr", from_u64 l.sizes.attr r.sizes.attr)
      ∷ (text "nrOpUpdates", from_u64 l.nr_op_updates r.nr_op_updates)
      ∷ (
        text "nrOpUpdateValuesCopied",
        from_u64 l.nr_op_update_values_copied r.nr_op_update_values_copied,
      )
      ∷ (text "nrThunks", from_u64 l.nr_thunks r.nr_thunks)
      ∷ (text "nrAvoided", from_u64 l.nr_avoided r.nr_avoided)
      ∷ (text "nrLookups", from_u64 l.nr_lookups r.nr_lookups)
      ∷ (text "nrPrimOpCalls", from_u64 l.nr_prim_op_calls r.nr_prim_op_calls)
      ∷ (text "nrFunctionCalls", from_u64 l.nr_function_calls r.nr_function_calls)
      ∷ (text "gc-heapSize", from_u64 l.gc.heap_size r.gc.heap_size)
      ∷ (text "gc-totalBytes", from_u64 l.gc.total_bytes r.gc.total_bytes)
      ∷ []
