-- ===== src/Metrics.antt =====
-- The metrics and their names: ofborg/build.rs.
pub mod Generated
pub mod Laws
mod Tests
use ofborg.Base.{
  ℕ, Bool, not, ◌&&◌, Option, none, some, List, [], ◌∷◌, ◌++◌, map, is_empty, Text, text, join,
  unwrap_or, if◌then◌else◌,
}

pub record Metric : Type 0 where
  pub variant : Text
  pub fields : List (Text × Text)
  pub metric_name : Text
  pub description : Text

pub data MetricType : Type 0 where
  ticker counter : Metric → MetricType

unfoldable pub metric_of : MetricType → Metric
metric_of (ticker event) = event
metric_of (counter event) = event

unfoldable pub collector_type : MetricType → Text
collector_type (ticker _) = text "u64"
collector_type (counter _) = text "u64"

unfoldable pub metric_type : MetricType → Text
metric_type (ticker _) = text "counter"
metric_type (counter _) = text "counter"

unfoldable pub enum_index_types : MetricType → List Text
unfolding metric_of
enum_index_types m = map (λ f. f.1) (metric_of m).fields

unfoldable pub extra_types : MetricType → List Text
unfolding collector_type
extra_types (ticker m) = []
extra_types (counter m) = collector_type (counter m) ∷ []

unfoldable pub enum_field_types : MetricType → List Text
unfolding enum_index_types extra_types
enum_field_types m = enum_index_types m ++ extra_types m

unfoldable pub enum_index_names : MetricType → List Text
unfolding metric_of
enum_index_names m = map (λ f. f.0) (metric_of m).fields

unfoldable pub extra_names : MetricType → List Text
extra_names (ticker _) = []
extra_names (counter _) = text "value" ∷ []

unfoldable pub enum_field_names : MetricType → List Text
unfolding enum_index_names extra_names
enum_field_names m = enum_index_names m ++ extra_names m

unfoldable pub record_value : MetricType → Text
record_value (ticker _) = text "1"
record_value (counter _) = text "value"

-- A variant with its fields, where it has some.
unfoldable pub variant_with : MetricType → List Text → Text
unfolding metric_of
variant_with m [] = (metric_of m).variant
variant_with m (f ∷ fs) =
    (metric_of m).variant ++ (text "(" ++ (join (text ", ") (f ∷ fs) ++ text ")"))

unfoldable pub enum_matcher_types : MetricType → Text
unfolding variant_with enum_field_types
enum_matcher_types m = variant_with m (enum_field_types m)

-- `is_uppercase` is Unicode's, and `lower` is `str::to_lowercase`.
module _ (is_uppercase : ℕ → Bool) where
  -- the loop over the characters, with both of its variables
  unfoldable pub parts_from : List Text → Text → Text → List Text
  parts_from parts buf [] = if not (is_empty buf) then parts ++ buf ∷ [] else parts
  parts_from parts buf (c ∷ cs) =
      let starts = is_uppercase c && not (is_empty buf) in
      parts_from (if starts then parts ++ buf ∷ [] else parts)
        ((if starts then [] else buf) ++ c ∷ []) cs

  unfoldable pub name_to_parts : Text → List Text
  unfolding parts_from
  name_to_parts name = parts_from [] [] name

module _ (is_uppercase : ℕ → Bool) (lower : Text → Text) where
  unfoldable pub new_metric : Text → Text → Option (List (Text × Text)) → Metric
  unfolding name_to_parts
  new_metric name desc fields =
      let parts = name_to_parts is_uppercase name in
      record {
        variant = join [] parts;
        fields = unwrap_or fields [];
        metric_name = lower (join (text "_") parts);
        description = desc;
      }

  unfoldable pub events : List MetricType
  unfolding new_metric
  events =
      ticker (
        new_metric (text "StatCollectorLegacyEvent") (text "Number of received legacy events")
          (some ((text "event", text "String") ∷ [])))
      ∷ ticker (
          new_metric (text "StatCollectorBogusEvent") (text "Number of received unparseable events")
            none)
      ∷ ticker (new_metric (text "JobReceived") (text "Number of received worker jobs") none)
      ∷ counter (
          new_metric (text "EvaluationDuration") (text "Amount of time spent running evaluations")
            (some ((text "branch", text "String") ∷ [])))
      ∷ ticker (
          new_metric (text "EvaluationDurationCount") (text "Number of timed evaluations performed")
            (some ((text "branch", text "String") ∷ [])))
      ∷ ticker (
          new_metric (text "TargetBranchFailsEvaluation")
            (text "Number of PR evaluations which failed because the target branch failed")
            (some ((text "branch", text "String") ∷ [])))
      ∷ ticker
          (new_metric (text "JobDecodeSuccess") (text "Number of successfully decoded jobs") none)
      ∷ ticker
          (new_metric (text "JobDecodeFailure") (text "Number of jobs which failed to parse") none)
      ∷ ticker (
          new_metric (text "IssueAlreadyClosed")
            (text "Number of jobs for issues which are already closed") none)
      ∷ ticker (
          new_metric (text "IssueFetchFailed") (text "Number of failed fetches for GitHub issues")
            none)
      ∷ ticker (
          new_metric (text "TaskEvaluationCheckComplete")
            (text "Number of completed evaluation tasks") none)
      ∷ []
