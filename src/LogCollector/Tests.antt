-- ===== src/LogCollector/Tests.antt =====
-- A collector with room for one log.
use ofborg.Base.{
  ℕ, Bool, true, ◌&&◌, Option, none, some, [], ◌∷◌, ◌++◌, Text, text, text_eq, text_eq_refl,
  if◌then◌else◌, ok, err, ◌≡◌, ◌↔◌, refl, arith, inl,
}
use ofborg.LogCollector.{
  LogFrom, PathBuf, root_dir, normal, components, path_for_log, pieces, later_pieces, later_piece,
  is_normal, validate_path_segment, push, starts_with, component_eq,
}
use ofborg.LogCollector.Paths.{IsValid, path_for_log_iff}
use ofborg.LogCollector.Collecting.{Handle, Cache, Collector}
use ofborg.LogCollector.Storing.{IsCache, Holds, collect_all, collect_all-Holds}

abbrev log_root : PathBuf
log_root = root_dir ∷ normal (text "logs") ∷ []

abbrev a_log : LogFrom
a_log = record { routing_key = text "nixos/nixpkgs.1"; attempt_id = text "abc" }

abbrev debug : LogFrom → PathBuf → Text
debug f p = []

abbrev a_path : PathBuf
a_path =
    root_dir
    ∷ normal (text "logs")
    ∷ normal (text "nixos")
    ∷ normal (text "nixpkgs.1")
    ∷ normal (text "abc")
    ∷ []

has_place : path_for_log debug log_root a_log ≡ ok a_path
unfolding path_for_log components pieces later_pieces later_piece is_normal validate_path_segment
    push starts_with component_eq text text_eq
has_place = refl

climbs : LogFrom
climbs = record { routing_key = text "../etc"; attempt_id = text "abc" }

refused : path_for_log debug log_root climbs ≡ err (text "Path contained invalid components")
unfolding climbs path_for_log components pieces later_pieces later_piece is_normal
    validate_path_segment push starts_with component_eq text text_eq
refused = refl

path_for_log_iff_example : (path_for_log debug log_root a_log ≡ ok a_path) ↔ (
    IsValid (text "nixos/nixpkgs.1")
    × (IsValid (text "abc")
        × (a_path ≡ log_root ++ (components (text "nixos/nixpkgs.1") ++ components (text "abc")))))
path_for_log_iff_example = path_for_log_iff debug log_root a_log a_path

abbrev from_eq : LogFrom → LogFrom → Bool
from_eq f g = text_eq f.routing_key g.routing_key && text_eq f.attempt_id g.attempt_id

abbrev Slot : Type 0
Slot = Option (LogFrom × Handle)

abbrev lookup_slot : LogFrom → Slot → Option Handle
lookup_slot f none = none
lookup_slot f (some (g, h)) = if from_eq f g then some h else none

abbrev one_slot : Cache Slot
one_slot = record {
  lookup = lookup_slot;
  insert = λ f h c. some (f, h);
  set = λ f h c. some (f, h);
}

finds : (f : LogFrom) (h : Handle) → lookup_slot f (some (f, h)) ≡ some h
finds f h = rw (text_eq_refl f.routing_key, text_eq_refl f.attempt_id) refl

one_slot-IsCache : IsCache one_slot
one_slot-IsCache = record {
  lookup-insert = λ f h c. finds f h;
  lookup-set = λ f g h c e. finds f h;
}

-- Other work takes the slot each time.
abbrev dropping : ℕ → Collector Slot → Collector Slot
dropping n s = record s { handles = none }

abbrev empty : Collector Slot
empty = record { handles = none; files = λ p. [] }

abbrev everything : PathBuf → Bool
everything p = true

collect_all-Holds_example :
    (s' : Collector Slot) × (collect_all one_slot everything debug log_root a_log a_path dropping 0
        (text "a" ∷ text "b" ∷ [])
        empty
      ≡ some s')
    × Holds one_slot everything debug log_root a_log a_path (text "a" ∷ text "b" ∷ []) s'
unfolding text
collect_all-Holds_example =
    collect_all-Holds one_slot everything debug log_root a_log a_path dropping
      (text "a" ∷ text "b" ∷ []) [] empty one_slot-IsCache (λ n s. (refl, inl refl)) refl has_place
      (omega arith) (record { shows = refl; whole = record {}; cached = inl refl })
