-- ===== src/LogCollector.antt =====
-- Where the log collector keeps a build's log, and how it reads its messages:
-- ofborg/src/tasks/log_message_collector.rs.
pub mod Paths
pub mod Collecting
pub mod Storing
mod Tests
use ofborg.Base.{
  ℕ, Bool, true, false, not, ◌&&◌, List, [], ◌∷◌, ◌++◌, Text, text, text_eq, all, is_empty, ◌==◌,
  if◌then◌else◌, Result, ok, err,
}
use ofborg.Message.{BuildLogMsg, BuildLogStart, BuildResult}
use ofborg.Message.Results.{legacy}

pub record LogFrom : Type 0 where
  pub routing_key : Text
  pub attempt_id : Text

-- `std::path::Component` on Unix, where a path has no prefix
pub data Component : Type 0 where
  root_dir cur_dir parent_dir : Component
  normal : Text → Component

-- A `PathBuf` is its components: the code uses no other view of it.
abbrev pub PathBuf : Type 0
PathBuf = List Component

abbrev to_front : ℕ → List Text → List Text
to_front c [] = (c ∷ []) ∷ []
to_front c (p ∷ ps) = (c ∷ p) ∷ ps

-- the parts between the slashes, at least one
unfoldable pub pieces : Text → List Text
pieces [] = [] ∷ []
pieces (c ∷ s) = let rest = pieces s in if c == b'/' then [] ∷ rest else to_front c rest

-- a part behind the first: an empty one and a dot stand for nothing
unfoldable pub later_piece : Text → PathBuf
later_piece p =
    if is_empty p
    then []
    else if text_eq p (text ".")
    then []
    else if text_eq p (text "..")
    then parent_dir ∷ []
    else normal p ∷ []

unfoldable pub later_pieces : List Text → PathBuf
later_pieces [] = []
later_pieces (p ∷ ps) = later_piece p ++ later_pieces ps

abbrev starts_with_slash : Text → Bool
starts_with_slash [] = false
starts_with_slash (c ∷ s) = c == b'/'

abbrev first_piece : List Text → PathBuf
first_piece [] = []
first_piece (p ∷ ps) =
    (if text_eq p (text ".") then cur_dir ∷ [] else later_piece p) ++ later_pieces ps

-- `PathBuf::from(s).components()`
unfoldable pub components : Text → PathBuf
components s =
    if starts_with_slash s then root_dir ∷ later_pieces (pieces s) else first_piece (pieces s)

unfoldable pub is_normal : Component → Bool
is_normal (normal name) = true
is_normal _ = false

unfoldable pub validate_path_segment : PathBuf → Result (Unit {0}) Text
validate_path_segment segment =
    if is_empty segment
    then err (text "Segment has no components")
    else if all is_normal segment
    then ok tt
    else err (text "Path contained invalid components")

-- `PathBuf::push`: an absolute path replaces, and a leading dot stands for nothing.
unfoldable pub push : PathBuf → PathBuf → PathBuf
push location [] = location
push location (root_dir ∷ rest) = root_dir ∷ rest
push location (cur_dir ∷ rest) = location ++ rest
push location (parent_dir ∷ rest) = location ++ parent_dir ∷ rest
push location (normal name ∷ rest) = location ++ normal name ∷ rest

unfoldable pub component_eq : Component → Component → Bool
component_eq root_dir root_dir = true
component_eq cur_dir cur_dir = true
component_eq parent_dir parent_dir = true
component_eq (normal a) (normal b) = text_eq a b
component_eq _ _ = false

-- `Path::starts_with`
unfoldable pub starts_with : PathBuf → PathBuf → Bool
unfolding component_eq
starts_with p [] = true
starts_with [] (c ∷ q) = false
starts_with (b ∷ p) (c ∷ q) = component_eq b c && starts_with p q

-- `path_for_log`, in the order of its checks. The last error names the place, which `Debug` prints.
unfoldable pub path_for_log : (LogFrom → PathBuf → Text) → PathBuf → LogFrom → Result PathBuf Text
path_for_log debug log_root from_ =
    let routing_key = components from_.routing_key in
    let attempt_id = components from_.attempt_id in
    let location = push (push log_root routing_key) attempt_id in
    elim (validate_path_segment routing_key) [
      | err e ↦ err e
      | ok _ ↦ elim (validate_path_segment attempt_id) [
        | err e ↦ err e
        | ok _ ↦ if starts_with location log_root then ok location else err (debug from_ location)
      ]
    ]

-- The messages of the collector's queue.
pub data MsgType : Type 0 where
  start : BuildLogStart → MsgType
  msg : BuildLogMsg → MsgType
  finish : BuildResult → MsgType

pub record LogMessage : Type 0 where
  pub from_ : LogFrom
  pub message : MsgType

-- serde_json's readings of a body. The error of the last is the failed reading as `{:?}` prints it.
pub record Readers : Type 0 where
  pub read_msg : Text → Result BuildLogMsg Text
  pub read_start : Text → Result BuildLogStart Text
  pub read_result : Text → Result BuildResult Text

-- The three readings in their order, with the attempt's identifier from the message itself.
unfoldable pub msg_to_job : Readers → Text → Text → Result LogMessage Text
msg_to_job r routing_key body = elim (r.read_msg body) [
  | ok m ↦ ok (record {
    from_ = record { routing_key = routing_key; attempt_id = m.attempt_id };
    message = msg m;
  })
  | err _ ↦ elim (r.read_start body) [
    | ok m ↦ ok (record {
      from_ = record { routing_key = routing_key; attempt_id = m.attempt_id };
      message = start m;
    })
    | err _ ↦ elim (r.read_result body) [
      | ok m ↦ ok (record {
        from_ = record { routing_key = routing_key; attempt_id = (legacy m).body.attempt_id };
        message = finish m;
      })
      | err e ↦ err (text "failed to decode job: " ++ e)
    ]
  ]
]
