-- ===== src/LogCollector/Collecting.antt =====
-- The log collector's state and its handler: ofborg/src/tasks/log_message_collector.rs.
use ofborg.Base.{
  ℕ, zero, suc, Bool, true, false, ◌&&◌, Option, none, some, [], ◌∷◌, ◌++◌, Text, text, length,
  if◌then◌else◌, ok, err, ◌==◌,
}
use ofborg.Message.{BuildLogStart, BuildResult}
use ofborg.Worker.{Actions, ack}
use ofborg.LogFile.{LineWriter, new_writer, write_to_line}
use ofborg.LogCollector.{
  LogFrom, normal, PathBuf, path_for_log, component_eq, MsgType, start, msg, finish, LogMessage,
}

-- A writer on the file at a path.
pub record Handle : Type 0 where
  pub path : PathBuf
  pub writer : LineWriter

-- The operations of `LruCache<LogFrom, LineWriter>`: `lookup` is `contains_key` and `get_mut`, and
-- `set` is a change through the reference that `get_mut` gives, with the move to the front.
pub record Cache (C : Type 0) : Type 0 where
  pub lookup : LogFrom → C → Option Handle
  pub insert : LogFrom → Handle → C → C
  pub set : LogFrom → Handle → C → C

unfoldable pub path_eq : PathBuf → PathBuf → Bool
path_eq [] [] = true
path_eq (b ∷ p) (c ∷ q) = component_eq b c && path_eq p q
path_eq _ _ = false

-- The part of a name before its last dot, if the dot is not its first character.
abbrev has_dot : Text → Bool
has_dot [] = false
has_dot (c ∷ s) = (if c == b'.' then true else has_dot s)

abbrev before_last_dot : Text → Text
before_last_dot [] = []
before_last_dot (c ∷ s) =
    let rest = before_last_dot s in
    if has_dot s then c ∷ rest else (if c == b'.' then [] else c ∷ s)

abbrev file_stem : Text → Text
file_stem [] = []
file_stem (c ∷ s) = if has_dot s then c ∷ before_last_dot s else c ∷ s

-- `PathBuf::set_extension`, for a path that ends in a name
unfoldable pub set_extension : Text → PathBuf → PathBuf
set_extension ext [] = []
set_extension ext (normal name ∷ []) = normal (file_stem name ++ (text "." ++ ext)) ∷ []
set_extension ext (c ∷ []) = c ∷ []
set_extension ext (c ∷ d ∷ p) = c ∷ set_extension ext (d ∷ p)

-- What is in the files, empty where there is none, and the cache. A handle reads and writes the one
-- content of its file: two handles on a path share it.
pub record Collector (C : Type 0) : Type 0 where
  pub handles : C
  pub files : PathBuf → Text

module _ {C : Type 0} where
  unfoldable pub store : PathBuf → Text → Collector C → Collector C
  store path content s = record s { files = λ p. if path_eq p path then content else s.files p }

-- `can_open` is whether `open_file` succeeds, its `unwrap` included; `debug` prints in an error.
module _ {C : Type 0} (cache : Cache C) (can_open : PathBuf → Bool)
    (debug : LogFrom → PathBuf → Text) (log_root : PathBuf) where
  abbrev pub place : LogFrom → Option PathBuf
  place from_ = elim (path_for_log debug log_root from_) [ ok p ↦ some p | err _ ↦ none ]

  -- `handle_for` where the cache has no handle
  unfoldable pub opened : LogFrom → Option PathBuf → Collector C → Option (Handle × Collector C)
  opened from_ none s = none
  opened from_ (some p) s =
      let writer = new_writer (record { content = s.files p; position = 0 }) in
      let handles = cache.insert from_ (record { path = p; writer = writer }) s.handles in
      if can_open p
      then elim (cache.lookup from_ handles) [
        | none ↦ none
        | some handle ↦ some (handle, record s { handles = handles })
      ]
      else none

  unfoldable pub handle_for : LogFrom → Collector C → Option (Handle × Collector C)
  unfolding opened
  handle_for from_ s = elim (cache.lookup from_ s.handles) [
    | some handle ↦ some (handle, s)
    | none ↦ opened from_ (place from_) s
  ]

  -- The write of a line through a handle, to the file as it is.
  unfoldable pub write_through : LogFrom → ℕ → Text → Handle → Collector C → Option (Collector C)
  unfolding store
  write_through from_ line output handle s =
      let content = s.files handle.path in
      let now = record handle.writer {
        file = record { content = content; position = length content };
      } in
      elim (write_to_line line output now) [
        | none ↦ none
        | some w ↦ some (
            store handle.path w.file.content (record s {
              handles = cache.set from_ (record { path = handle.path; writer = w }) s.handles;
            }))
      ]

  -- the arm `MsgType::Msg`. With the line number 0 the subtraction wraps around, if it does not
  -- panic, and the buffer would have to hold 2 ^ 64 lines.
  unfoldable pub collect_line : LogFrom → ℕ → Text → Collector C → Option (Collector C)
  unfolding handle_for write_through
  collect_line from_ zero output s = none
  collect_line from_ (suc line) output s = elim (handle_for from_ s) [
    | none ↦ none
    | some (handle, s') ↦ write_through from_ line output handle s'
  ]

  -- `write_metadata` and `write_result`: the text is appended to the file beside the log.
  unfoldable pub append_beside : Text → LogFrom → Text → Collector C → Option (Collector C)
  append_beside ext from_ json s = elim (place from_) [
    | none ↦ none
    | some p ↦
        let path = set_extension ext p in
        if can_open path then some (store path (s.files path ++ json) s) else none
  ]

  unfoldable pub consumer :
      (BuildLogStart → Text)
      → (BuildResult → Text)
      → LogMessage
      → Collector C
      → Option (Collector C × Actions)
  unfolding collect_line append_beside
  consumer start_json result_json job s = elim (after job.message) [
    | none ↦ none
    | some s' ↦ some (s', ack ∷ [])
  ]
    where
      after : MsgType → Option (Collector C)
      after (start m) = append_beside (text "metadata.json") job.from_ (start_json m) s
      after (msg m) = collect_line job.from_ m.line_number m.output s
      after (finish m) = append_beside (text "result.json") job.from_ (result_json m) s
