-- ===== src/LogFile.antt =====
-- A log file that is written by line numbers, in any order: ofborg/src/writetoline.rs.
pub mod Content
pub mod Lines
pub mod Faults
pub mod Reload
mod Tests
use ofborg.Base.{
  ℕ, zero, suc, ◌+◌, ◌-◌, Option, none, some, List, [], ◌∷◌, ◌++◌, Text, length, take, drop, join,
  lines, ltb, leb, if◌then◌else◌,
}

-- A file's text and the position of its handle. The calls of `LineWriter` on it succeed: their
-- failures are panics. A handle opened for appending writes at the end wherever it stands; so does
-- this one, since the position is always the end.
pub record File : Type 0 where
  pub content : Text
  pub position : ℕ

unfoldable pub seek_start : File → File
seek_start f = record f { position = 0 }

-- `set_len(0)`, which leaves the position alone
unfoldable pub truncate : File → File
truncate f = record f { content = [] }

-- A write at a position within the text or at its end.
unfoldable pub write_all : Text → File → File
write_all s f = record {
  content = take f.position f.content ++ (s ++ drop (f.position + length s) f.content);
  position = f.position + length s;
}

-- Reading all lines from the start leaves the position at the end.
unfoldable pub load_buffer : File → File × List Text
unfolding seek_start
load_buffer f = let g = seek_start f in (record g { position = length g.content }, lines g.content)

pub record LineWriter : Type 0 where
  pub file : File
  pub buffer : List Text
  pub last_line : ℕ

unfoldable pub new_writer : File → LineWriter
unfolding load_buffer
new_writer rw_file =
    let (f, buf) = load_buffer rw_file in record { file = f; buffer = buf; last_line = length buf }

-- `while buffer.len() <= line { buffer.push("") }`; `line + 1` rounds are enough.
pad_to : ℕ → ℕ → List Text → List Text
pad_to zero line buffer = buffer
pad_to (suc fuel) line buffer =
    let longer = pad_to fuel line (buffer ++ [] ∷ []) in
    if leb (length buffer) line then longer else buffer

-- `Vec::remove` and `Vec::insert`, within the vector
abbrev remove : ℕ → List Text → List Text
remove i xs = take i xs ++ drop (suc i) xs

abbrev insert : ℕ → Text → List Text → List Text
insert i x xs = take i xs ++ x ∷ drop i xs

unfoldable pub buffer_with : ℕ → Text → List Text → List Text
unfolding pad_to
buffer_with line s buffer = insert line s (remove line (pad_to (suc line) line buffer))

abbrev pub line_feed : Text
line_feed = 10 ∷ []

-- The whole buffer again.
unfoldable pub rewrite : List Text → File → File
unfolding truncate seek_start write_all
rewrite buffer f = write_all line_feed (write_all (join line_feed buffer) (seek_start (truncate f)))

-- `none` is the panic of a slice whose start is past its end.
abbrev pub slice : ℕ → ℕ → List Text → Option (List Text)
slice start stop xs = if leb start stop then some (take (stop - start) (drop start xs)) else none

abbrev pub appended : Option (List Text) → File → Option File
appended none f = none
appended (some ls) f = some (write_all line_feed (write_all (join line_feed ls) f))

abbrev pub with_file : ℕ → List Text → Option File → Option LineWriter
with_file line buffer none = none
with_file line buffer (some f) = some (record { file = f; buffer = buffer; last_line = line })

unfoldable pub write_to_line : ℕ → Text → LineWriter → Option LineWriter
unfolding buffer_with rewrite
write_to_line line s w =
    let original_len = length w.buffer in
    let buffer = buffer_with line s w.buffer in
    with_file line buffer (
      if ltb line w.last_line
      then some (rewrite buffer w.file)
      else appended (slice original_len (line + 1) buffer) w.file)
