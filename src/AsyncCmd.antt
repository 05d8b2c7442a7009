-- ===== src/AsyncCmd.antt =====
-- Commands whose output is read while they run: ofborg/src/asynccmd.rs. Its threads are processes of
-- a step relation, with the two channels between them.
pub mod Steps
pub mod Waiting
pub mod Lines
pub mod Ends
mod Tests
use ofborg.Base.{
  ℕ, Bool, true, false, not, Option, none, some, List, [], ◌∷◌, keep, any, is_empty, map, Text,
  text, if◌then◌else◌, Result, ok, err,
}

pub data WaitTarget : Type 0 where
  stderr stdout child : WaitTarget

unfoldable pub same_target : WaitTarget → WaitTarget → Bool
same_target stderr stderr = true
same_target stdout stdout = true
same_target child child = true
same_target _ _ = false

-- `ExitStatus`: the exit code, which is missing if a signal ended the process.
abbrev pub ExitStatus : Type 0
ExitStatus = Option ℕ

-- What a thread is found to end with; a thread that panics is told by its text.
pub data WaitResult : Type 0 where
  thread : Result (Unit {0}) Text → WaitResult
  process : Result ExitStatus Text → WaitResult

abbrev pub Notice : Type 0
Notice = WaitTarget × WaitResult

-- `reader_tx`: what is sent for a line, which may not be UTF-8
unfoldable pub to_send : Result Text Text → Text
to_send (ok line) = line
to_send (err e) = text "Non-UTF8 data omitted from the log."

unfoldable pub reader_tx : List (Result Text Text) → List Text
unfolding to_send
reader_tx read = map to_send read

-- `spawn_join` and `child_wait`: the last thing that a thread sends
unfoldable pub spawn_join : WaitTarget → Notice
spawn_join id = (id, thread (ok tt))

unfoldable pub child_wait : Result ExitStatus Text → Notice
child_wait r = (child, process r)

-- The head waiter's two variables.
pub record Head : Type 0 where
  pub waiters : List WaitTarget
  pub return_status : Option (Result ExitStatus Text)

unfoldable pub new_head : Head
new_head = record { waiters = stderr ∷ stdout ∷ child ∷ []; return_status = none }

abbrev pub is_waited : WaitTarget → List WaitTarget → Bool
is_waited id waiters = any (same_target id) waiters

abbrev status_after : WaitResult → Option (Result ExitStatus Text) → Option (Result ExitStatus Text)
status_after (thread t) status = status
status_after (process t) status = some t

-- one round of the head waiter's loop
unfoldable pub receive_notice : Notice → Head → Head
receive_notice (id, interior_result) h =
    if is_waited id h.waiters
    then record {
      waiters = keep (λ w. not (same_target id w)) h.waiters;
      return_status = status_after interior_result h.return_status;
    }
    else h

-- `SpawnedAsyncCmd::wait`, on what the head waiter returns, or on its panic
unfoldable pub wait : Option (Option (Result ExitStatus Text)) → Result ExitStatus Text
wait none = err (text "Couldn't join thread.")
wait (some none) = err (text "Thread didn't return an exit status.")
wait (some (some res)) = res
