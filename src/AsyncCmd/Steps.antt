-- ===== src/AsyncCmd/Steps.antt =====
-- The threads of a command at work, and what they come to: ofborg/src/asynccmd.rs.
use ofborg.Base.{
  ℕ, suc, Bool, true, false, Option, none, some, List, [], ◌∷◌, ◌++◌, is_empty, length,
  length-append, Text, Result, ◌≡◌, ◌<◌, ◌≤◌, ◌+◌, ◌*◌, arith,
}
use ofborg.AsyncCmd.{
  stderr, stdout, ExitStatus, Notice, spawn_join, child_wait, Head, new_head, receive_notice,
}

-- A reading thread: the lines before it, and whether it has told of its end.
pub record Reader : Type 0 where
  pub rest : List Text
  pub ended : Bool

-- The two readers; the child, until its status is told; the monitor's channel and the head waiter; the
-- channel of the lines, and the lines that the caller has received.
pub record State : Type 0 where
  pub out : Reader
  pub errors : Reader
  pub exit : Option (Result ExitStatus Text)
  pub monitor : List Notice
  pub head : Head
  pub channel : List Text
  pub received : List Text

unfoldable pub start : List Text → List Text → Result ExitStatus Text → State
start out errors status = record {
  out = record { rest = out; ended = false };
  errors = record { rest = errors; ended = false };
  exit = some status;
  monitor = [];
  head = new_head;
  channel = [];
  received = [];
}

-- `OUT_CHANNEL_BUFFER_SIZE`
abbrev pub out_channel_buffer_size : ℕ
out_channel_buffer_size = 30

-- One of the threads, or the caller, makes a step. The channel of the lines blocks when it is full; the
-- monitor's channel has room for more notices than there are.
pub data Step (s : State) : State → Type 0 where
  out_sends :
      (line : Text) (rest : List Text)
      → s.out.rest ≡ line ∷ rest
      → length s.channel < out_channel_buffer_size
      → Step s (record s {
        out = record { rest = rest; ended = s.out.ended };
        channel = s.channel ++ line ∷ [];
      })
  errors_sends :
      (line : Text) (rest : List Text)
      → s.errors.rest ≡ line ∷ rest
      → length s.channel < out_channel_buffer_size
      → Step s (record s {
        errors = record { rest = rest; ended = s.errors.ended };
        channel = s.channel ++ line ∷ [];
      })
  out_ends :
      s.out.rest ≡ []
      → s.out.ended ≡ false
      → Step s (record s {
        out = record { rest = []; ended = true };
        monitor = s.monitor ++ spawn_join stdout ∷ [];
      })
  errors_ends :
      s.errors.rest ≡ []
      → s.errors.ended ≡ false
      → Step s (record s {
        errors = record { rest = []; ended = true };
        monitor = s.monitor ++ spawn_join stderr ∷ [];
      })
  exits :
      (status : Result ExitStatus Text)
      → s.exit ≡ some status
      → Step s (record s { exit = none; monitor = s.monitor ++ child_wait status ∷ [] })
  receives :
      (line : Text) (rest : List Text)
      → s.channel ≡ line ∷ rest
      → Step s (record s { channel = rest; received = s.received ++ line ∷ [] })
  notices :
      (n : Notice) (rest : List Notice)
      → s.monitor ≡ n ∷ rest
      → is_empty s.head.waiters ≡ false
      → Step s (record s { monitor = rest; head = receive_notice n s.head })

-- so many steps
pub data Runs (s : State) : ℕ → State → Type 0 where
  here : Runs s 0 s
  further : (n : ℕ) (t u : State) → Runs s n t → Step t u → Runs s (suc n) u

abbrev unended : Bool → ℕ
unended true = 0
unended false = 2

abbrev untold : Option (Result ExitStatus Text) → ℕ
untold none = 0
untold (some r) = 2

-- what is left to do
unfoldable pub work : State → ℕ
work s =
    2 * length s.out.rest
    + (2 * length s.errors.rest
        + (length s.channel
            + (length s.monitor
                + (unended s.out.ended + (unended s.errors.ended + untold s.exit)))))

pub step-work : (s t : State) → Step s t → work t < work s
unfolding work
step-work s _ (out_sends l rest e f) = ground (arith, e, length-append s.channel (l ∷ []))
step-work s _ (errors_sends l rest e f) = ground (arith, e, length-append s.channel (l ∷ []))
step-work s _ (out_ends e f) =
    ground (arith, e, f, length-append s.monitor (spawn_join stdout ∷ []))
step-work s _ (errors_ends e f) =
    ground (arith, e, f, length-append s.monitor (spawn_join stderr ∷ []))
step-work s _ (exits r e) = ground (arith, e, length-append s.monitor (child_wait r ∷ []))
step-work s _ (receives l rest e) = ground (arith, e)
step-work s _ (notices n rest e f) = ground (arith, e)

pub runs-work : (s t : State) (n : ℕ) → Runs s n t → n + work t ≤ work s
runs-work s t n here = omega arith
runs-work s _ _ (further n t u r p) = omega (arith, runs-work s t n r, step-work t u p)
