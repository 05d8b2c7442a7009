-- ===== src/AsyncCmd/Tests.antt =====
-- A command that prints one line.
use ofborg.Base.{ℕ, true, some, none, [], ◌∷◌, text, ok, ◌≡◌, ◌≤◌, ◌+◌, ◌*◌, refl, arith}
use ofborg.AsyncCmd.{
  stderr, stdout, spawn_join, child_wait, receive_notice, new_head, same_target, wait,
}
use ofborg.AsyncCmd.Steps.{
  State, start, Step, out_sends, errors_sends, out_ends, errors_ends, exits, receives, notices,
  Runs, here, further,
}
use ofborg.AsyncCmd.Ends.{runs_end}
use ofborg.AsyncCmd.Lines.{Shuffle, stopped_lem}

abbrev finished : State
finished = record {
  out = record { rest = []; ended = true };
  errors = record { rest = []; ended = true };
  exit = none;
  monitor = [];
  head = record { waiters = []; return_status = some (ok (some 0)) };
  channel = [];
  received = text "hi" ∷ [];
}

-- The child exits before its line is read.
a_run : Runs (start (text "hi" ∷ []) [] (ok (some 0))) 8 finished
unfolding start spawn_join child_wait receive_notice new_head same_target
a_run =
    further 7 _ _
      (further 6 _ _
        (further 5 _ _
          (further 4 _ _
            (further 3 _ _
              (further 2 _ _
                (further 1 _ _ (further 0 _ _ here (exits (ok (some 0)) refl))
                  (out_sends (text "hi") [] refl (omega arith)))
                (notices (child_wait (ok (some 0))) [] refl refl))
              (out_ends refl refl))
            (receives (text "hi") [] refl))
          (errors_ends refl refl))
        (notices (spawn_join stdout) (spawn_join stderr ∷ []) refl refl))
      (notices (spawn_join stderr) [] refl refl)

at_rest : (u : State) → Step finished u → ⊥
at_rest _ (out_sends l rest e f) = ground arith
at_rest _ (errors_sends l rest e f) = ground arith
at_rest _ (out_ends e f) = ground arith
at_rest _ (errors_ends e f) = ground arith
at_rest _ (exits r e) = ground arith
at_rest _ (receives l rest e) = ground arith
at_rest _ (notices n rest e f) = ground arith

stopped_lem_example :
    Shuffle (text "hi" ∷ []) [] (text "hi" ∷ []) × (wait (some (some (ok (some 0)))) ≡ ok (some 0))
stopped_lem_example = stopped_lem (text "hi" ∷ []) [] (ok (some 0)) 8 finished a_run at_rest

runs_end_example :
    (k : ℕ) × (u : State) × Runs finished k u
    × (8 + k ≤ 2 * 1 + (2 * 0 + 6))
    × Shuffle (text "hi" ∷ []) [] u.received
    × (wait (some u.head.return_status) ≡ ok (some 0))
runs_end_example = runs_end (text "hi" ∷ []) [] (ok (some 0)) 8 finished a_run
