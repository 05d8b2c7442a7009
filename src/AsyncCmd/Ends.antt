-- ===== src/AsyncCmd/Ends.antt =====
-- That every command comes to its end: ofborg/src/asynccmd.rs.
use ofborg.Base.{
  ℕ, zero, suc, some, List, length, Text, Result, ◌≡◌, ◌≤◌, ◌+◌, ◌*◌, arith, inl, inr,
}
use ofborg.AsyncCmd.{ExitStatus, wait}
use ofborg.AsyncCmd.Steps.{State, start, Step, Runs, here, further, work, step-work, runs-work}
use ofborg.AsyncCmd.Waiting.{runs-IsWaiting}
use ofborg.AsyncCmd.Lines.{Shuffle, IsDone, IsDone-Moves, done_lem}

before : (s t u : State) (n : ℕ) → Step s t → Runs t n u → Runs s (suc n) u
before s t _ _ q here = further 0 s t here q
before s t _ _ q (further n v u r p) = further (suc n) v u (before s t v n q r) p

module _ (out errors : List Text) (status : Result ExitStatus Text) where
  carried_on :
      (fuel n : ℕ) (t : State)
      → work t ≤ fuel
      → Runs (start out errors status) n t
      → (k : ℕ) × (u : State) × (m : ℕ) × Runs t k u × Runs (start out errors status) m u × IsDone u
  carried_on zero n t h p = elim (IsDone-Moves status t (runs-IsWaiting status out errors n t p)) [
    | inl d ↦ (0, t, n, here, p, d)
    | inr (u, q) ↦ absurd (omega (arith, step-work t u q))
  ]
  carried_on (suc f) n t h p =
      elim (IsDone-Moves status t (runs-IsWaiting status out errors n t p)) [
        | inl d ↦ (0, t, n, here, p, d)
        | inr (u, q) ↦
            let (k, v, m, r, whole, d) =
              carried_on f (suc n) u (omega (arith, step-work t u q)) (further n t u p q) in
            (suc k, v, m, before t u v k q r, whole, d)
      ]

  -- However its threads have been scheduled so far, a command can be carried on to its end: to a state
  -- in which the caller has received all lines of both outputs, once and each output's in order, and
  -- in which the wait gives the status of the child. All in all it takes at most two steps for each
  -- line of its output, and six more.
  pub runs_end :
      (n : ℕ) (t : State)
      → Runs (start out errors status) n t
      → (k : ℕ) × (u : State) × Runs t k u
        × (n + k ≤ 2 * length out + (2 * length errors + 6))
        × Shuffle out errors u.received
        × (wait (some u.head.return_status) ≡ status)
  unfolding start work
  runs_end n t p =
      let (k, u, m, r, whole, d) = carried_on (work t) n t (omega arith) p in
      let (lines, waited) = done_lem out errors status m u whole d in
      (
        k,
        u,
        r,
        ground (arith, runs-work (start out errors status) t n p, runs-work t u k r),
        lines,
        waited,
      )
