-- ===== src/AsyncCmd/Lines.antt =====
-- That a command's threads come to their end, with all lines received: ofborg/src/asynccmd.rs.
use ofborg.Base.{
  ℕ, Option, none, some, List, [], ◌∷◌, ◌++◌, is_empty, length, ltb, ltb→lt, Text, Result, ◌≡◌, ◌⊎◌,
  ◌<◌, refl, arith, inl, inr, subst, sym, ap, ◌∙◌, Bool-cases, append_assoc, append-nil,
}
use ofborg.AsyncCmd.{WaitTarget, stderr, stdout, child, ExitStatus, is_waited, same_target, wait}
use ofborg.AsyncCmd.Steps.{
  State, start, Step, out_sends, errors_sends, out_ends, errors_ends, exits, receives, notices,
  Runs, here, further, out_channel_buffer_size,
}
use ofborg.AsyncCmd.Waiting.{IsWaiting, runs-IsWaiting, waited_status}

-- The third list is made of the two others, each in its order.
pub data Shuffle : List Text → List Text → List Text → Type 0 where
  neither : Shuffle [] [] []
  left :
      (a : Text) (xs ys zs : List Text)
      → Shuffle xs ys zs
      → Shuffle (xs ++ a ∷ []) ys (zs ++ a ∷ [])
  right :
      (a : Text) (xs ys zs : List Text)
      → Shuffle xs ys zs
      → Shuffle xs (ys ++ a ∷ []) (zs ++ a ∷ [])

-- The lines that were sent are received or under way.
record IsKept (out errors : List Text) (s : State) : Type 0 where
  pub out_sent : List Text
  pub errors_sent : List Text
  pub shuffled : Shuffle out_sent errors_sent (s.received ++ s.channel)
  pub out_kept : out ≡ out_sent ++ s.out.rest
  pub errors_kept : errors ≡ errors_sent ++ s.errors.rest

module _ (out errors : List Text) where
  one_more :
      (xs : List Text) (l : Text) (rest : List Text) → xs ++ l ∷ rest ≡ (xs ++ l ∷ []) ++ rest
  one_more xs l rest = sym (append_assoc xs (l ∷ []) rest)

  step-IsKept : (s t : State) → Step s t → IsKept out errors s → IsKept out errors t
  step-IsKept s _ (out_sends l rest e f) h = record {
    out_sent = h.out_sent ++ l ∷ [];
    errors_sent = h.errors_sent;
    shuffled =
        subst (Shuffle (h.out_sent ++ l ∷ []) h.errors_sent)
          (append_assoc s.received s.channel (l ∷ []))
          (left l h.out_sent h.errors_sent (s.received ++ s.channel) h.shuffled);
    out_kept = h.out_kept ∙ ap (λ r. h.out_sent ++ r) e ∙ one_more h.out_sent l rest;
    errors_kept = h.errors_kept;
  }
  step-IsKept s _ (errors_sends l rest e f) h = record {
    out_sent = h.out_sent;
    errors_sent = h.errors_sent ++ l ∷ [];
    shuffled =
        subst (Shuffle h.out_sent (h.errors_sent ++ l ∷ []))
          (append_assoc s.received s.channel (l ∷ []))
          (right l h.out_sent h.errors_sent (s.received ++ s.channel) h.shuffled);
    out_kept = h.out_kept;
    errors_kept = h.errors_kept ∙ ap (λ r. h.errors_sent ++ r) e ∙ one_more h.errors_sent l rest;
  }
  step-IsKept s _ (out_ends e f) h = record {
    out_sent = h.out_sent;
    errors_sent = h.errors_sent;
    shuffled = h.shuffled;
    out_kept = h.out_kept ∙ ap (λ r. h.out_sent ++ r) e;
    errors_kept = h.errors_kept;
  }
  step-IsKept s _ (errors_ends e f) h = record {
    out_sent = h.out_sent;
    errors_sent = h.errors_sent;
    shuffled = h.shuffled;
    out_kept = h.out_kept;
    errors_kept = h.errors_kept ∙ ap (λ r. h.errors_sent ++ r) e;
  }
  step-IsKept s _ (exits x e) h = record {
    out_sent = h.out_sent;
    errors_sent = h.errors_sent;
    shuffled = h.shuffled;
    out_kept = h.out_kept;
    errors_kept = h.errors_kept;
  }
  step-IsKept s _ (receives l rest e) h = record {
    out_sent = h.out_sent;
    errors_sent = h.errors_sent;
    shuffled =
        subst (Shuffle h.out_sent h.errors_sent)
          (ap (λ c. s.received ++ c) e ∙ one_more s.received l rest) h.shuffled;
    out_kept = h.out_kept;
    errors_kept = h.errors_kept;
  }
  step-IsKept s _ (notices n rest e f) h = record {
    out_sent = h.out_sent;
    errors_sent = h.errors_sent;
    shuffled = h.shuffled;
    out_kept = h.out_kept;
    errors_kept = h.errors_kept;
  }

  runs-IsKept :
      (status : Result ExitStatus Text) (n : ℕ) (t : State)
      → Runs (start out errors status) n t
      → IsKept out errors t
  unfolding start
  runs-IsKept status _ _ here = record {
    out_sent = [];
    errors_sent = [];
    shuffled = neither;
    out_kept = refl;
    errors_kept = refl;
  }
  runs-IsKept status _ _ (further n t u p q) = step-IsKept t u q (runs-IsKept status n t p)

-- All lines are sent and received, and the head waiter has heard of all that it waits for.
pub record IsDone (t : State) : Type 0 where
  pub waits_none : t.head.waiters ≡ []
  pub channel_empty : t.channel ≡ []
  pub out_sent : t.out.rest ≡ []
  pub errors_sent : t.errors.rest ≡ []

abbrev pub Moves : State → Type 0
Moves t = (u : State) × Step t u

list-cases : {A : Type 0} (xs : List A) → (xs ≡ []) ⊎ ((a : A) × (ys : List A) × (xs ≡ a ∷ ys))
list-cases [] = inl refl
list-cases (a ∷ ys) = inr (a, ys, refl)

module _ (status : Result ExitStatus Text) (t : State) (h : IsWaiting status t) where
  -- with no notice before it, the head waiter waits for a thread that has not told of its end
  untold-Moves :
      (w : WaitTarget) (ws : List WaitTarget)
      → t.head.waiters ≡ w ∷ ws
      → t.monitor ≡ []
      → t.out.rest ≡ []
      → t.errors.rest ≡ []
      → Moves t
  unfolding same_target
  untold-Moves stdout ws e m o r =
      (_, out_ends o (ground (arith, h.out_told (ap (is_waited stdout) e), m)))
  untold-Moves stderr ws e m o r =
      (_, errors_ends r (ground (arith, h.errors_told (ap (is_waited stderr) e), m)))
  untold-Moves child ws e m o r = running t.exit refl
    where
      running : (x : Option (Result ExitStatus Text)) → t.exit ≡ x → Moves t
      running (some x) f = (_, exits x f)
      running none f = absurd (ground (arith, h.child_told (ap (is_waited child) e) f, m))

  sending-Moves :
      (l : Text) (rest : List Text)
      → (length t.channel < out_channel_buffer_size → Moves t)
      → Moves t
  sending-Moves l rest f = elim (Bool-cases (ltb (length t.channel) out_channel_buffer_size)) [
    | inl e ↦ f (ltb→lt (length t.channel) out_channel_buffer_size e)
    | inr e ↦ elim (list-cases t.channel) [
      | inl g ↦ absurd (ground (arith, g))
      | inr (a, ys, g) ↦ (_, receives a ys g)
    ]
  ]

  pub IsDone-Moves : IsDone t ⊎ Moves t
  IsDone-Moves = elim (list-cases t.out.rest) [
    | inr (l, rest, e) ↦ inr (sending-Moves l rest (λ f. (_, out_sends l rest e f)))
    | inl o ↦ elim (list-cases t.errors.rest) [
      | inr (l, rest, e) ↦ inr (sending-Moves l rest (λ f. (_, errors_sends l rest e f)))
      | inl r ↦ elim (list-cases t.channel) [
        | inr (a, ys, g) ↦ inr (_, receives a ys g)
        | inl c ↦ elim (list-cases t.head.waiters) [
          | inl e ↦
              inl (record { waits_none = e; channel_empty = c; out_sent = o; errors_sent = r })
          | inr (w, ws, e) ↦ elim (list-cases t.monitor) [
            | inl m ↦ inr (untold-Moves w ws e m o r)
            | inr (n, ns, m) ↦ inr (_, notices n ns m (ap is_empty e))
          ]
        ]
      ]
    ]
  ]

-- What has come of a command that has nothing left to do.
pub done_lem :
    (out errors : List Text) (status : Result ExitStatus Text) (n : ℕ) (t : State)
    → Runs (start out errors status) n t
    → IsDone t
    → Shuffle out errors t.received × (wait (some t.head.return_status) ≡ status)
done_lem out errors status n t p d = (
  all_received (runs-IsKept out errors status n t p),
  waited_status status out errors n t p d.waits_none,
)
  where
    all_received : IsKept out errors t → Shuffle out errors t.received
    all_received h =
        let first = h.out_kept ∙ ap (λ r. h.out_sent ++ r) d.out_sent ∙ append-nil h.out_sent in
        let second =
          h.errors_kept ∙ ap (λ r. h.errors_sent ++ r) d.errors_sent ∙ append-nil h.errors_sent in
        let third = ap (λ c. t.received ++ c) d.channel_empty ∙ append-nil t.received in
        subst (λ x. Shuffle x errors t.received) (sym first)
          (subst (λ x. Shuffle h.out_sent x t.received) (sym second)
            (subst (Shuffle h.out_sent h.errors_sent) third h.shuffled))

-- However the threads of a command are scheduled, when none of them and not the caller can go on, the
-- caller has received every line of both outputs, those of each in their order and none twice, and
-- waiting for the command gives the status of the child.
pub stopped_lem :
    (out errors : List Text) (status : Result ExitStatus Text) (n : ℕ) (t : State)
    → Runs (start out errors status) n t
    → ((u : State) → Step t u → ⊥)
    → Shuffle out errors t.received × (wait (some t.head.return_status) ≡ status)
stopped_lem out errors status n t p stopped =
    elim (IsDone-Moves status t (runs-IsWaiting status out errors n t p)) [
      | inr (u, q) ↦ absurd (stopped u q)
      | inl d ↦ done_lem out errors status n t p d
    ]
