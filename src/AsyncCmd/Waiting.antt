-- ===== src/AsyncCmd/Waiting.antt =====
-- What the head waiter waits for, and that it gets it: ofborg/src/asynccmd.rs.
use ofborg.Base.{
  ℕ, Bool, true, false, not, ◌&&◌, ◌||◌, none, some, List, [], ◌∷◌, ◌++◌, keep, any, Text, Result,
  ◌≡◌, refl, arith, All, All-append, subst, ap,
}
use ofborg.AsyncCmd.{
  WaitTarget, stderr, stdout, child, same_target, ExitStatus, thread, process, Notice, spawn_join,
  child_wait, Head, new_head, is_waited, receive_notice, wait,
}
use ofborg.AsyncCmd.Steps.{
  State, start, Step, out_sends, errors_sends, out_ends, errors_ends, exits, receives, notices,
  Runs, here, further,
}

-- The thread has told of its end, and the head waiter has not heard of it.
abbrev told : WaitTarget → List Notice → Bool
told id monitor = any (λ n. same_target id n.0) monitor

told-append :
    (id : WaitTarget) (ms ns : List Notice) → told id (ms ++ ns) ≡ (told id ms || told id ns)
told-append id [] ns = refl
told-append id (m ∷ ms) ns = ground (arith, told-append id ms ns)

-- A notice of the child carries its status, and no other carries one.
abbrev IsTrue : Result ExitStatus Text → Notice → Type 0
IsTrue r (stderr, thread t) = Unit
IsTrue r (stderr, process x) = ⊥
IsTrue r (stdout, thread t) = Unit
IsTrue r (stdout, process x) = ⊥
IsTrue r (child, thread t) = ⊥
IsTrue r (child, process x) = x ≡ r

pub record IsWaiting (r : Result ExitStatus Text) (s : State) : Type 0 where
  pub out_told :
      is_waited stdout s.head.waiters ≡ true → s.out.ended ≡ true → told stdout s.monitor ≡ true
  pub errors_told :
      is_waited stderr s.head.waiters ≡ true → s.errors.ended ≡ true → told stderr s.monitor ≡ true
  pub child_told :
      is_waited child s.head.waiters ≡ true → s.exit ≡ none → told child s.monitor ≡ true
  pub true_exit : (x : Result ExitStatus Text) → s.exit ≡ some x → x ≡ r
  pub true_monitor : All (IsTrue r) s.monitor
  pub reported : is_waited child s.head.waiters ≡ false → s.head.return_status ≡ some r

same_target-swap :
    (id w v : WaitTarget) → same_target w v ≡ true → same_target id v ≡ same_target id w
unfolding same_target
same_target-swap id stderr stderr e = refl
same_target-swap id stdout stdout e = refl
same_target-swap id child child e = refl
same_target-swap id stderr stdout e = absurd (ground arith)
same_target-swap id stderr child e = absurd (ground arith)
same_target-swap id stdout stderr e = absurd (ground arith)
same_target-swap id stdout child e = absurd (ground arith)
same_target-swap id child stderr e = absurd (ground arith)
same_target-swap id child stdout e = absurd (ground arith)

same_target-sym : (v w : WaitTarget) → same_target v w ≡ same_target w v
unfolding same_target
same_target-sym stderr stderr = refl
same_target-sym stdout stdout = refl
same_target-sym child child = refl
same_target-sym stderr stdout = refl
same_target-sym stderr child = refl
same_target-sym stdout stderr = refl
same_target-sym stdout child = refl
same_target-sym child stderr = refl
same_target-sym child stdout = refl

waited-keep :
    (id w : WaitTarget) (ws : List WaitTarget)
    → is_waited id (keep (λ v. not (same_target w v)) ws)
      ≡ (is_waited id ws && not (same_target w id))
waited-keep id w [] = refl
waited-keep id w (v ∷ ws) = ground (
  arith,
  waited-keep id w ws,
  same_target-swap id w v,
  same_target-swap w id v,
  same_target-sym id w,
)

-- A thread that is waited for after a notice was waited for before it, and it is not the notice's.
waited-receive_notice :
    (id : WaitTarget) (n : Notice) (h : Head)
    → is_waited id (receive_notice n h).waiters
      ≡ (is_waited id h.waiters && not (same_target n.0 id))
unfolding receive_notice
waited-receive_notice id (w, x) h =
    ground (arith, waited-keep id w h.waiters, unwaited id w h.waiters)
  where
    unwaited :
        (a b : WaitTarget) (ws : List WaitTarget)
        → is_waited b ws ≡ false
        → is_waited a ws ≡ (is_waited a ws && not (same_target b a))
    unwaited a b [] e = refl
    unwaited a b (v ∷ ws) e = ground (
      arith,
      unwaited a b ws,
      same_target-swap v a b,
      same_target-sym b a,
      same_target-sym v b,
      same_target-sym v a,
    )

still-told :
    (id : WaitTarget) (n : Notice) (ns : List Notice) (h : Head)
    → (is_waited id h.waiters ≡ true → told id (n ∷ ns) ≡ true)
    → is_waited id (receive_notice n h).waiters ≡ true
    → told id ns ≡ true
still-told id n ns h e f = ground (arith, waited-receive_notice id n h, same_target-sym id n.0)

reported-receive_notice :
    (r : Result ExitStatus Text) (n : Notice) (h : Head)
    → IsTrue r n
    → (is_waited child h.waiters ≡ false → h.return_status ≡ some r)
    → is_waited child (receive_notice n h).waiters ≡ false
    → (receive_notice n h).return_status ≡ some r
unfolding receive_notice same_target
reported-receive_notice r (stderr, thread t) h e f =
    ground (arith, waited-keep child stderr h.waiters)
reported-receive_notice r (stderr, process x) h e f = absurd e
reported-receive_notice r (stdout, thread t) h e f =
    ground (arith, waited-keep child stdout h.waiters)
reported-receive_notice r (stdout, process x) h e f = absurd e
reported-receive_notice r (child, thread t) h e f = absurd e
reported-receive_notice r (child, process x) h e f = ground (arith, e)

told-grown :
    (id : WaitTarget) (ms : List Notice) (n : Notice)
    → told id ms ≡ true
    → told id (ms ++ n ∷ []) ≡ true
told-grown id ms n e = ground (arith, told-append id ms (n ∷ []))

told-new :
    (id : WaitTarget) (ms : List Notice) (n : Notice)
    → same_target id n.0 ≡ true
    → told id (ms ++ n ∷ []) ≡ true
told-new id ms n e = ground (arith, told-append id ms (n ∷ []))

module _ (r : Result ExitStatus Text) where
  -- A step that sends or receives a line changes nothing of this.
  line-IsWaiting :
      (s : State) (out errors : List Text) (channel received : List Text)
      → IsWaiting r s
      → IsWaiting r (record s {
        out = record { rest = out; ended = s.out.ended };
        errors = record { rest = errors; ended = s.errors.ended };
        channel = channel;
        received = received;
      })
  line-IsWaiting s out errors channel received h = record {
    out_told = h.out_told;
    errors_told = h.errors_told;
    child_told = h.child_told;
    true_exit = h.true_exit;
    true_monitor = h.true_monitor;
    reported = h.reported;
  }

  step-IsWaiting : (s t : State) → Step s t → IsWaiting r s → IsWaiting r t
  unfolding spawn_join child_wait same_target
  step-IsWaiting s _ (out_sends l rest e f) h =
      line-IsWaiting s rest s.errors.rest (s.channel ++ l ∷ []) s.received h
  step-IsWaiting s _ (errors_sends l rest e f) h =
      line-IsWaiting s s.out.rest rest (s.channel ++ l ∷ []) s.received h
  step-IsWaiting s _ (receives l rest e) h =
      line-IsWaiting s s.out.rest s.errors.rest rest (s.received ++ l ∷ []) h
  step-IsWaiting s _ (out_ends e f) h = record {
    out_told = λ u v. told-new stdout s.monitor (spawn_join stdout) refl;
    errors_told = λ u v. told-grown stderr s.monitor (spawn_join stdout) (h.errors_told u v);
    child_told = λ u v. told-grown child s.monitor (spawn_join stdout) (h.child_told u v);
    true_exit = h.true_exit;
    true_monitor = All-append (IsTrue r) s.monitor (spawn_join stdout ∷ []) h.true_monitor (tt, tt);
    reported = h.reported;
  }
  step-IsWaiting s _ (errors_ends e f) h = record {
    out_told = λ u v. told-grown stdout s.monitor (spawn_join stderr) (h.out_told u v);
    errors_told = λ u v. told-new stderr s.monitor (spawn_join stderr) refl;
    child_told = λ u v. told-grown child s.monitor (spawn_join stderr) (h.child_told u v);
    true_exit = h.true_exit;
    true_monitor = All-append (IsTrue r) s.monitor (spawn_join stderr ∷ []) h.true_monitor (tt, tt);
    reported = h.reported;
  }
  step-IsWaiting s _ (exits x e) h = record {
    out_told = λ u v. told-grown stdout s.monitor (child_wait x) (h.out_told u v);
    errors_told = λ u v. told-grown stderr s.monitor (child_wait x) (h.errors_told u v);
    child_told = λ u v. told-new child s.monitor (child_wait x) refl;
    true_exit = λ y f. absurd (ground arith);
    true_monitor =
        All-append (IsTrue r) s.monitor (child_wait x ∷ []) h.true_monitor (h.true_exit x e, tt);
    reported = h.reported;
  }
  step-IsWaiting s _ (notices n rest e f) h =
      let all_true = subst (All (IsTrue r)) e h.true_monitor in
      record {
        out_told = λ u v.
            still-told stdout n rest s.head
              (λ w. subst (λ m. told stdout m ≡ true) e (h.out_told w v)) u;
        errors_told = λ u v.
            still-told stderr n rest s.head
              (λ w. subst (λ m. told stderr m ≡ true) e (h.errors_told w v)) u;
        child_told = λ u v.
            still-told child n rest s.head
              (λ w. subst (λ m. told child m ≡ true) e (h.child_told w v)) u;
        true_exit = h.true_exit;
        true_monitor = all_true.1;
        reported = reported-receive_notice r n s.head all_true.0 h.reported;
      }

  start-IsWaiting : (out errors : List Text) → IsWaiting r (start out errors r)
  unfolding start new_head same_target
  start-IsWaiting out errors = record {
    out_told = λ u v. absurd (ground arith);
    errors_told = λ u v. absurd (ground arith);
    child_told = λ u v. absurd (ground arith);
    true_exit = λ x e. ground arith;
    true_monitor = tt;
    reported = λ u. absurd (ground arith);
  }

  pub runs-IsWaiting :
      (out errors : List Text) (n : ℕ) (t : State) → Runs (start out errors r) n t → IsWaiting r t
  runs-IsWaiting out errors _ _ here = start-IsWaiting out errors
  runs-IsWaiting out errors _ _ (further n t u p q) =
      step-IsWaiting t u q (runs-IsWaiting out errors n t p)

  -- Whenever the head waiter has heard of all that it waits for, waiting for the command gives the
  -- status of the child, in whatever order the notices came.
  pub waited_status :
      (out errors : List Text) (n : ℕ) (t : State)
      → Runs (start out errors r) n t
      → t.head.waiters ≡ []
      → wait (some t.head.return_status) ≡ r
  unfolding wait
  waited_status out errors n t p e =
      let status : t.head.return_status ≡ some r =
        (runs-IsWaiting out errors n t p).reported (ap (is_waited child) e) in
      ap (λ x. wait (some x)) status
