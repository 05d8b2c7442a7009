-- ===== src/Checkout/Exclusion.antt =====
-- Processes that work on the same checkouts at the same time, under the locks of
-- ofborg/src/clone.rs.
use ofborg.Base.{
  ℕ, true, Option, none, some, List, [], ◌∷◌, Text, text_eq_iff, if◌then◌else◌, ◌==◌, ==_iff, ◌≡◌,
  ◌≢◌, ◌⊎◌, refl, subst, sym, ap, ◌∙◌, arith, inl, inr, Bool-cases,
}
use ofborg.Clone.{Event, locked, unlocked, ran, GitCommand}
use ofborg.Checkout.Guarded.{lock_of, holds, guarded}

-- A process: the lock that it holds, and the events that it still has before it.
pub record Process : Type 0 where
  pub held : Option Text
  pub rest : List Event

abbrev Processes : Type 0
Processes = ℕ → Process

unfoldable pub put : ℕ → Process → Processes → Processes
put i x c j = if i == j then x else c j

-- One process takes its next event. It gets a lock that no process holds.
pub data Step (c : Processes) : ℕ → Processes → Type 0 where
  takes :
      (i : ℕ) (p : Text) (es : List Event)
      → (c i).held ≡ none
      → (c i).rest ≡ locked p ∷ es
      → ((j : ℕ) → (c j).held ≢ some p)
      → Step c i (put i (record { held = some p; rest = es }) c)
  gives :
      (i : ℕ) (p : Text) (es : List Event)
      → (c i).rest ≡ unlocked p ∷ es
      → Step c i (put i (record { held = none; rest = es }) c)
  runs :
      (i : ℕ) (d : Text) (g : GitCommand) (es : List Event)
      → (c i).rest ≡ ran d g ∷ es
      → Step c i (put i (record { held = (c i).held; rest = es }) c)

pub data Reaches (c : Processes) : Processes → Type 0 where
  here : Reaches c c
  further : (i : ℕ) (d e : Processes) → Reaches c d → Step d i e → Reaches c e

record IsOrderly (c : Processes) : Type 0 where
  pub in_order : (i : ℕ) → guarded (c i).held (c i).rest ≡ true
  pub exclusive : (i j : ℕ) (p : Text) → (c i).held ≡ some p → (c j).held ≡ some p → i ≡ j

put-guarded :
    (i : ℕ) (x : Process) (c : Processes)
    → guarded x.held x.rest ≡ true
    → ((j : ℕ) → guarded (c j).held (c j).rest ≡ true)
    → (j : ℕ) → guarded (put i x c j).held (put i x c j).rest ≡ true
unfolding put
put-guarded i x c h k j = elim (Bool-cases (i == j)) [ inl e ↦ rw e h | inr e ↦ rw e (k j) ]

-- A process that takes no lock keeps the locks exclusive.
put-exclusive :
    (i : ℕ) (x : Process) (c : Processes)
    → ((p : Text) (j : ℕ) → x.held ≡ some p → (c j).held ≡ some p → i ≡ j)
    → ((j k : ℕ) (p : Text) → (c j).held ≡ some p → (c k).held ≡ some p → j ≡ k)
    → (j k : ℕ) (p : Text) → (put i x c j).held ≡ some p
    → (put i x c k).held ≡ some p
    → j ≡ k
unfolding put
put-exclusive i x c h k a b p = elim (Bool-cases (i == a)) [
  | inl e ↦ elim (Bool-cases (i == b)) [
    | inl f ↦ λ _ _. ground arith
    | inr f ↦ rw (e, f) (λ u v. sym ((==_iff i a).0 e) ∙ h p b u v)
  ]
  | inr e ↦ elim (Bool-cases (i == b)) [
    | inl f ↦ rw (e, f) (λ u v. sym (h p a v u) ∙ (==_iff i b).0 f)
    | inr f ↦ rw (e, f) (k a b p)
  ]
]

after_takes :
    (h : Option Text) (p : Text) (r es : List Event)
    → h ≡ none
    → r ≡ locked p ∷ es
    → guarded h r ≡ true
    → guarded (some p) es ≡ true
unfolding guarded
after_takes h p r es e f g =
    subst (λ x. guarded none x ≡ true) f (subst (λ x. guarded x r ≡ true) e g)

after_gives :
    (h : Option Text) (p : Text) (r es : List Event)
    → r ≡ unlocked p ∷ es
    → guarded h r ≡ true
    → (holds h p ≡ true) × (guarded none es ≡ true)
unfolding guarded
after_gives h p r es f g = given h (subst (λ x. guarded h x ≡ true) f g)
  where
    given :
        (h : Option Text)
        → guarded h (unlocked p ∷ es) ≡ true
        → (holds h p ≡ true) × (guarded none es ≡ true)
    given none k = ground (arith, k)
    given (some q) k = ground (arith, k)

after_runs :
    (h : Option Text) (d : Text) (g : GitCommand) (r es : List Event)
    → r ≡ ran d g ∷ es
    → guarded h r ≡ true
    → (holds h (lock_of d) ≡ true) × (guarded h es ≡ true)
unfolding guarded
after_runs h d c r es f g = given h (subst (λ x. guarded h x ≡ true) f g)
  where
    given :
        (h : Option Text)
        → guarded h (ran d c ∷ es) ≡ true
        → (holds h (lock_of d) ≡ true) × (guarded h es ≡ true)
    given none k = ground (arith, k)
    given (some q) k = ground (arith, k)

holds-some : (h : Option Text) (p : Text) → holds h p ≡ true → h ≡ some p
holds-some none p e = absurd (ground arith)
holds-some (some q) p e = ap some ((text_eq_iff q p).0 e)

step-IsOrderly : (k : ℕ) (c d : Processes) → Step c k d → IsOrderly c → IsOrderly d
step-IsOrderly _ c _ (takes i p es e f free) h = record {
  in_order =
      put-guarded i (record { held = some p; rest = es }) c
        (after_takes (c i).held p (c i).rest es e f (h.in_order i)) h.in_order;
  exclusive =
      put-exclusive i (record { held = some p; rest = es }) c
        (λ q j u v. absurd (free j (v ∙ sym u))) h.exclusive;
}
step-IsOrderly _ c _ (gives i p es f) h = record {
  in_order =
      put-guarded i (record { held = none; rest = es }) c
        (after_gives (c i).held p (c i).rest es f (h.in_order i)).1 h.in_order;
  exclusive =
      put-exclusive i (record { held = none; rest = es }) c (λ q j u v. absurd (ground arith))
        h.exclusive;
}
step-IsOrderly _ c _ (runs i d g es f) h = record {
  in_order =
      put-guarded i (record { held = (c i).held; rest = es }) c
        (after_runs (c i).held d g (c i).rest es f (h.in_order i)).1 h.in_order;
  exclusive =
      put-exclusive i (record { held = (c i).held; rest = es }) c (λ q j u v. h.exclusive i j q u v)
        h.exclusive;
}

Reaches-IsOrderly : (c d : Processes) → Reaches c d → IsOrderly c → IsOrderly d
Reaches-IsOrderly c d here h = h
Reaches-IsOrderly c _ (further i d e r s) h = step-IsOrderly i d e s (Reaches-IsOrderly c d r h)

-- At the beginning no process holds a lock, and every one has a guarded trace before it.
pub record IsFresh (c : Processes) : Type 0 where
  pub holds_none : (i : ℕ) → (c i).held ≡ none
  pub has_guarded : (i : ℕ) → guarded none (c i).rest ≡ true

fresh-IsOrderly : (c : Processes) → IsFresh c → IsOrderly c
fresh-IsOrderly c h = record {
  in_order = λ i. subst (λ x. guarded x (c i).rest ≡ true) (sym (h.holds_none i)) (h.has_guarded i);
  exclusive = λ i j p u v. absurd (empty (sym (h.holds_none i) ∙ u));
}
  where
    empty : {p : Text} → Path (Option Text) none (some p) → ⊥
    empty e = ground arith

pub runs_alone :
    (c d : Processes) (i j : ℕ) (directory : Text) (g g' : GitCommand) (es es' : List Event)
    → IsFresh c
    → Reaches c d
    → (d i).rest ≡ ran directory g ∷ es
    → (d j).rest ≡ ran directory g' ∷ es'
    → i ≡ j
runs_alone c d i j directory g g' es es' h r e f =
    let orderly = Reaches-IsOrderly c d r (fresh-IsOrderly c h) in
    let ours = after_runs (d i).held directory g (d i).rest es e (orderly.in_order i) in
    let theirs = after_runs (d j).held directory g' (d j).rest es' f (orderly.in_order j) in
    orderly.exclusive i j (lock_of directory) (holds-some (d i).held (lock_of directory) ours.0)
      (holds-some (d j).held (lock_of directory) theirs.0)

-- the process can take its next event
abbrev pub Moves : Processes → ℕ → Type 0
Moves d i = (e : Processes) × Step d i e

holder-Moves :
    (d : Processes) (j : ℕ) (p : Text) (r : List Event)
    → (d j).held ≡ some p
    → (d j).rest ≡ r
    → guarded (some p) r ≡ true
    → Moves d j
unfolding guarded
holder-Moves d j p [] e f h = absurd (ground arith)
holder-Moves d j p (locked q ∷ es) e f h = absurd (ground arith)
holder-Moves d j p (unlocked q ∷ es) e f h = (_, gives j q es f)
holder-Moves d j p (ran a g ∷ es) e f h = (_, runs j a g es f)

pub waiting-Moves :
    (c d : Processes) (i : ℕ) (ev : Event) (es : List Event)
    → IsFresh c
    → Reaches c d
    → (d i).rest ≡ ev ∷ es
    → Moves d i
      ⊎ ((p : Text) × (ev ≡ locked p)
          × ((j : ℕ) → (d j).held ≡ some p → Moves d j)
          × (((j : ℕ) → (d j).held ≢ some p) → Moves d i))
waiting-Moves c d i (locked p) es h r e =
    let orderly = Reaches-IsOrderly c d r (fresh-IsOrderly c h) in
    inr (
      p,
      refl,
      λ j f.
          holder-Moves d j p (d j).rest f refl
            (subst (λ x. guarded x (d j).rest ≡ true) f (orderly.in_order j)),
      λ free. (_, takes i p es (waits (d i).held (d i).rest e (orderly.in_order i)) e free),
    )
  where
    waits : (x : Option Text) (t : List Event) → t ≡ locked p ∷ es → guarded x t ≡ true → x ≡ none
    waits none t f g = refl
    waits (some q) t f g = absurd (blocked (subst (λ u. guarded (some q) u ≡ true) f g))
      where
        blocked : guarded (some q) (locked p ∷ es) ≡ true → ⊥
        blocked k = unfold guarded in ground arith
waiting-Moves c d i (unlocked p) es h r e = inl (_, gives i p es e)
waiting-Moves c d i (ran a g) es h r e = inl (_, runs i a g es e)
