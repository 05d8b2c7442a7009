-- ===== src/Checkout/Script.antt =====
-- In which order git runs: ofborg/src/clone.rs and ofborg/src/checkout.rs.
use ofborg.Base.{
  Bool, true, false, Option, none, some, List, [], ◌∷◌, ◌++◌, append-nil, Text, Result, ok, err,
  ◌≡◌, ◌⊎◌, inl, inr, refl, sym, ap, ◌∙◌, subst, arith, Bool-cases,
}
use ofborg.Clone.{
  Event, locked, unlocked, ran, System, Output, Git, GitClonable, GitCommand, continue, then_do,
  released, entered, with_lock, run_git, or_fail, make_dir, created_dir,
}

-- The runs of git in a trace, each with its directory.
unfoldable pub commands : List Event → List (Text × GitCommand)
commands [] = []
commands (ran d c ∷ es) = (d, c) ∷ commands es
commands (locked p ∷ es) = commands es
commands (unlocked p ∷ es) = commands es

commands-append : (es fs : List Event) → commands (es ++ fs) ≡ commands es ++ commands fs
unfolding commands
commands-append [] fs = refl
commands-append (ran d c ∷ es) fs = ap (λ l. (d, c) ∷ l) (commands-append es fs)
commands-append (locked p ∷ es) fs = commands-append es fs
commands-append (unlocked p ∷ es) fs = commands-append es fs

-- The runs that are planned; one with `true` may be left out.
abbrev pub Script : Type 0
Script = List (Bool × (Text × GitCommand))

abbrev pub Completes : Script → List (Text × GitCommand) → Type 0
Completes [] cs = cs ≡ []
Completes ((optional, c) ∷ s) cs =
    ((optional ≡ true) × Completes s cs)
    ⊎ ((rest : List (Text × GitCommand)) × (cs ≡ c ∷ rest) × Completes s rest)

-- The runs are a beginning of the script.
abbrev pub Starts : Script → List (Text × GitCommand) → Type 0
Starts [] cs = cs ≡ []
Starts ((optional, c) ∷ s) cs =
    (cs ≡ [])
    ⊎ ((optional ≡ true) × Starts s cs)
    ⊎ ((rest : List (Text × GitCommand)) × (cs ≡ c ∷ rest) × Starts s rest)

Starts-nil : (s : Script) → Starts s []
Starts-nil [] = refl
Starts-nil ((o, c) ∷ s) = inl refl

Starts-append : (s t : Script) (cs : List (Text × GitCommand)) → Starts s cs → Starts (s ++ t) cs
Starts-append [] t cs e = subst (Starts t) (sym e) (Starts-nil t)
Starts-append ((o, c) ∷ s) t cs (inl e) = inl e
Starts-append ((o, c) ∷ s) t cs (inr (inl (h, k))) = inr (inl (h, Starts-append s t cs k))
Starts-append ((o, c) ∷ s) t cs (inr (inr (rest, e, k))) =
    inr (inr (rest, e, Starts-append s t rest k))

Completes-Starts :
    (s t : Script) (cs ds : List (Text × GitCommand))
    → Completes s cs
    → Starts t ds
    → Starts (s ++ t) (cs ++ ds)
Completes-Starts [] t cs ds e k = subst (λ l. Starts t (l ++ ds)) (sym e) k
Completes-Starts ((o, c) ∷ s) t cs ds (inl (h, i)) k = inr (inl (h, Completes-Starts s t cs ds i k))
Completes-Starts ((o, c) ∷ s) t cs ds (inr (rest, e, i)) k =
    inr (inr (rest ++ ds, ap (λ l. l ++ ds) e, Completes-Starts s t rest ds i k))

Completes-Completes :
    (s t : Script) (cs ds : List (Text × GitCommand))
    → Completes s cs
    → Completes t ds
    → Completes (s ++ t) (cs ++ ds)
Completes-Completes [] t cs ds e k = subst (λ l. Completes t (l ++ ds)) (sym e) k
Completes-Completes ((o, c) ∷ s) t cs ds (inl (h, i)) k = inl (h, Completes-Completes s t cs ds i k)
Completes-Completes ((o, c) ∷ s) t cs ds (inr (rest, e, i)) k =
    inr (rest ++ ds, ap (λ l. l ++ ds) e, Completes-Completes s t rest ds i k)

-- The runs keep to the script, and are all of it if the computation succeeds.
abbrev pub Keeps : {M A : Type 0} → Script → M × (List Event × Result A Text) → Type 0
Keeps s (m, (es, ok a)) = Completes s (commands es)
Keeps s (m, (es, err e)) = Starts s (commands es)

module _ {M : Type 0} where
  continue-Keeps :
      {A B : Type 0} (s t : Script) (f : A → Git M B) (o : M × (List Event × Result A Text))
      → Keeps s o
      → ((a : A) (m : M) → Keeps t (f a m))
      → Keeps (s ++ t) (continue f o)
  unfolding continue
  continue-Keeps s t f (m, (es, err e)) h k = Starts-append s t (commands es) h
  continue-Keeps {B = B} s t f (m, (es, ok a)) h k = go (f a m) (k a m)
    where
      go :
          (o : M × (List Event × Result B Text))
          → Keeps t o
          → Keeps (s ++ t) (o.0, (es ++ o.1.0, o.1.1))
      go (m', (fs, ok b)) k =
          subst (Completes (s ++ t)) (sym (commands-append es fs))
            (Completes-Completes s t (commands es) (commands fs) h k)
      go (m', (fs, err e)) k =
          subst (Starts (s ++ t)) (sym (commands-append es fs))
            (Completes-Starts s t (commands es) (commands fs) h k)

  pub then_do-Keeps :
      {A B : Type 0} (s t : Script) (c : Git M A) (f : A → Git M B)
      → ((m : M) → Keeps s (c m))
      → ((a : A) (m : M) → Keeps t (f a m))
      → (m : M) → Keeps (s ++ t) (then_do c f m)
  unfolding then_do
  then_do-Keeps s t c f h k m = continue-Keeps s t f (c m) (h m) k

module _ {M : Type 0} (sys : System M) where
  commands_locked :
      (p q : Text) (es : List Event) → commands (locked p ∷ (es ++ unlocked q ∷ [])) ≡ commands es
  unfolding commands
  commands_locked p q es = commands-append es (unlocked q ∷ []) ∙ append-nil (commands es)

  released-Keeps :
      {A : Type 0} (s : Script) (p : Text) (o : M × (List Event × Result A Text))
      → Keeps s o
      → Keeps s (released sys p o)
  unfolding released
  released-Keeps s p (m, (es, ok a)) h = subst (Completes s) (sym (commands_locked p p es)) h
  released-Keeps s p (m, (es, err e)) h = subst (Starts s) (sym (commands_locked p p es)) h

  entered-Keeps :
      {A : Type 0} (s : Script) (p : Text) (body : Git M A) (o : M × Option Text)
      → ((m : M) → Keeps s (body m))
      → Keeps s (entered sys p body o)
  unfolding entered commands
  entered-Keeps s p body (m, some e) h = Starts-nil s
  entered-Keeps s p body (m, none) h = released-Keeps s p (body m) (h m)

  pub with_lock-Keeps :
      {A : Type 0} (s : Script) (g : GitClonable) (body : Git M A)
      → ((m : M) → Keeps s (body m))
      → (m : M) → Keeps s (with_lock sys g body m)
  unfolding with_lock
  with_lock-Keeps s g body h m = entered-Keeps s g.lock_path body (sys.lock g.lock_path m) h

  pub run_git-Keeps :
      (d : Text) (c : GitCommand) (m : M) → Keeps ((false, (d, c)) ∷ []) (run_git sys d c m)
  unfolding run_git commands
  run_git-Keeps d c m = go (sys.git c m)
    where
      go : (o : M × Result Output Text) → Keeps ((false, (d, c)) ∷ []) (o.0, (ran d c ∷ [], o.1))
      go (m', ok out) = inr ([], refl, refl)
      go (m', err e) = inr (inr ([], refl, refl))

  or_fail-Keeps : (message : Text) (out : Output) (m : M) → Keeps [] (or_fail sys message out m)
  unfolding commands
  or_fail-Keeps message out m = elim (Bool-cases out.success) [
    | inl h ↦ rw h refl
    | inr h ↦ rw h refl
  ]

  pub make_dir-Keeps : (p : Text) (m : M) → Keeps [] (make_dir sys p m)
  unfolding make_dir commands
  make_dir-Keeps p m = go (sys.create_dir_all p m)
    where
      go : (o : M × Option Text) → Keeps [] (created_dir sys o)
      go (m', none) = refl
      go (m', some e) = refl

  -- one command that is judged by its end
  pub judged-Keeps :
      (d : Text) (c : GitCommand) (message : Text) (m : M)
      → Keeps ((false, (d, c)) ∷ []) (then_do (run_git sys d c) (or_fail sys message) m)
  judged-Keeps d c message m =
      then_do-Keeps ((false, (d, c)) ∷ []) [] (run_git sys d c) (or_fail sys message)
        (run_git-Keeps d c) (or_fail-Keeps message) m

  -- the same under the lock
  pub locked-Keeps :
      (g : GitClonable) (d : Text) (c : GitCommand) (message : Text) (m : M)
      → Keeps
          ((false, (d, c)) ∷ [])
          (with_lock sys g (then_do (run_git sys d c) (or_fail sys message)) m)
  locked-Keeps g d c message =
      with_lock-Keeps ((false, (d, c)) ∷ []) g (then_do (run_git sys d c) (or_fail sys message))
        (judged-Keeps d c message)

  pub optional-Keeps :
      {A : Type 0} (d : Text) (c : GitCommand) (o : M × (List Event × Result A Text))
      → Keeps ((false, (d, c)) ∷ []) o
      → Keeps ((true, (d, c)) ∷ []) o
  optional-Keeps d c (m, (es, ok a)) (inl (h, i)) = absurd (ground (arith, h))
  optional-Keeps d c (m, (es, ok a)) (inr r) = inr r
  optional-Keeps d c (m, (es, err e)) (inl h) = inl h
  optional-Keeps d c (m, (es, err e)) (inr (inl (h, i))) = absurd (ground (arith, h))
  optional-Keeps d c (m, (es, err e)) (inr (inr r)) = inr (inr r)
