-- ===== src/Checkout/Guarded.antt =====
-- The order of locks and commands in a checkout: ofborg/src/clone.rs and ofborg/src/checkout.rs.
use ofborg.Base.{
  Bool, true, false, ◌&&◌, Option, none, some, List, [], ◌∷◌, ◌++◌, Text, text, text_eq,
  text_eq_refl, Result, ok, err, ◌≡◌, refl, subst, sym, arith,
}
use ofborg.Clone.{
  Event, locked, unlocked, ran, System, Git, GitClonable, GitCommand, continue, then_do, released,
  entered, with_lock, run_git,
}

-- the lock of a directory
abbrev pub lock_of : Text → Text
lock_of directory = directory ++ text ".lock"

abbrev pub holds : Option Text → Text → Bool
holds none p = false
holds (some q) p = text_eq q p

-- The trace takes no lock while it holds one, gives back the lock that it holds, runs git on a
-- directory only with the directory's lock, and holds none at its end.
unfoldable pub guarded : Option Text → List Event → Bool
guarded none [] = true
guarded (some p) [] = false
guarded none (locked p ∷ es) = guarded (some p) es
guarded (some q) (locked p ∷ es) = false
guarded h (unlocked p ∷ es) = holds h p && guarded none es
guarded h (ran d c ∷ es) = holds h (lock_of d) && guarded h es

-- Every event runs git on a directory of this lock.
unfoldable pub inside : Text → List Event → Bool
inside p [] = true
inside p (ran d c ∷ es) = text_eq p (lock_of d) && inside p es
inside p (locked q ∷ es) = false
inside p (unlocked q ∷ es) = false

pub guarded-append :
    (h : Option Text) (es fs : List Event)
    → guarded h es ≡ true
    → guarded none fs ≡ true
    → guarded h (es ++ fs) ≡ true
unfolding guarded
guarded-append none [] fs e f = f
guarded-append (some p) [] fs e f = absurd (ground arith)
guarded-append none (locked p ∷ es) fs e f = guarded-append (some p) es fs e f
guarded-append (some q) (locked p ∷ es) fs e f = absurd (ground arith)
guarded-append h (unlocked p ∷ es) fs e f = ground (arith, guarded-append none es fs)
guarded-append h (ran d c ∷ es) fs e f = ground (arith, guarded-append h es fs)

pub inside-append :
    (p : Text) (es fs : List Event)
    → inside p es ≡ true
    → inside p fs ≡ true
    → inside p (es ++ fs) ≡ true
unfolding inside
inside-append p [] fs e f = f
inside-append p (ran d c ∷ es) fs e f = ground (arith, inside-append p es fs)
inside-append p (locked q ∷ es) fs e f = absurd (ground arith)
inside-append p (unlocked q ∷ es) fs e f = absurd (ground arith)

guarded-inside :
    (p : Text) (es : List Event)
    → inside p es ≡ true
    → guarded (some p) (es ++ unlocked p ∷ []) ≡ true
unfolding guarded inside
guarded-inside p [] e = ground (arith, text_eq_refl p)
guarded-inside p (ran d c ∷ es) e = ground (arith, guarded-inside p es)
guarded-inside p (locked q ∷ es) e = absurd (ground arith)
guarded-inside p (unlocked q ∷ es) e = absurd (ground arith)

module _ {M : Type 0} where
  -- Whatever the system answers.
  pub record IsGuarded {A : Type 0} (c : Git M A) : Type 0 where
    pub has_guarded : (m : M) → guarded none (c m).1.0 ≡ true

  pub record IsInside {A : Type 0} (p : Text) (c : Git M A) : Type 0 where
    pub has_inside : (m : M) → inside p (c m).1.0 ≡ true

  pub then_do-IsGuarded :
      {A B : Type 0} (c : Git M A) (f : A → Git M B)
      → IsGuarded c
      → ((a : A) → IsGuarded (f a))
      → IsGuarded (then_do c f)
  unfolding then_do continue
  then_do-IsGuarded {A} {B} c f h k = record { has_guarded = λ m. both (c m) (h.has_guarded m) }
    where
      both :
          (r : M × (List Event × Result A Text))
          → guarded none r.1.0 ≡ true
          → guarded none (continue f r).1.0 ≡ true
      both (m, (es, err e)) g = g
      both (m, (es, ok a)) g = guarded-append none es (f a m).1.0 g ((k a).has_guarded m)

  pub then_do-IsInside :
      {A B : Type 0} (p : Text) (c : Git M A) (f : A → Git M B)
      → IsInside p c
      → ((a : A) → IsInside p (f a))
      → IsInside p (then_do c f)
  unfolding then_do continue
  then_do-IsInside {A} {B} p c f h k = record { has_inside = λ m. both (c m) (h.has_inside m) }
    where
      both :
          (r : M × (List Event × Result A Text))
          → inside p r.1.0 ≡ true
          → inside p (continue f r).1.0 ≡ true
      both (m, (es, err e)) g = g
      both (m, (es, ok a)) g = inside-append p es (f a m).1.0 g ((k a).has_inside m)

module _ {M : Type 0} (s : System M) where
  pub with_lock-IsGuarded :
      {A : Type 0} (g : GitClonable) (body : Git M A)
      → IsInside g.lock_path body
      → IsGuarded (with_lock s g body)
  unfolding with_lock entered released guarded
  with_lock-IsGuarded g body h = record { has_guarded = λ m. taken (s.lock g.lock_path m) }
    where
      taken : (r : M × Option Text) → guarded none (entered s g.lock_path body r).1.0 ≡ true
      taken (m, some e) = refl
      taken (m, none) = guarded-inside g.lock_path (body m).1.0 (h.has_inside m)

  pub run_git-IsInside :
      (g : GitClonable) (c : GitCommand)
      → g.lock_path ≡ lock_of g.clone_to
      → IsInside g.lock_path (run_git s g.clone_to c)
  unfolding run_git inside
  run_git-IsInside g c e = record {
    has_inside = λ m.
        subst (λ p. (text_eq p (lock_of g.clone_to) && true) ≡ true) (sym e)
          (ground (arith, text_eq_refl (lock_of g.clone_to)));
  }
