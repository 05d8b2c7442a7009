-- ===== src/CommentFilter/Grammar/Tokens.antt =====
-- Reading the words behind an instruction: ofborg/src/commentparser.rs.
use ofborg.Base.{
  ℕ, ◌<◌, ◌≤◌, true, false, not, List, [], ◌∷◌, ◌++◌, map, all, length, length-append, Text, text,
  text_eq_iff, ascii_lower, to_ascii_lowercase, All, ◌≡◌, inl, inr, refl, sym, ap, ◌∙◌, arith,
  Bool-cases,
}
use ofborg.CommentFilter.Grammar.{done, error, Parser, Nom, is_ascii_graphic, is_name, normal_token}
use ofborg.CommentFilter.Grammar.Documented.{skip, ends, is_space, IsNom}
use ofborg.CommentFilter.Grammar.Spoken.{words, is_token, IsGraham}

pub skip_idem : (s : Text) → skip (skip s) ≡ skip s
unfolding skip
skip_idem [] = refl
skip_idem (c ∷ s) = elim (Bool-cases (is_space c)) [
  | inl h ↦ rw h (skip_idem s)
  | inr h ↦ rw (h, skip, h) refl
]

pub skip_stays : (c : ℕ) (s : Text) → is_space c ≡ false → skip (c ∷ s) ≡ c ∷ s
unfolding skip
skip_stays c s h = rw h refl

pub length-skip : (s : Text) → length (skip s) ≤ length s
unfolding skip
length-skip [] = omega arith
length-skip (c ∷ s) = elim (Bool-cases (is_space c)) [
  | inl h ↦ rw h (omega (arith, length-skip s))
  | inr h ↦ rw h (omega arith)
]

pub skip_token : (t s : Text) → is_token t ≡ true → skip (t ++ s) ≡ t ++ s
unfolding is_token
skip_token [] s h = ground arith
skip_token (c ∷ t) s h = skip_stays c (t ++ s) (ground (arith, h))

graphic_lower : (c : ℕ) → is_ascii_graphic (ascii_lower c) ≡ is_ascii_graphic c
unfolding ascii_lower
graphic_lower c = ground arith

pub all-graphic : (s : Text) → all is_ascii_graphic (to_ascii_lowercase s) ≡ all is_ascii_graphic s
unfolding to_ascii_lowercase
all-graphic [] = refl
all-graphic (c ∷ s) = rw (graphic_lower c, all-graphic s) refl

-- A name is a run of graphic characters, but no token.
module _ (nom : Nom) (laws : IsNom nom) where
  open nom use {ws_many1, map_result}
  open laws use {
    take_while1_takes, take_while1_refuses, verify_holds, verify_fails, verify_error, map_done,
    map_error, ws_many1_once, ws_many1_more,
  }

  normal_token_takes :
      (t s : Text)
      → is_token t ≡ true
      → ends is_ascii_graphic s ≡ true
      → normal_token nom (t ++ s) ≡ done s t
  unfolding normal_token is_token
  normal_token_takes [] s h e = ground arith
  normal_token_takes (c ∷ t) s h e =
      verify_holds (nom.take_while1 is_ascii_graphic) (λ w. not (is_name w)) ((c ∷ t) ++ s) s
        (c ∷ t) (take_while1_takes is_ascii_graphic c t s (ground (arith, h)) e) (ground (arith, h))

  pub normal_token_at_end : normal_token nom [] ≡ error
  unfolding normal_token
  normal_token_at_end =
      verify_error (nom.take_while1 is_ascii_graphic) (λ w. not (is_name w)) []
        (take_while1_refuses is_ascii_graphic [] refl)

  pub normal_token_refuses_name :
      (name s : Text) → IsGraham name → normal_token nom (name ++ b' ' ∷ s) ≡ error
  unfolding normal_token is_name to_ascii_lowercase text
  normal_token_refuses_name [] s h = ground arith
  normal_token_refuses_name (c ∷ t) s h =
      verify_fails (nom.take_while1 is_ascii_graphic) (λ w. not (is_name w)) ((c ∷ t) ++ b' ' ∷ s)
        (b' ' ∷ s) (c ∷ t)
        (take_while1_takes is_ascii_graphic c t (b' ' ∷ s)
          (sym (all-graphic (c ∷ t)) ∙ ap (all is_ascii_graphic) h) refl)
        (ap not ((text_eq_iff (to_ascii_lowercase (c ∷ t)) (text "@grahamcofborg")).1 h))

  shorter : (t s r : Text) → is_token t ≡ true → s ≡ t ++ r → length r < length s
  unfolding is_token
  shorter [] s r h e = ground arith
  shorter (c ∷ t) s r h e = omega (arith, ap length e, length-append (c ∷ t) r)

  -- Where the words end: no further word can be read.
  abbrev pub Closed : Text → Type 0
  Closed r = (ends is_ascii_graphic r ≡ true) × (normal_token nom (skip r) ≡ error)

  module _ (f : Text → Text) where
    abbrev pub word : Parser Text
    word = map_result (normal_token nom) f

    pub words_behind :
        (t : Text) (ts : List Text) (s r : Text)
        → is_token t ≡ true
        → All (λ w. is_token w ≡ true) ts
        → Closed r
        → skip s ≡ t ++ words ts r
        → ws_many1 word s ≡ done (skip r) (f t ∷ map f ts)
    unfolding words
    words_behind t [] s r h _ c e =
        ws_many1_once word s r (f t)
          (ap word e ∙ map_done (normal_token nom) f (t ++ r) r t (normal_token_takes t r h c.0))
          (shorter t (skip s) r h e) (map_error (normal_token nom) f (skip r) c.1)
    words_behind t (u ∷ us) s r h (k, ks) c e =
        let rest : Text = words (u ∷ us) r in
        ws_many1_more word s rest (skip r) (f t) (map f (u ∷ us))
          (ap word e
            ∙ map_done (normal_token nom) f (t ++ rest) rest t (normal_token_takes t rest h refl))
          (shorter t (skip s) rest h e)
          (words_behind u us rest r k ks c (unfold skip in skip_token u (words us r) k))
