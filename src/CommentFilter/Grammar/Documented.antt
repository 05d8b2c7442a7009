-- ===== src/CommentFilter/Grammar/Documented.antt =====
-- What nom documents of the macros that ofborg/src/commentparser.rs uses.
use ofborg.Base.{
  ℕ, ◌<◌, Bool, true, false, not, ◌||◌, ◌==◌, List, [], ◌∷◌, ◌++◌, all, length, Text, ascii_lower,
  to_ascii_lowercase, ◌≡◌, ◌≢◌, if◌then◌else◌,
}
use ofborg.CommentFilter.Grammar.{done, error, Parser, Nom}

-- The white space that `ws!` skips.
abbrev pub is_space : ℕ → Bool
is_space c = c == b' ' || (c == 9 || (c == 10 || c == 13))

unfoldable pub skip : Text → Text
skip [] = []
skip (c ∷ s) = let later = skip s in if is_space c then later else c ∷ s

-- A text on which a run of such characters has come to its end.
abbrev pub ends : (ℕ → Bool) → Text → Bool
ends p [] = true
ends p (c ∷ s) = not (p c)

-- `ws!` skips white space between the tokens, and in front of and behind them; the loop of `many1!`
-- ends where its parser fails, and it asks that each round reads something.
pub record IsNom (nom : Nom) : Type 1 where
  pub tag_matches : (t s : Text) → nom.tag t (t ++ s) ≡ done s t
  pub tag_differs : (c d : ℕ) (t s : Text) → c ≢ d → nom.tag (c ∷ t) (d ∷ s) ≡ error
  pub tag_no_case_matches :
      (t u s : Text)
      → to_ascii_lowercase u ≡ to_ascii_lowercase t
      → nom.tag_no_case t (u ++ s) ≡ done s u
  pub tag_no_case_at_end : (c : ℕ) (t : Text) → nom.tag_no_case (c ∷ t) [] ≡ error
  pub tag_no_case_differs :
      (b c d e : ℕ) (t s : Text)
      → c < 128
      → e < 128
      → ascii_lower c ≢ ascii_lower e
      → nom.tag_no_case (b ∷ c ∷ t) (d ∷ e ∷ s) ≡ error
  pub take_while1_takes :
      (p : ℕ → Bool) (c : ℕ) (t s : Text)
      → all p (c ∷ t) ≡ true
      → ends p s ≡ true
      → nom.take_while1 p ((c ∷ t) ++ s) ≡ done s (c ∷ t)
  pub take_while1_refuses :
      (p : ℕ → Bool) (s : Text) → ends p s ≡ true → nom.take_while1 p s ≡ error
  pub eof_at_end : nom.eof [] ≡ done [] []
  pub alt_first :
      {A : Type 0} (p q : Parser A) (s r : Text) (a : A) → p s ≡ done r a → nom.alt p q s ≡ done r a
  pub alt_second : {A : Type 0} (p q : Parser A) (s : Text) → p s ≡ error → nom.alt p q s ≡ q s
  pub verify_holds :
      {A : Type 0} (p : Parser A) (f : A → Bool) (s r : Text) (a : A)
      → p s ≡ done r a
      → f a ≡ true
      → nom.verify p f s ≡ done r a
  pub verify_fails :
      {A : Type 0} (p : Parser A) (f : A → Bool) (s r : Text) (a : A)
      → p s ≡ done r a
      → f a ≡ false
      → nom.verify p f s ≡ error
  pub verify_error :
      {A : Type 0} (p : Parser A) (f : A → Bool) (s : Text) → p s ≡ error → nom.verify p f s ≡ error
  pub map_done :
      {A B : Type 0} (p : Parser A) (f : A → B) (s r : Text) (a : A)
      → p s ≡ done r a
      → nom.map_result p f s ≡ done r (f a)
  pub map_error :
      {A B : Type 0} (p : Parser A) (f : A → B) (s : Text)
      → p s ≡ error
      → nom.map_result p f s ≡ error
  pub value_done :
      {A B : Type 0} (b : B) (p : Parser A) (s r : Text) (a : A)
      → p s ≡ done r a
      → nom.value b p s ≡ done r b
  pub do_parse_done :
      {A B C : Type 0} (p : Parser A) (q : Parser B) (f : A → C) (s r t : Text) (a : A) (b : B)
      → p s ≡ done r a
      → q r ≡ done t b
      → nom.do_parse p q f s ≡ done t (f a)
  pub ws_do_parse_done :
      {A B C : Type 0} (p : Parser A) (q : Parser B) (f : B → C) (s r t : Text) (a : A) (b : B)
      → p (skip s) ≡ done r a
      → q (skip r) ≡ done t b
      → nom.ws_do_parse p q f s ≡ done (skip t) (f b)
  pub ws_do_parse_error :
      {A B C : Type 0} (p : Parser A) (q : Parser B) (f : B → C) (s : Text)
      → p (skip s) ≡ error
      → nom.ws_do_parse p q f s ≡ error
  pub ws_preceded_done :
      {A B : Type 0} (p : Parser A) (q : Parser B) (s r t : Text) (a : A) (b : B)
      → p (skip s) ≡ done r a
      → q (skip r) ≡ done t b
      → nom.ws_preceded p q s ≡ done (skip t) b
  pub ws_preceded_error :
      {A B : Type 0} (p : Parser A) (q : Parser B) (s : Text)
      → p (skip s) ≡ error
      → nom.ws_preceded p q s ≡ error
  pub ws_many1_once :
      {A : Type 0} (p : Parser A) (s r : Text) (a : A)
      → p (skip s) ≡ done r a
      → length r < length (skip s)
      → p (skip r) ≡ error
      → nom.ws_many1 p s ≡ done (skip r) (a ∷ [])
  pub ws_many1_more :
      {A : Type 0} (p : Parser A) (s r t : Text) (a : A) (l : List A)
      → p (skip s) ≡ done r a
      → length r < length (skip s)
      → nom.ws_many1 p r ≡ done t l
      → nom.ws_many1 p s ≡ done t (a ∷ l)
