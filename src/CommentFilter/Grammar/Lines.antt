-- ===== src/CommentFilter/Grammar/Lines.antt =====
-- Whole lines of a comment: ofborg/src/commentparser.rs.
use ofborg.Base.{
  true, false, none, some, List, [], ◌∷◌, ◌++◌, map, all, Text, text, text_eq, to_ascii_lowercase,
  All-append, ◌≡◌, refl, sym, ap, ◌∙◌, arith,
}
use ofborg.Message.{nixpkgs}
use ofborg.CommentFilter.{build, parsed}
use ofborg.CommentFilter.Grammar.{
  Nom, is_ascii_graphic, is_name, flatten, commands, line, result_of, parse_line_impl,
}
use ofborg.CommentFilter.Grammar.Documented.{IsNom}
use ofborg.CommentFilter.Grammar.Spoken.{
  Spoken, packages, evaluation, meaning, words, say, print, is_token, IsOfborg, AreWords, AreClear,
}
use ofborg.CommentFilter.Grammar.Tokens.{all-graphic}
use ofborg.CommentFilter.Grammar.ReadBack.{IsAddress, skip_name, meant, commands_read}

flatten-some :
    {A B : Type 0} (f : A → B) (xs : List A) → flatten (map (λ x. some (f x)) xs) ≡ map f xs
flatten-some f [] = refl
flatten-some f (x ∷ xs) = ap (λ l. f x ∷ l) (flatten-some f xs)

words-append : (ts us : List Text) (r : Text) → words (ts ++ us) r ≡ words ts (words us r)
unfolding words
words-append [] us r = refl
words-append (t ∷ ts) us r = ap (λ s. b' ' ∷ (t ++ s)) (words-append ts us r)

-- The newer name is a word like others.
IsOfborg-is_token : (name : Text) → IsOfborg name → is_token name ≡ true
unfolding is_token is_name text text_eq
IsOfborg-is_token [] h = unfold to_ascii_lowercase in ground arith
IsOfborg-is_token (c ∷ t) h =
    let graphic : all is_ascii_graphic (c ∷ t) ≡ true =
      sym (all-graphic (c ∷ t)) ∙ ap (all is_ascii_graphic) h in
    let other : text_eq (to_ascii_lowercase (c ∷ t)) (text "@grahamcofborg") ≡ false =
      ap (λ u. text_eq u (text "@grahamcofborg")) h in
    ground (arith, graphic, other)

eval_is_token : is_token (text "eval") ≡ true
unfolding is_token is_name text text_eq to_ascii_lowercase
eval_is_token = refl

module _ (nom : Nom) (laws : IsNom nom) where
  -- If nom does what it documents: a line of instructions, each addressed to one of the two names in
  -- any case and with words that are no older name, is read as these instructions, in their order,
  -- where behind `build` or `test` only the older name may follow.
  pub line_read :
      (name : Text) (c : Spoken) (cs : List (Text × Spoken))
      → AreClear ((name, c) ∷ cs)
      → parse_line_impl nom (name ++ b' ' ∷ say c (print cs))
        ≡ parsed (some (map (λ x. meaning x.1) ((name, c) ∷ cs)))
  unfolding parse_line_impl line
  line_read name c cs h =
      let s : Text = name ++ b' ' ∷ say c (print cs) in
      let read =
        laws.alt_first (nom.do_parse (commands nom) nom.eof (λ res. some (flatten res)))
          (nom.value_of_nothing none) s [] (some (flatten (meant ((name, c) ∷ cs))))
          (laws.do_parse_done (commands nom) nom.eof (λ res. some (flatten res)) s [] []
            (meant ((name, c) ∷ cs)) []
            (commands_read nom laws name c cs s h (skip_name name (b' ' ∷ say c (print cs)) h.0))
            laws.eof_at_end) in
      ap (result_of nom) read
      ∙ ap (λ l. parsed (some l)) (flatten-some (λ x. meaning x.1) ((name, c) ∷ cs))

  -- Behind `build` the newer name is a package, as is the instruction that is addressed to it: if nom
  -- does what it documents, a line that asks for packages and then, by the newer name, for an
  -- evaluation is read as a single build, of these packages, the name and the word `eval`.
  pub newer_name_is_built :
      (name newer : Text) (ts : List Text)
      → IsAddress name
      → AreWords ts
      → IsOfborg newer
      → parse_line_impl nom (name ++ b' ' ∷ say (packages ts) (print ((newer, evaluation) ∷ [])))
        ≡ parsed (some (build nixpkgs (ts ++ newer ∷ text "eval" ∷ []) ∷ []))
  unfolding say print words
  newer_name_is_built name newer ts h k n =
      let all : List Text = ts ++ newer ∷ text "eval" ∷ [] in
      ap (λ s. parse_line_impl nom (name ++ b' ' ∷ s)) (same ts)
      ∙ line_read name (packages all) [] (h, (are_words ts k, tt), tt)
      ∙ (unfold meaning in refl)
    where
      same :
          (ts : List Text)
          → say (packages ts) (print ((newer, evaluation) ∷ []))
            ≡ say (packages (ts ++ newer ∷ text "eval" ∷ [])) (print [])
      same ts = ap (λ s. text "build" ++ s) (sym (words-append ts (newer ∷ text "eval" ∷ []) []))

      are_words : (ts : List Text) → AreWords ts → AreWords (ts ++ newer ∷ text "eval" ∷ [])
      are_words [] k = elim k [ ]
      are_words (t ∷ ts) (k, ks) = (
        k,
        All-append (λ w. is_token w ≡ true) ts (newer ∷ text "eval" ∷ []) ks
            (IsOfborg-is_token newer n, (eval_is_token, tt)),
      )
