-- ===== src/CommentFilter/Grammar/ReadBack.antt =====
-- Lines are read back as they were meant: ofborg/src/commentparser.rs.
use ofborg.Base.{
  ℕ, ◌<◌, ◌≤◌, false, Option, some, List, [], ◌∷◌, ◌++◌, map, length, length-append, Text, text,
  ascii_lower, to_ascii_lowercase, ◌≡◌, ◌≢◌, ◌⊎◌, inl, inr, refl, ap, ◌∙◌, arith,
}
use ofborg.Message.{nixpkgs, nixos}
use ofborg.CommentFilter.{Instruction, build, eval}
use ofborg.CommentFilter.Grammar.{
  done, error, Parser, Nom, normal_token, addressed, build_command, test_command, eval_command,
  unknown_command, command, commands,
}
use ofborg.CommentFilter.Grammar.Documented.{skip, is_space, IsNom}
use ofborg.CommentFilter.Grammar.Spoken.{
  Spoken, packages, tests, evaluation, meaning, words, say, print, IsGraham, IsOfborg, Ends,
  AreWords, IsClear, AreClear,
}
use ofborg.CommentFilter.Grammar.Tokens.{
  skip_idem, skip_stays, skip_token, length-skip, normal_token_at_end, normal_token_refuses_name,
  Closed, word, words_behind,
}

is_at : (c : ℕ) → ascii_lower c ≡ b'@' → is_space c ≡ false
unfolding ascii_lower
is_at c h = ground arith

is_low_o : (c : ℕ) → ascii_lower c ≡ b'o' → (c < 128) × (ascii_lower b'g' ≢ ascii_lower c)
unfolding ascii_lower
is_low_o c h = (ground arith, λ e. ground arith)

abbrev pub IsAddress : Text → Type 0
IsAddress name = IsGraham name ⊎ IsOfborg name

pub skip_name : (name s : Text) → IsAddress name → skip (name ++ s) ≡ name ++ s
unfolding to_ascii_lowercase text
skip_name [] s (inl h) = ground arith
skip_name [] s (inr h) = ground arith
skip_name (c ∷ t) s (inl h) = skip_stays c (t ++ s) (is_at c (ground (arith, h)))
skip_name (c ∷ t) s (inr h) = skip_stays c (t ++ s) (is_at c (ground (arith, h)))

length-words : (ts : List Text) (r : Text) → length r ≤ length (words ts r)
unfolding words
length-words [] r = omega arith
length-words (t ∷ ts) r = omega (arith, length-words ts r, length-append t (words ts r))

length-say : (c : Spoken) (r : Text) → length r < length (say c r)
unfolding say text
length-say (packages ts) r = omega (arith, length-words ts r)
length-say (tests ts) r = omega (arith, length-words ts r)
length-say evaluation r = omega arith

abbrev pub meant : List (Text × Spoken) → List (Option Instruction)
meant = map (λ x. some (meaning x.1))

-- What a parser leaves in front of the rest is white space.
Reads : {A : Type 0} → Parser A → Text → A → Text → Type 0
Reads p s a r = (t : Text) × (p s ≡ done t a) × (skip t ≡ skip r)

module _ (nom : Nom) (laws : IsNom nom) where
  older :
      (name s : Text) → IsOfborg name → nom.tag_no_case (text "@grahamcofborg") (name ++ s) ≡ error
  unfolding to_ascii_lowercase text
  older [] s h = ground arith
  older (b ∷ []) s h = ground arith
  older (b ∷ e ∷ t) s h =
      let low = is_low_o e (ground (arith, h)) in
      laws.tag_no_case_differs b'@' b'g' b e (text "rahamcofborg") (t ++ s) (omega arith) low.0
        low.1

  addressed_reads : (name s : Text) → IsAddress name → addressed nom (name ++ s) ≡ done s name
  unfolding addressed
  addressed_reads name s (inl h) =
      laws.alt_first (nom.tag_no_case (text "@grahamcofborg")) (nom.tag_no_case (text "@ofborg"))
        (name ++ s) s name
        (laws.tag_no_case_matches (text "@grahamcofborg") name s
          (h ∙ unfold to_ascii_lowercase in unfold text in refl))
  addressed_reads name s (inr h) =
      laws.alt_second (nom.tag_no_case (text "@grahamcofborg")) (nom.tag_no_case (text "@ofborg"))
        (name ++ s) (older name s h)
      ∙ laws.tag_no_case_matches (text "@ofborg") name s
          (h ∙ unfold to_ascii_lowercase in unfold text in refl)

  addressed_at_end : addressed nom [] ≡ error
  unfolding addressed text
  addressed_at_end =
      laws.alt_second (nom.tag_no_case (text "@grahamcofborg")) (nom.tag_no_case (text "@ofborg"))
        [] (laws.tag_no_case_at_end b'@' (text "grahamcofborg"))
      ∙ laws.tag_no_case_at_end b'@' (text "ofborg")

  Closed-print : (cs : List (Text × Spoken)) → Ends cs → Closed nom laws (print cs)
  unfolding print
  Closed-print [] h = (refl, unfold skip in normal_token_at_end nom laws)
  Closed-print ((name, c) ∷ cs) h = (
    refl,
    unfold skip in
        (ap (normal_token nom) (skip_name name _ (inl h))
          ∙ normal_token_refuses_name nom laws name _ h),
  )

  -- The words behind `build` or `test`.
  words_read :
      (f : Text → Text) (ts : List Text) (cs : List (Text × Spoken))
      → AreWords ts
      → Ends cs
      → nom.ws_many1 (word nom laws f) (skip (words ts (print cs)))
        ≡ done (skip (print cs)) (map f ts)
  words_read f [] cs h e = elim h [ ]
  words_read f (t ∷ ts) cs (h, hs) e =
      words_behind nom laws f t ts (skip (words (t ∷ ts) (print cs))) (print cs) h hs
        (Closed-print cs e)
        (skip_idem (words (t ∷ ts) (print cs))
          ∙ unfold words in unfold skip in skip_token t (words ts (print cs)) h)

  map_same : (ts : List Text) → map (λ t. t) ts ≡ ts
  map_same [] = refl
  map_same (t ∷ ts) = ap (λ l. t ∷ l) (map_same ts)

  build_refuses :
      (d : ℕ) (s : Text) → b'b' ≢ d → is_space d ≡ false → build_command nom (d ∷ s) ≡ error
  unfolding build_command normal_token text
  build_refuses d s h k =
      laws.ws_do_parse_error (nom.tag (text "build")) (nom.ws_many1 (word nom laws (λ t. t)))
        (λ pkgs. some (build nixpkgs pkgs)) (d ∷ s)
        (ap (nom.tag (text "build")) (skip_stays d s k) ∙ laws.tag_differs b'b' d (text "uild") s h)

  test_refuses :
      (d : ℕ) (s : Text) → b't' ≢ d → is_space d ≡ false → test_command nom (d ∷ s) ≡ error
  unfolding test_command normal_token text
  test_refuses d s h k =
      laws.ws_do_parse_error (nom.tag (text "test"))
        (nom.ws_many1 (word nom laws (λ t. text "tests." ++ t))) (λ l. some (build nixos l)) (d ∷ s)
        (ap (nom.tag (text "test")) (skip_stays d s k) ∙ laws.tag_differs b't' d (text "est") s h)

  abbrev without_build : Parser (Option Instruction)
  without_build = nom.alt (test_command nom) (nom.alt (eval_command nom) (unknown_command nom))

  command-Reads :
      (c : Spoken) (cs : List (Text × Spoken))
      → IsClear c cs
      → Reads (command nom) (say c (print cs)) (some (meaning c)) (print cs)
  unfolding Reads command build_command test_command eval_command say meaning normal_token
  command-Reads (packages ts) cs (h, e) = (
    skip (skip (print cs)),
    laws.alt_first (build_command nom)
        (nom.alt (test_command nom) (nom.alt (eval_command nom) (unknown_command nom)))
        (say (packages ts) (print cs)) (skip (skip (print cs))) (some (build nixpkgs ts))
        (laws.ws_do_parse_done (nom.tag (text "build")) (nom.ws_many1 (word nom laws (λ t. t)))
            (λ pkgs. some (build nixpkgs pkgs)) (text "build" ++ words ts (print cs))
            (words ts (print cs)) (skip (print cs)) (text "build") (map (λ t. t) ts)
            (unfold skip in unfold text in laws.tag_matches (text "build") (words ts (print cs)))
            (words_read (λ t. t) ts cs h e)
          ∙ ap (λ l. done (skip (skip (print cs))) (some (build nixpkgs l))) (map_same ts)),
    skip_idem (skip (print cs)) ∙ skip_idem (print cs),
  )
  command-Reads (tests ts) cs (h, e) = (
    skip (skip (print cs)),
    laws.alt_second (build_command nom) without_build (say (tests ts) (print cs)) (
          unfold text in build_refuses b't' (text "est" ++ words ts (print cs)) (ground arith) refl)
        ∙ laws.alt_first (test_command nom) (nom.alt (eval_command nom) (unknown_command nom))
            (say (tests ts) (print cs)) (skip (skip (print cs))) (some (meaning (tests ts)))
            (laws.ws_do_parse_done (nom.tag (text "test"))
              (nom.ws_many1 (word nom laws (λ t. text "tests." ++ t))) (λ l. some (build nixos l))
              (text "test" ++ words ts (print cs)) (words ts (print cs)) (skip (print cs))
              (text "test") (map (λ t. text "tests." ++ t) ts)
              (unfold skip in unfold text in laws.tag_matches (text "test") (words ts (print cs)))
              (words_read (λ t. text "tests." ++ t) ts cs h e)),
    skip_idem (skip (print cs)) ∙ skip_idem (print cs),
  )
  command-Reads evaluation cs h = (
    print cs,
    laws.alt_second (build_command nom) without_build (say evaluation (print cs))
          (unfold text in build_refuses b'e' (text "val" ++ print cs) (ground arith) refl)
        ∙ laws.alt_second (test_command nom) (nom.alt (eval_command nom) (unknown_command nom))
            (say evaluation (print cs))
            (unfold text in test_refuses b'e' (text "val" ++ print cs) (ground arith) refl)
        ∙ laws.alt_first (eval_command nom) (unknown_command nom) (say evaluation (print cs))
            (print cs) (some eval)
            (laws.value_done (some eval) (nom.tag (text "eval")) (say evaluation (print cs))
              (print cs) (text "eval") (laws.tag_matches (text "eval") (print cs))),
    refl,
  )

  skip-say : (c : Spoken) (r : Text) → skip (b' ' ∷ say c r) ≡ say c r
  unfolding skip say text
  skip-say (packages ts) r = refl
  skip-say (tests ts) r = refl
  skip-say evaluation r = refl

  abbrev one : Parser (Option Instruction)
  one = nom.ws_preceded (addressed nom) (command nom)

  one_reads :
      (name : Text) (c : Spoken) (cs : List (Text × Spoken)) (s : Text)
      → IsAddress name
      → IsClear c cs
      → skip s ≡ name ++ b' ' ∷ say c (print cs)
      → one s ≡ done (skip (print cs)) (some (meaning c))
  unfolding Reads
  one_reads name c cs s h k e =
      let r : Reads (command nom) (say c (print cs)) (some (meaning c)) (print cs) =
        command-Reads c cs k in
      laws.ws_preceded_done (addressed nom) (command nom) s (b' ' ∷ say c (print cs)) r.0 name
        (some (meaning c)) (ap (addressed nom) e ∙ addressed_reads name (b' ' ∷ say c (print cs)) h)
        (ap (command nom) (skip-say c (print cs)) ∙ r.1)
      ∙ ap (λ t. done t (some (meaning c))) r.2

  one_at_end : one [] ≡ error
  one_at_end =
      laws.ws_preceded_error (addressed nom) (command nom) [] (unfold skip in addressed_at_end)

  remains_less :
      (name : Text) (c : Spoken) (cs : List (Text × Spoken)) (s : Text)
      → s ≡ name ++ b' ' ∷ say c (print cs)
      → length (skip (print cs)) < length s
  remains_less name c cs s e = omega (
    arith,
    ap length e,
    length-append name (b' ' ∷ say c (print cs)),
    length-say c (print cs),
    length-skip (print cs),
  )

  pub commands_read :
      (name : Text) (c : Spoken) (cs : List (Text × Spoken)) (s : Text)
      → AreClear ((name, c) ∷ cs)
      → skip s ≡ name ++ b' ' ∷ say c (print cs)
      → commands nom s ≡ done [] (meant ((name, c) ∷ cs))
  unfolding commands
  commands_read name c [] s (h, k, _) e =
      laws.ws_many1_once one s (skip (print [])) (some (meaning c))
        (one_reads name c [] (skip s) h k (skip_idem s ∙ e)) (remains_less name c [] (skip s) e)
        (unfold print in unfold skip in one_at_end)
      ∙ (unfold print in unfold skip in refl)
  commands_read name c ((n, d) ∷ cs) s (h, k, ks) e =
      let rest : Text = skip (print ((n, d) ∷ cs)) in
      laws.ws_many1_more one s rest [] (some (meaning c)) (meant ((n, d) ∷ cs))
        (one_reads name c ((n, d) ∷ cs) (skip s) h k (skip_idem s ∙ e))
        (remains_less name c ((n, d) ∷ cs) (skip s) e)
        (commands_read n d cs rest ks (
          skip_idem (print ((n, d) ∷ cs))
          ∙ unfold print in unfold skip in skip_name n (b' ' ∷ say d (print cs)) ks.0))
