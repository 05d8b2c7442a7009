-- ===== src/CommentFilter/Grammar/Comments.antt =====
-- Whole comments: `parse` of ofborg/src/commentparser.rs.
use ofborg.Base.{
  true, none, some, is_empty, if◌then◌else◌, List, [], ◌∷◌, ◌++◌, map, all, Text, text, All,
  All-append, IsOneLine, lines, lines-line, lines_nil, ◌≡◌, ◌≢◌, inl, inr, refl, sym, ap, ◌∙◌,
  arith,
}
use ofborg.CommentFilter.{Instruction, parsed, parse_line, parse_lines, nonempty, parse}
use ofborg.CommentFilter.Grammar.{Nom, is_ascii_graphic, parse_line_impl}
use ofborg.CommentFilter.Grammar.Documented.{IsNom}
use ofborg.CommentFilter.Grammar.Spoken.{
  Spoken, packages, tests, evaluation, meaning, words, say, print, is_token, AreWords, IsClear,
  AreClear,
}
use ofborg.CommentFilter.Grammar.Tokens.{all-graphic}
use ofborg.CommentFilter.Grammar.ReadBack.{IsAddress}
use ofborg.CommentFilter.Grammar.Lines.{line_read}

-- A line with instructions, or any other one.
pub data Entry : Type 0 where
  instructed : (name : Text) → Spoken → List (Text × Spoken) → Entry
  chatter : Text → Entry

unfoldable pub write : Entry → Text
write (instructed name c cs) = name ++ b' ' ∷ say c (print cs)
write (chatter l) = l

-- A comment, with a line feed behind each line.
unfoldable pub comment : List Entry → Text
comment [] = []
comment (e ∷ es) = write e ++ 10 ∷ comment es

unfoldable pub meanings : List Entry → List Instruction
meanings [] = []
meanings (instructed name c cs ∷ es) = map (λ x. meaning x.1) ((name, c) ∷ cs) ++ meanings es
meanings (chatter l ∷ es) = meanings es

abbrev pub IsEntry : Nom → Entry → Type 0
IsEntry nom (instructed name c cs) = AreClear ((name, c) ∷ cs)
IsEntry nom (chatter l) = IsOneLine l × (parse_line_impl nom l ≡ parsed none)

graphic-IsOneLine : (s : Text) → all is_ascii_graphic s ≡ true → IsOneLine s
graphic-IsOneLine [] h = tt
graphic-IsOneLine (c ∷ s) h =
    let later : all is_ascii_graphic s ≡ true = ground (arith, h) in
    (((λ e. ground (arith, h)), (λ e. ground (arith, h))), graphic-IsOneLine s later)

abbrev joined : (s t : Text) → IsOneLine s → IsOneLine t → IsOneLine (s ++ t)
joined = All-append (λ c. (c ≢ 10) × (c ≢ 13))

space-IsOneLine : (s : Text) → IsOneLine s → IsOneLine (b' ' ∷ s)
space-IsOneLine s h = (((λ e. ground arith), (λ e. ground arith)), h)

name-IsOneLine : (name : Text) → IsAddress name → IsOneLine name
unfolding text
name-IsOneLine name (inl h) =
    graphic-IsOneLine name (sym (all-graphic name) ∙ ap (all is_ascii_graphic) h)
name-IsOneLine name (inr h) =
    graphic-IsOneLine name (sym (all-graphic name) ∙ ap (all is_ascii_graphic) h)

token-IsOneLine : (t : Text) → is_token t ≡ true → IsOneLine t
unfolding is_token
token-IsOneLine [] h = tt
token-IsOneLine (c ∷ t) h = graphic-IsOneLine (c ∷ t) (ground (arith, h))

words-IsOneLine :
    (ts : List Text) (r : Text)
    → All (λ w. is_token w ≡ true) ts
    → IsOneLine r
    → IsOneLine (words ts r)
unfolding words
words-IsOneLine [] r hs k = k
words-IsOneLine (t ∷ ts) r (h, hs) k =
    space-IsOneLine (t ++ words ts r)
      (joined t (words ts r) (token-IsOneLine t h) (words-IsOneLine ts r hs k))

are_tokens : (ts : List Text) → AreWords ts → All (λ w. is_token w ≡ true) ts
are_tokens [] h = tt
are_tokens (t ∷ ts) h = h

say-IsOneLine :
    (c : Spoken) (cs : List (Text × Spoken)) (r : Text)
    → IsClear c cs
    → IsOneLine r
    → IsOneLine (say c r)
unfolding say text
say-IsOneLine (packages ts) cs r (h, e) k =
    joined (text "build") (words ts r) (graphic-IsOneLine (text "build") refl)
      (words-IsOneLine ts r (are_tokens ts h) k)
say-IsOneLine (tests ts) cs r (h, e) k =
    joined (text "test") (words ts r) (graphic-IsOneLine (text "test") refl)
      (words-IsOneLine ts r (are_tokens ts h) k)
say-IsOneLine evaluation cs r h k = joined (text "eval") r (graphic-IsOneLine (text "eval") refl) k

instruction-IsOneLine :
    (name : Text) (c : Spoken) (cs : List (Text × Spoken)) (r : Text)
    → IsAddress name
    → IsClear c cs
    → IsOneLine r
    → IsOneLine (name ++ b' ' ∷ say c r)
instruction-IsOneLine name c cs r h k o =
    joined name (b' ' ∷ say c r) (name-IsOneLine name h)
      (space-IsOneLine (say c r) (say-IsOneLine c cs r k o))

print-IsOneLine : (cs : List (Text × Spoken)) → AreClear cs → IsOneLine (print cs)
unfolding print
print-IsOneLine [] h = tt
print-IsOneLine ((name, c) ∷ cs) (h, k, ks) =
    space-IsOneLine (name ++ b' ' ∷ say c (print cs))
      (instruction-IsOneLine name c cs (print cs) h k (print-IsOneLine cs ks))

module _ (nom : Nom) (laws : IsNom nom) where
  write-IsOneLine : (e : Entry) → IsEntry nom e → IsOneLine (write e)
  unfolding write
  write-IsOneLine (instructed name c cs) (h, k, ks) =
      instruction-IsOneLine name c cs (print cs) h k (print-IsOneLine cs ks)
  write-IsOneLine (chatter l) h = h.0

  lines-comment : (es : List Entry) → All (IsEntry nom) es → lines (comment es) ≡ map write es
  unfolding comment
  lines-comment [] h = lines_nil
  lines-comment (e ∷ es) (h, hs) =
      lines-line (write e) (comment es) (write-IsOneLine e h)
      ∙ ap (λ ls. write e ∷ ls) (lines-comment es hs)

  parse_lines-write :
      (es : List Entry)
      → All (IsEntry nom) es
      → parse_lines (parse_line_impl nom) (map write es) ≡ meanings es
  unfolding parse_lines parse_line meanings write
  parse_lines-write [] h = refl
  parse_lines-write (instructed name c cs ∷ es) (h, hs) =
      rw (line_read nom laws name c cs h, parse_lines-write es hs) refl
  parse_lines-write (chatter l ∷ es) (h, hs) = rw (h.1, parse_lines-write es hs) refl

  -- If nom does what it documents: a comment whose lines are either clear instructions or lines that
  -- the grammar reads as none is read as the instructions of all of its lines, in their order; and as
  -- none at all where it has no instruction.
  pub comment_read :
      (es : List Entry)
      → All (IsEntry nom) es
      → parse (parse_line_impl nom) (comment es)
        ≡ (if is_empty (meanings es) then none else some (meanings es))
  unfolding parse
  comment_read es h =
      ap (λ ls. nonempty (parse_line_impl nom) (parse_lines (parse_line_impl nom) ls))
        (lines-comment es h)
      ∙ ap (nonempty (parse_line_impl nom)) (parse_lines-write es h)
      ∙ some_or_none (meanings es)
    where
      some_or_none :
          (l : List Instruction)
          → nonempty (parse_line_impl nom) l ≡ (if is_empty l then none else some l)
      some_or_none [] = refl
      some_or_none (i ∷ l) = refl
