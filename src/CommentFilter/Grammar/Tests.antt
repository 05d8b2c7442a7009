-- ===== src/CommentFilter/Grammar/Tests.antt =====
-- Lines of the tests of ofborg/src/commentparser.rs, and one that they do not have.
use ofborg.Base.{
  none, List, if◌then◌else◌, is_empty, not, ◌&&◌, ◌==◌, all, true, IsOneLine, arith, some, [], ◌∷◌,
  ◌++◌, Text, text, ◌≡◌, inl, inr, refl, to_ascii_lowercase, text_eq,
}
use ofborg.Message.{nixpkgs}
use ofborg.CommentFilter.{build, parsed, parse}
use ofborg.CommentFilter.Grammar as G
use ofborg.CommentFilter.Grammar.{parse_line_impl}
use ofborg.CommentFilter.Grammar.Spoken.{packages, tests, evaluation, say, print, is_token}
use ofborg.CommentFilter.Grammar.Lines.{newer_name_is_built}
use ofborg.CommentFilter.Grammar.Comments.{
  Entry, instructed, chatter, comment, meanings, comment_read,
}
use ofborg.CommentFilter.Grammar.Sample.{sample, sample-IsNom}

-- Prose, and a line with two instructions.
abbrev entries : List Entry
entries =
    chatter (text "/cc alice")
    ∷ instructed (text "@OfBorg") evaluation
        ((text "@GrahamCOfBorg", tests (text "foo" ∷ text "bar" ∷ [])) ∷ [])
    ∷ []

prose : parse_line_impl sample (text "/cc alice") ≡ parsed none
unfolding parse_line_impl G.line G.commands G.command G.addressed sample text to_ascii_lowercase
    G.Documented.skip
prose = refl

calm-IsOneLine : (s : Text) → all (λ c. not (c == 10) && not (c == 13)) s ≡ true → IsOneLine s
calm-IsOneLine [] h = tt
calm-IsOneLine (c ∷ s) h =
    let later : all (λ c. not (c == 10) && not (c == 13)) s ≡ true = ground (arith, h) in
    (((λ e. ground (arith, h)), (λ e. ground (arith, h))), calm-IsOneLine s later)

comment_read_example :
    parse (parse_line_impl sample) (comment entries)
    ≡ (if is_empty (meanings entries) then none else some (meanings entries))
unfolding to_ascii_lowercase text is_token G.is_name text_eq
comment_read_example = comment_read sample sample-IsNom entries (
  (calm-IsOneLine (text "/cc alice") refl, prose),
  ((inr refl, tt, (inl refl, ((refl, (refl, tt)), tt), tt)), tt),
)

newer_name_is_built_example :
    parse_line_impl sample (
      text "@ofborg"
      ++ b' ' ∷ say (packages (text "foo" ∷ [])) (print ((text "@ofborg", evaluation) ∷ [])))
    ≡ parsed (some (build nixpkgs ((text "foo" ∷ []) ++ text "@ofborg" ∷ text "eval" ∷ []) ∷ []))
unfolding to_ascii_lowercase text is_token G.is_name text_eq
newer_name_is_built_example =
    newer_name_is_built sample sample-IsNom (text "@ofborg") (text "@ofborg") (text "foo" ∷ [])
      (inr refl) (refl, tt) refl

-- The line as it is written.
foo_bar :
    parse_line_impl sample (text "@ofborg build foo bar.Baz")
    ≡ parsed (some (build nixpkgs (text "foo" ∷ text "bar.Baz" ∷ []) ∷ []))
unfolding parse_line_impl G.line G.commands G.command G.build_command G.normal_token G.addressed
    G.is_name sample text text_eq to_ascii_lowercase G.Documented.skip
foo_bar = refl
