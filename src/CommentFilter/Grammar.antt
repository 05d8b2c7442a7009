-- ===== src/CommentFilter/Grammar.antt =====
-- The grammar of a comment's line: ofborg/src/commentparser.rs over the combinators of nom.
pub mod Documented
pub mod Spoken
pub mod Tokens
pub mod ReadBack
pub mod Lines
pub mod Comments
mod Sample
mod Tests
use ofborg.Base.{
  ℕ, Bool, true, false, not, ◌&&◌, ◌||◌, leb, ◌==◌, Option, none, some, List, [], ◌∷◌, ◌++◌, Text,
  text, text_eq, to_ascii_lowercase,
}
use ofborg.Message.{nixpkgs, nixos}
use ofborg.CommentFilter.{Instruction, build, eval, Parsed, parsed, failed}

-- A parser's result on a complete text, with the rest of the text.
pub data Outcome (A : Type 0) : Type 0 where
  done : (rest : Text) → A → Outcome A
  error : Outcome A

abbrev pub Parser : Type 0 → Type 0
Parser A = Text → Outcome A

-- nom's macros that the grammar uses. Those around which `ws!` stands are named with it.
pub record Nom : Type 1 where
  pub tag : Text → Parser Text
  pub tag_no_case : Text → Parser Text
  pub take_while1 : (ℕ → Bool) → Parser Text
  pub take : ℕ → Parser Text
  pub eof : Parser Text
  pub alt : {A : Type 0} → Parser A → Parser A → Parser A
  pub verify : {A : Type 0} → Parser A → (A → Bool) → Parser A
  pub map_result : {A B : Type 0} → Parser A → (A → B) → Parser B
  pub value : {A B : Type 0} → B → Parser A → Parser B
  pub value_of_nothing : {B : Type 0} → B → Parser B
  pub many_till : {A B : Type 0} → Parser A → Parser B → Parser (List A × B)
  pub do_parse : {A B C : Type 0} → Parser A → Parser B → (A → C) → Parser C
  pub ws_do_parse : {A B C : Type 0} → Parser A → Parser B → (B → C) → Parser C
  pub ws_preceded : {A B : Type 0} → Parser A → Parser B → Parser B
  pub ws_many1 : {A : Type 0} → Parser A → Parser (List A)

-- `char::is_ascii_graphic`
abbrev pub is_ascii_graphic : ℕ → Bool
is_ascii_graphic c = leb b'!' c && leb c b'~'

abbrev pub flatten : {A : Type 0} → List (Option A) → List A
flatten [] = []
flatten (none ∷ xs) = flatten xs
flatten (some x ∷ xs) = x ∷ flatten xs

-- `eq_ignore_ascii_case`
unfoldable pub is_name : Text → Bool
is_name s = text_eq (to_ascii_lowercase s) (text "@grahamcofborg")

module _ (nom : Nom) where
  open nom use {
    tag, tag_no_case, take_while1, take, eof, alt, verify, map_result, value, value_of_nothing,
    many_till, do_parse, ws_do_parse, ws_preceded, ws_many1,
  }

  unfoldable pub normal_token : Parser Text
  unfolding is_name
  normal_token = verify (take_while1 is_ascii_graphic) (λ s. not (is_name s))

  unfoldable pub addressed : Parser Text
  addressed = alt (tag_no_case (text "@grahamcofborg")) (tag_no_case (text "@ofborg"))

  unfoldable pub build_command : Parser (Option Instruction)
  unfolding normal_token
  build_command =
      ws_do_parse (tag (text "build")) (ws_many1 (map_result normal_token (λ s. s)))
        (λ pkgs. some (build nixpkgs pkgs))

  unfoldable pub test_command : Parser (Option Instruction)
  unfolding normal_token
  test_command =
      ws_do_parse (tag (text "test")) (ws_many1 (map_result normal_token (λ s. text "tests." ++ s)))
        (λ tests. some (build nixos tests))

  unfoldable pub eval_command : Parser (Option Instruction)
  eval_command = value (some eval) (tag (text "eval"))

  unfoldable pub unknown_command : Parser (Option Instruction)
  unknown_command = value none (many_till (take 1) (tag_no_case (text "@grahamcofborg")))

  unfoldable pub command : Parser (Option Instruction)
  unfolding build_command test_command eval_command unknown_command
  command = alt build_command (alt test_command (alt eval_command unknown_command))

  unfoldable pub commands : Parser (List (Option Instruction))
  unfolding addressed command
  commands = ws_many1 (ws_preceded addressed command)

  unfoldable pub line : Parser (Option (List Instruction))
  unfolding commands
  line = alt (do_parse commands eof (λ res. some (flatten res))) (value_of_nothing none)

  abbrev pub result_of : Outcome (Option (List Instruction)) → Parsed
  result_of (done rest r) = parsed r
  result_of error = failed

  unfoldable pub parse_line_impl : Text → Parsed
  unfolding line
  parse_line_impl s = result_of (line s)
