-- ===== src/Maintainers/Calculate.antt =====
-- The evaluation of the maintainers: `ImpactedMaintainers::calculate` of ofborg/src/maintainers.rs.
use ofborg.Base.{Option, none, some, List, [], ◌∷◌, ◌++◌, Text, text, Result, ok, err}
use ofborg.Maintainers.{ImpactedMaintainers}
use ofborg.Nix.{Nix, Command, safely_evaluate_expr_cmd}

-- Each error by the text that `{:?}` gives of it.
pub data CalculationError : Type 0 where
  deserialize_error io utf8 : Text → CalculationError

unfoldable pub debug : CalculationError → Text
debug (deserialize_error e) = text "DeserializeError(" ++ (e ++ text ")")
debug (io e) = text "Io(" ++ (e ++ text ")")
debug (utf8 e) = text "Utf8(" ++ (e ++ text ")")

-- What the code uses: a new file with a content, by its path, for the paths and for the attributes;
-- serde_json's writing of both and its reading of the answer; the output of a command; and the text
-- of ofborg/src/maintainers.nix.
pub record Calculator : Type 0 where
  pub path : Option Text
  pub path_file : Text → Result Text Text
  pub attr_file : Text → Result Text Text
  pub paths_to_string : List Text → Result Text Text
  pub attributes_to_string : List (List Text) → Result Text Text
  pub output : Command → Result Text Text
  pub from_utf8 : Text → Result Text Text
  pub from_str : Text → Result ImpactedMaintainers Text
  pub maintainers_nix : Text

-- `?` on an error that is converted, where the rest may panic
abbrev try_ :
    {A B : Type 0}
    → (Text → CalculationError)
    → Result A Text
    → (A → Option (Result B CalculationError))
    → Option (Result B CalculationError)
try_ convert (ok a) f = f a
try_ convert (err e) f = some (err (convert e))

abbrev command_or :
    {B : Type 0}
    → Option Command
    → (Command → Option (Result B CalculationError))
    → Option (Result B CalculationError)
command_or none f = none
command_or (some c) f = f c

-- `none` is a panic.
unfoldable pub calculate :
    Calculator
    → Nix
    → Text
    → List Text
    → List (List Text)
    → Option (Result ImpactedMaintainers CalculationError)
unfolding safely_evaluate_expr_cmd
calculate k nix checkout paths attributes =
    try_ deserialize_error (k.paths_to_string paths) (λ pathstr.
      try_ io (k.path_file pathstr) (λ path_path.
        try_ deserialize_error (k.attributes_to_string attributes) (λ attrstr.
          try_ io (k.attr_file attrstr) (λ attr_path.
            command_or
              (safely_evaluate_expr_cmd k.path nix checkout k.maintainers_nix
                ((text "changedattrsjson", attr_path) ∷ (text "changedpathsjson", path_path) ∷ [])
                (path_path ∷ attr_path ∷ []))
              (λ cmd. try_ io (k.output cmd) (λ out.
                try_ utf8 (k.from_utf8 out)
                  (λ s. try_ deserialize_error (k.from_str s) (λ m. some (ok m)))))))))
