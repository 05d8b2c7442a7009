-- ===== src/EvalChecker.antt =====
-- One check of an evaluation: ofborg/src/evalchecker.rs.
use ofborg.Base.{Option, false, List, ◌∷◌, ◌++◌, Text, text, join, Result}
use ofborg.Nix.{Nix, Operation, Command, Run, operation_name, safely}

pub record EvalChecker : Type 0 where
  pub name : Text
  pub op : Operation
  pub args : List Text
  pub nix : Nix

unfoldable pub new : Text → Operation → List Text → Nix → EvalChecker
new name op args nix = record { name = name; op = op; args = args; nix = nix }

unfoldable pub full_name : EvalChecker → Text
full_name c = text "grahamcofborg-eval-" ++ c.name

unfoldable pub cli_cmd : EvalChecker → Text
cli_cmd c = join (text " ") (operation_name c.op ∷ c.args)

-- `status` runs a command, and `path` is the process's own `PATH`.
module _ (status : Command → Option Run) (path : Option Text) where
  unfoldable pub execute : Text → EvalChecker → Option (Result Text Text)
  unfolding safely
  execute refpath c = safely status path c.nix c.op refpath c.args false
