-- ===== src/NixEnv.antt =====
-- The packages and the statistics of a checkout, evaluated as Hydra does it: ofborg/src/nixenv.rs.
pub mod Restores
mod Tests
use ofborg.Base.{
  ℕ, Bool, Option, none, some, [], ◌∷◌, ◌++◌, Text, text, if◌then◌else◌, Result, ok, err, lines,
}
use ofborg.Nix.{Nix, Command, Run, query_packages_outputs, safe_command, set_env, run_stderr_stdout}
use ofborg.OutPathDiff.{PackageOutPaths, parse_lines}

pub record HydraNixEnv : Type 0 where
  pub path : Text
  pub nix : Nix
  pub check_meta : Bool

unfoldable pub new : Nix → Text → Bool → HydraNixEnv
new nix path check_meta = record { path = path; nix = nix; check_meta = check_meta }

-- The error of a file or of the parser is the text that `{:?}` gives of it. The files are what
-- is read of them to their end, with the error of that reading.
pub data Error : Type 0 where
  io : Text → Error
  command_failed : (content : Text) → (read_error : Option Text) → Error
  stats_parse :
      (content : Text)
      → (read_error : Option Text) → (seek_error : Option Text) → (parse_error : Text) → Error

abbrev additionally : Text → Option Text → Text
additionally message none = []
additionally message (some e) = message ++ (e ++ text "\n\n")

unfoldable pub display : Error → Text
display (io e) = text "Failed during the setup of executing nix-env: " ++ e
display (command_failed content none) = text "nix-env failed:\n" ++ content
display (command_failed content (some e)) =
    text "nix-env failed and loading the error result caused a new error "
    ++ (e ++ (text "\n\n" ++ content))
display (stats_parse content read_error seek_error parse_error) =
    text "Parsing nix-env's performance statistics failed.\n\n"
    ++ (additionally (text "Additionally, resetting to the beginning of the output failed with:\n")
          seek_error
        ++ (additionally (text "Additionally, loading the output failed with:\n") read_error
            ++ (text "Parse error:\n"
                ++ (parse_error ++ (text "\n\n" ++ (text "Evaluation output:\n" ++ content))))))

unfoldable pub outpath_nix_path : HydraNixEnv → Text
outpath_nix_path e = e.path ++ text "/.gc-of-borg-outpaths.nix"

-- The file system: its state after each call, and the call's error.
pub record FileSystem (F : Type 0) : Type 0 where
  pub create : Text → F → F × Option Text
  pub write_all : Text → Text → F → F × Option Text
  pub remove_file : Text → F → F × Option Text

-- `status` runs a command on the files; the file that is read back gives its whole content.
-- `from_reader` is serde_json's reading of the statistics, and `seek` and `read_error` are the
-- failures on the file with them; `outpaths_nix` is the text of ofborg/src/outpaths.nix.
module _ {F S : Type 0} (fs : FileSystem F) (status : Command → F → Option Run) (path : Option Text)
    (outpaths_nix : Text) (from_reader : Text → Result S Text) (seek_error read_error : Option Text)
    (is_space : ℕ → Bool) (env : HydraNixEnv) where
  abbrev pub written : F × Option Text → F × Option Text
  written (f, some e) = (f, some e)
  written (f, none) = fs.write_all (outpath_nix_path env) outpaths_nix f

  unfoldable pub place_nix : F → F × Option Text
  place_nix f = written (fs.create (outpath_nix_path env) f)

  unfoldable pub remove_nix : F → F × Option Text
  remove_nix f = fs.remove_file (outpath_nix_path env) f

  unfoldable pub nix_env_command : Option Command
  nix_env_command =
      elim (safe_command path env.nix query_packages_outputs env.path
        (text "-f"
          ∷ text ".gc-of-borg-outpaths.nix"
          ∷ text "--arg"
          ∷ text "checkMeta"
          ∷ (if env.check_meta then text "true" else text "false")
          ∷ [])
        []) [ none ↦ none | some cmd ↦ some (set_env (text "NIX_SHOW_STATS") (text "1") cmd) ]

  unfoldable pub run_nix_env : F → Option (Bool × (Text × Text))
  unfolding nix_env_command
  run_nix_env f = elim nix_env_command [
    | none ↦ none
    | some cmd ↦ run_stderr_stdout (λ c. status c f) cmd
  ]

  -- what the streams say
  unfoldable pub outcome : Bool → Text → Text → Result (PackageOutPaths × S) Error
  outcome succeeded out errors =
      if succeeded
      then elim (from_reader errors) [
        | ok stats ↦ ok (parse_lines is_space (lines out) [], stats)
        | err e ↦ err (stats_parse errors read_error seek_error e)
      ]
      else err (command_failed errors read_error)

  unfoldable pub removed :
      F × Option Text → Bool × (Text × Text) → F × Result (PackageOutPaths × S) Error
  unfolding outcome
  removed (f, some e) ran = (f, err (io e))
  removed (f, none) (succeeded, (out, errors)) = (f, outcome succeeded out errors)

  unfoldable pub placed : F × Option Text → Option (F × Result (PackageOutPaths × S) Error)
  unfolding remove_nix run_nix_env removed
  placed (f, some e) = some (f, err (io e))
  placed (f, none) = elim (run_nix_env f) [
    | none ↦ none
    | some ran ↦ some (removed (remove_nix f) ran)
  ]

  -- The result, and the files afterwards; `none` is a panic.
  unfoldable pub execute_with_stats : F → Option (F × Result (PackageOutPaths × S) Error)
  unfolding place_nix placed
  execute_with_stats f = placed (place_nix f)
