-- ===== src/NixEnv/Tests.antt =====
-- An evaluation in a checkout: its statistics cannot be read, and the file is gone again.
use ofborg.Base.{
  ℕ, Bool, true, false, Option, none, some, [], ◌∷◌, Text, text, Result, err, ◌≡◌, ◌⊎◌, refl, ◌==◌,
  ◌||◌,
}
use ofborg.Nix.{Nix, Command, Run, Stream, stdout, stderr}
use ofborg.Nix as NixM
use ofborg.OutPathDiff.{PackageOutPaths}
use ofborg.NixEnv.{HydraNixEnv, Error, FileSystem, io}
use ofborg.NixEnv as Env
use ofborg.NixEnv.Restores.{executed, ran, said, executed_restores}

-- The content of the one file that the evaluation places.
abbrev one_file : FileSystem (Option Text)
one_file = record {
  create = λ name f. (some [], none);
  write_all = λ name content f. (some content, none);
  remove_file = λ name f. (none, none);
}

abbrev answer : Command → Option Text → Option Run
answer c none = some (record { success = false; written = (stderr, text "no file") ∷ [] })
answer c (some content) = some (record {
  success = true;
  written = (stdout, text "a.i686-linux /nix/store/a\n") ∷ (stderr, text "{") ∷ [];
})

abbrev is_space : ℕ → Bool
is_space c = c == b' ' || (c == 9)

abbrev an_env : HydraNixEnv
an_env = record {
  path = text "/checkout";
  nix = NixM.new (text "x86_64-linux") (text "daemon") 1800 none;
  check_meta = true;
}

abbrev reader : Text → Result (Unit {0}) Text
reader content = err (text "EOF while parsing")

abbrev Said : Type 0
Said = Option (Option Text × Result (PackageOutPaths × Unit {0}) Error)

abbrev execution : Option Text → Said
execution =
    executed one_file answer (some (text "/bin")) (text "{ }") reader none none is_space an_env

abbrev nix_env : Option Text → Option (Bool × (Text × Text))
nix_env = ran one_file answer (some (text "/bin")) (text "{ }") reader none none is_space an_env

abbrev result : Bool → Text → Text → Result (PackageOutPaths × Unit {0}) Error
result = said one_file answer (some (text "/bin")) (text "{ }") reader none none is_space an_env

executed_restores_example :
    ((nix_env (some (text "{ }")) ≡ none) × (execution none ≡ none))
    ⊎ ((b : Bool) × (out errors : Text) × (nix_env (some (text "{ }")) ≡ some (b, (out, errors)))
        × (execution none ≡ some (none, result b out errors)))
executed_restores_example =
    executed_restores one_file answer (some (text "/bin")) (text "{ }") reader none none is_space
      an_env none (some []) (some (text "{ }")) refl refl refl

-- The statistics break off, and the file is gone again.
execution_unread :
    execution none
    ≡ some (none, err (Env.stats_parse (text "{") none none (text "EOF while parsing")))
unfolding Env.execute_with_stats Env.outcome Env.nix_env_command Env.place_nix Env.remove_nix
    Env.placed Env.removed Env.run_nix_env Env.outpath_nix_path NixM.run_stderr_stdout
    NixM.safe_command NixM.set_env NixM.stdout_of NixM.stderr_of text
execution_unread = refl
