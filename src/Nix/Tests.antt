-- ===== src/Nix/Tests.antt =====
-- The command for a build with a hostile attribute, in full.
use ofborg.Base.{true, some, none, [], ◌∷◌, text, decimal, join, ◌≡◌, refl}
use ofborg.Nix.{
  Nix, Command, default_nixpkgs, build, new, attrs_command, safe_command, set_attrs_command,
  restrict, add_args, set_env, env_clear, new_command, program_of, operation_args, attr_args,
  file_name,
}

abbrev a_nix : Nix
a_nix = new (text "x86_64-linux") (text "daemon") 1800 none

abbrev hostile : Command
hostile = record {
  program = text "nix-build";
  args =
      text "--no-out-link"
      ∷ text "--keep-going"
      ∷ text "--show-trace"
      ∷ text "--option"
      ∷ text "restrict-eval"
      ∷ text "true"
      ∷ text "--option"
      ∷ text "build-timeout"
      ∷ text "1800"
      ∷ text "--argstr"
      ∷ text "system"
      ∷ text "x86_64-linux"
      ∷ text "--arg"
      ∷ text "supportedSystems"
      ∷ text "[\"x86_64-linux\"]"
      ∷ text "./default.nix"
      ∷ text "-A"
      ∷ text "--option"
      ∷ [];
  env_cleared = true;
  env =
      (text "HOME", text "/homeless-shelter")
      ∷ (text "NIX_PATH", text "nixpkgs=/checkout")
      ∷ (text "NIX_REMOTE", text "daemon")
      ∷ (text "PATH", text "/bin")
      ∷ [];
  current_dir = some (text "/checkout");
}

hostile_build :
    attrs_command
      (some (text "/bin"))
      a_nix
      build
      (text "/checkout")
      default_nixpkgs
      (text "--option" ∷ [])
    ≡ some hostile
unfolding attrs_command safe_command set_attrs_command restrict add_args set_env env_clear
    new_command program_of operation_args attr_args file_name new text decimal join
hostile_build = refl
