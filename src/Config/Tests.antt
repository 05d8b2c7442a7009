-- ===== src/Config/Tests.antt =====
-- A small configuration, and a machine that is asked twice.
use ofborg.Base.{
  ℕ, true, Option, none, some, [], ◌∷◌, Text, text, text_eq, decimal, if◌then◌else◌, ◌≡◌, ◌≤◌, refl,
}
use ofborg.Nix
use ofborg.Nix.{Command, default_nixpkgs, build, attrs_command}
use ofborg.Nix.Arguments.{IsSafe}
use ofborg.Config.{Config, nix}
use ofborg.Config.Timeout.{nix-IsSafe}
use ofborg.Config.Vending.{serve, serve_specified, new, serve_lem}

abbrev config : Config
config = record {
  runner = record {
    identity = text "worker";
    repos = some [];
    trusted_users = some [];
    known_users = some [];
    build_all_jobs = none;
  };
  full_logs = true;
  checkout_root = text "/cache";
  nix_config = record {
    system = text "x86_64-linux";
    remote = text "daemon";
    build_timeout_seconds = 1800;
    initial_heap_size = none;
  };
  rabbitmq = record {
    ssl = true;
    host = text "localhost";
    virtualhost = none;
    username = text "user";
    password = text "password";
  };
  github_token = none;
  github_app = none;
  log_storage = none;
  tag_paths = none;
}

nix-IsSafe_example :
    (1200 ≤ 1800)
    × ((cmd : Command) × (attrs_command
            (some (text "/bin"))
            (Nix.new (text "x86_64-linux") (text "daemon") 1800 none)
            build
            (text "/checkout")
            default_nixpkgs
            (text "hello" ∷ [])
          ≡ some cmd)
        × IsSafe
            (text "/checkout")
            ((text "restrict-eval", text "true") ∷ (text "build-timeout", decimal 1800) ∷ [])
            (text "hello" ∷ [])
            cmd)
nix-IsSafe_example =
    nix-IsSafe config (Nix.new (text "x86_64-linux") (text "daemon") 1800 none) (text "/bin") build
      (text "/checkout") default_nixpkgs (text "hello" ∷ []) (unfold nix in refl)

abbrev installed : Text → Text → Option ℕ
installed owner repo = if text_eq owner (text "nixos") then some 7 else none

abbrev a_client : ℕ → Text
a_client id = text "client"

serve_lem_example :
    serve installed a_client
      ((text "nixos", text "nixpkgs")
        ∷ (text "alice", text "dotfiles")
        ∷ (text "nixos", text "nixpkgs")
        ∷ [])
      new
    ≡ serve_specified installed a_client (
        (text "nixos", text "nixpkgs")
        ∷ (text "alice", text "dotfiles")
        ∷ (text "nixos", text "nixpkgs")
        ∷ [])
serve_lem_example = serve_lem installed a_client (
    (text "nixos", text "nixpkgs")
    ∷ (text "alice", text "dotfiles")
    ∷ (text "nixos", text "nixpkgs")
    ∷ [])
