-- ===== src/Nix.antt =====
-- The command lines of nix, and their runs: ofborg/src/nix.rs.
pub mod Settings
pub mod Arguments
mod Tests
use ofborg.Base.{
  ℕ, Bool, true, false, Option, none, some, List, [], ◌∷◌, ◌++◌, map, Text, text, text_eq, join,
  decimal, if◌then◌else◌, Result, ok, err,
}

pub data File : Type 0 where
  default_nixpkgs release_nixos : File

-- `Display`
unfoldable pub file_name : File → Text
file_name default_nixpkgs = text "./default.nix"
file_name release_nixos = text "./nixos/release.nix"

pub data Operation : Type 0 where
  evaluate instantiate build query_packages_json query_packages_outputs : Operation
  no_op : Operation → Operation
  unknown : Text → Operation

-- `Command`: the program, its arguments and its environment, by name, with the later of two values
-- for a name behind.
pub record Command : Type 0 where
  pub program : Text
  pub args : List Text
  pub env_cleared : Bool
  pub env : List (Text × Text)
  pub current_dir : Option Text

unfoldable pub new_command : Text → Command
new_command program = record {
  program = program;
  args = [];
  env_cleared = false;
  env = [];
  current_dir = none;
}

-- `Command::args`, `Command::env` and `Command::env_clear`
unfoldable pub add_args : List Text → Command → Command
add_args args c = record c { args = c.args ++ args }

unfoldable pub set_env : Text → Text → Command → Command
set_env name value c = record c { env = c.env ++ (name, value) ∷ [] }

unfoldable pub env_clear : Command → Command
env_clear c = record c { env_cleared = true; env = [] }

unfoldable pub program_of : Operation → Text
program_of evaluate = text "nix-instantiate"
program_of instantiate = text "nix-instantiate"
program_of build = text "nix-build"
program_of query_packages_json = text "nix-env"
program_of query_packages_outputs = text "nix-env"
program_of (no_op operation) = text "echo"
program_of (unknown program) = program

unfoldable pub operation_args : Operation → List Text
operation_args build = text "--no-out-link" ∷ text "--keep-going" ∷ []
operation_args query_packages_json = text "--query" ∷ text "--available" ∷ text "--json" ∷ []
operation_args query_packages_outputs =
    text "--query"
    ∷ text "--available"
    ∷ text "--no-name"
    ∷ text "--attr-path"
    ∷ text "--out-path"
    ∷ []
operation_args (no_op operation) = operation_args operation
operation_args evaluate = text "--eval" ∷ text "--strict" ∷ text "--json" ∷ []
operation_args instantiate = []
operation_args (unknown program) = []

-- `Display`
unfoldable pub operation_name : Operation → Text
operation_name build = text "nix-build"
operation_name instantiate = text "nix-instantiate"
operation_name query_packages_json = text "nix-env -qa --json"
operation_name query_packages_outputs = text "nix-env -qaP --no-name --out-path"
operation_name (no_op operation) = operation_name operation
operation_name (unknown program) = program
operation_name evaluate = text "nix-instantiate --strict --json ..."

pub record Nix : Type 0 where
  pub system : Text
  pub remote : Text
  pub build_timeout : ℕ
  pub limit_supported_systems : Bool
  pub initial_heap_size : Option Text

unfoldable pub new : Text → Text → ℕ → Option Text → Nix
new system remote build_timeout initial_heap_size = record {
  system = system;
  remote = remote;
  build_timeout = build_timeout;
  limit_supported_systems = true;
  initial_heap_size = initial_heap_size;
}

unfoldable pub with_system : Text → Nix → Nix
with_system system n = record n { system = system }

unfoldable pub with_limited_supported_systems : Nix → Nix
with_limited_supported_systems n = record n { limit_supported_systems = true }

unfoldable pub without_limited_supported_systems : Nix → Nix
without_limited_supported_systems n = record n { limit_supported_systems = false }

-- `path` is the process's own `PATH`: without it, the code panics.
module _ (path : Option Text) (n : Nix) where
  abbrev with_heap_size : Option Text → Command → Command
  with_heap_size none c = c
  with_heap_size (some size) c = set_env (text "GC_INITIAL_HEAP_SIZE") size c

  -- the arguments between the operation's and the caller's
  unfoldable pub restrict : Command → Command
  unfolding add_args
  restrict c =
      let traced = add_args (text "--show-trace" ∷ []) c in
      let restricted =
        add_args (text "--option" ∷ text "restrict-eval" ∷ text "true" ∷ []) traced in
      let limited =
        add_args (text "--option" ∷ text "build-timeout" ∷ decimal n.build_timeout ∷ [])
          restricted in
      let placed = add_args (text "--argstr" ∷ text "system" ∷ n.system ∷ []) limited in
      if n.limit_supported_systems
      then add_args
          (text "--arg" ∷ text "supportedSystems" ∷ (text "[\"" ++ (n.system ++ text "\"]")) ∷ [])
          placed
      else placed

  unfoldable pub safe_command : Operation → Text → List Text → List Text → Option Command
  unfolding add_args set_env env_clear new_command restrict
  safe_command op nixpkgs args safe_paths =
      let nixpath = safe_paths ++ (text "nixpkgs=" ++ nixpkgs) ∷ [] in
      let cleared = env_clear (add_args (operation_args op) (new_command (program_of op))) in
      let homeless =
        set_env (text "HOME") (text "/homeless-shelter")
          (record cleared { current_dir = some nixpkgs }) in
      let found = set_env (text "NIX_PATH") (join (text ":") nixpath) homeless in
      let remote = set_env (text "NIX_REMOTE") n.remote found in
      let sized = with_heap_size n.initial_heap_size remote in
      elim path [
        | none ↦ none
        | some p ↦ some (add_args args (restrict (set_env (text "PATH") p sized)))
      ]

  -- the attributes, each behind its `-A`
  unfoldable pub attr_args : List Text → List Text
  attr_args [] = []
  attr_args (attr ∷ attrs) = text "-A" ∷ attr ∷ attr_args attrs

  abbrev nixpkgs_arg : File → List Text
  nixpkgs_arg default_nixpkgs = []
  nixpkgs_arg release_nixos =
      text "--arg"
      ∷ text "nixpkgs"
      ∷ text "{ outPath=./.; revCount=999999; shortRev=\"ofborg\"; }"
      ∷ []

  unfoldable pub set_attrs_command : File → List Text → Command → Command
  unfolding add_args attr_args
  set_attrs_command file attrs c =
      add_args (file_name file ∷ (attr_args attrs ++ nixpkgs_arg file)) c

  -- The command of `safely_instantiate_attrs`, `safely_build_attrs` and `safely_build_attrs_async`.
  unfoldable pub attrs_command : Operation → Text → File → List Text → Option Command
  unfolding safe_command set_attrs_command
  attrs_command op nixpkgs file attrs = elim (safe_command op nixpkgs [] []) [
    | none ↦ none
    | some c ↦ some (set_attrs_command file attrs c)
  ]

  abbrev argstr_args : List (Text × Text) → List Text
  argstr_args [] = []
  argstr_args ((name, value) ∷ rest) = text "--argstr" ∷ name ∷ value ∷ argstr_args rest

  -- `argstrs` in the order in which the hash map is iterated
  unfoldable pub safely_evaluate_expr_cmd :
      Text → Text → List (Text × Text) → List Text → Option Command
  unfolding safe_command
  safely_evaluate_expr_cmd nixpkgs expr argstrs extra_paths =
      safe_command evaluate nixpkgs (text "--expr" ∷ expr ∷ argstr_args argstrs) extra_paths

-- A run of a command: whether it succeeded, and what it wrote to its two streams, in order.
pub data Stream : Type 0 where
  stdout stderr : Stream

pub record Run : Type 0 where
  pub success : Bool
  pub written : List (Stream × Text)

unfoldable pub stdout_of : List (Stream × Text) → Text
stdout_of [] = []
stdout_of ((stdout, s) ∷ rest) = s ++ stdout_of rest
stdout_of ((stderr, s) ∷ rest) = stdout_of rest

unfoldable pub stderr_of : List (Stream × Text) → Text
stderr_of [] = []
stderr_of ((stdout, s) ∷ rest) = stderr_of rest
stderr_of ((stderr, s) ∷ rest) = s ++ stderr_of rest

-- Both streams, written to the same file.
unfoldable pub both_of : List (Stream × Text) → Text
both_of [] = []
both_of ((stream, s) ∷ rest) = s ++ both_of rest

-- `status` runs a command; `none` is a command that cannot be run, which panics. The files for the
-- output are its content, and creating them is taken to succeed.
module _ (status : Command → Option Run) where
  unfoldable pub run : Command → Bool → Option (Result Text Text)
  run cmd keep_stdout = elim (status cmd) [
    | none ↦ none
    | some r ↦
        let out = if keep_stdout then both_of r.written else stderr_of r.written in
        some (if r.success then ok out else err out)
  ]

  unfoldable pub run_stderr_stdout : Command → Option (Bool × (Text × Text))
  run_stderr_stdout cmd = elim (status cmd) [
    | none ↦ none
    | some r ↦ some (r.success, (stdout_of r.written, stderr_of r.written))
  ]

  module _ (path : Option Text) (n : Nix) where
    abbrev run_made : Option Command → Bool → Option (Result Text Text)
    run_made none keep_stdout = none
    run_made (some c) keep_stdout = run c keep_stdout

    unfoldable pub safely : Operation → Text → List Text → Bool → Option (Result Text Text)
    unfolding run
    safely op nixpkgs args keep_stdout =
        run_made (safe_command path n op nixpkgs args []) keep_stdout

    unfoldable pub safely_instantiate_attrs : Text → File → List Text → Option (Result Text Text)
    unfolding run
    safely_instantiate_attrs nixpkgs file attrs =
        run_made (attrs_command path n instantiate nixpkgs file attrs) true

    unfoldable pub safely_build_attrs : Text → File → List Text → Option (Result Text Text)
    unfolding run
    safely_build_attrs nixpkgs file attrs =
        run_made (attrs_command path n build nixpkgs file attrs) true
