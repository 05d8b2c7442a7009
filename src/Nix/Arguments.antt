-- ===== src/Nix/Arguments.antt =====
-- What nix reads of the command lines: ofborg/src/nix.rs.
use ofborg.Base.{
  true, Option, none, some, List, [], ◌∷◌, ◌++◌, Text, text, text_eq, decimal, ◌≡◌, refl, ap,
  Bool-cases, inl, inr, subst, append-nil, All, All-append, contains,
}
use ofborg.Nix.{
  File, default_nixpkgs, release_nixos, Operation, evaluate, instantiate, build,
  query_packages_json, query_packages_outputs, no_op, unknown, Nix, Command, operation_args,
  attr_args, attrs_command, safe_command, set_attrs_command, restrict, add_args, set_env,
  with_heap_size, new_command, env_clear, program_of, file_name, nixpkgs_arg,
}
use ofborg.Nix.Settings.{
  read, awaits, opened, next, finished, options, attributes, Reads, Reads-append,
}

quiet : (op : Operation) → Reads (operation_args op) [] []
unfolding operation_args read awaits next opened finished options attributes text text_eq
quiet build = record { complete = refl; with_options = refl; with_attributes = refl }
quiet query_packages_json = record { complete = refl; with_options = refl; with_attributes = refl }
quiet query_packages_outputs = record {
  complete = refl;
  with_options = refl;
  with_attributes = refl;
}
quiet (no_op op) = quiet op
quiet evaluate = record { complete = refl; with_options = refl; with_attributes = refl }
quiet instantiate = record { complete = refl; with_options = refl; with_attributes = refl }
quiet (unknown program) = record { complete = refl; with_options = refl; with_attributes = refl }

attr_args-Reads :
    (path : Option Text) (n : Nix) (attrs : List Text) → Reads (attr_args path n attrs) [] attrs
unfolding attr_args read awaits next opened finished options attributes text text_eq
attr_args-Reads path n [] = record { complete = refl; with_options = refl; with_attributes = refl }
attr_args-Reads path n (a ∷ attrs) =
    Reads-append (text "-A" ∷ a ∷ []) (attr_args path n attrs)
      (record { complete = refl; with_options = refl; with_attributes = refl })
      (attr_args-Reads path n attrs)

abbrev pub restrictions : Nix → List (Text × Text)
restrictions n =
    (text "restrict-eval", text "true") ∷ (text "build-timeout", decimal n.build_timeout) ∷ []

traced-Reads : Reads (text "--show-trace" ∷ []) [] []
unfolding read awaits next opened finished options attributes text text_eq
traced-Reads = record { complete = refl; with_options = refl; with_attributes = refl }

option-Reads :
    (name value : Text) → Reads (text "--option" ∷ name ∷ value ∷ []) ((name, value) ∷ []) []
unfolding read awaits next opened finished options attributes text text_eq
option-Reads name value = record { complete = refl; with_options = refl; with_attributes = refl }

arg-Reads : (name value : Text) → Reads (text "--arg" ∷ name ∷ value ∷ []) [] []
unfolding read awaits next opened finished options attributes text text_eq
arg-Reads name value = record { complete = refl; with_options = refl; with_attributes = refl }

argstr-Reads : (name value : Text) → Reads (text "--argstr" ∷ name ∷ value ∷ []) [] []
unfolding read awaits next opened finished options attributes text text_eq
argstr-Reads name value = record { complete = refl; with_options = refl; with_attributes = refl }

name-Reads : (file : File) → Reads (file_name file ∷ []) [] []
unfolding file_name read awaits next opened finished options attributes text text_eq
name-Reads default_nixpkgs = record { complete = refl; with_options = refl; with_attributes = refl }
name-Reads release_nixos = record { complete = refl; with_options = refl; with_attributes = refl }

module _ (path : Option Text) (n : Nix) where
  tail-Reads : (file : File) → Reads (nixpkgs_arg path n file) [] []
  tail-Reads default_nixpkgs =
      unfold read awaits options attributes in
      record { complete = refl; with_options = refl; with_attributes = refl }
  tail-Reads release_nixos = arg-Reads _ _

  file-Reads :
      (file : File) (attrs : List Text)
      → Reads (file_name file ∷ (attr_args path n attrs ++ nixpkgs_arg path n file)) [] attrs
  file-Reads file attrs =
      subst
        (λ xs. Reads (file_name file ∷ (attr_args path n attrs ++ nixpkgs_arg path n file)) [] xs)
        (append-nil attrs)
        (Reads-append (file_name file ∷ []) (attr_args path n attrs ++ nixpkgs_arg path n file)
          (name-Reads file) (Reads-append _ _ (attr_args-Reads path n attrs) (tail-Reads file)))

abbrev pub allowed : List Text
allowed =
    text "HOME"
    ∷ text "NIX_PATH"
    ∷ text "NIX_REMOTE"
    ∷ text "GC_INITIAL_HEAP_SIZE"
    ∷ text "PATH"
    ∷ []

-- A command that stands in the checkout, whose variables are only the allowed ones, and whose arguments
-- have these options and attributes.
pub record IsSafe (nixpkgs : Text) (os : List (Text × Text)) (xs : List Text) (c : Command)
    : Type 0 where
  pub reads : Reads c.args os xs
  pub is_cleared : c.env_cleared ≡ true
  pub has_names : All (λ e. contains allowed e.0 ≡ true) c.env
  pub stands : c.current_dir ≡ some nixpkgs

module _ {nixpkgs : Text} {os : List (Text × Text)} {xs : List Text} where
  set_env-IsSafe :
      (name value : Text) (c : Command)
      → contains allowed name ≡ true
      → IsSafe nixpkgs os xs c
      → IsSafe nixpkgs os xs (set_env name value c)
  unfolding set_env
  set_env-IsSafe name value c e h = record {
    reads = h.reads;
    is_cleared = h.is_cleared;
    has_names = All-append _ c.env ((name, value) ∷ []) h.has_names (e, tt);
    stands = h.stands;
  }

  add_args-IsSafe :
      (args : List Text) {ps : List (Text × Text)} {ys : List Text} (c : Command)
      → Reads args ps ys
      → IsSafe nixpkgs os xs c
      → IsSafe nixpkgs (os ++ ps) (xs ++ ys) (add_args args c)
  unfolding add_args
  add_args-IsSafe args c r h = record {
    reads = Reads-append c.args args h.reads r;
    is_cleared = h.is_cleared;
    has_names = h.has_names;
    stands = h.stands;
  }

module _ (path : Option Text) (n : Nix) {nixpkgs : Text} where
  heap-IsSafe :
      (size : Option Text) (c : Command)
      → IsSafe nixpkgs [] [] c
      → IsSafe nixpkgs [] [] (with_heap_size path n size c)
  heap-IsSafe none c h = h
  heap-IsSafe (some size) c h =
      set_env-IsSafe (text "GC_INITIAL_HEAP_SIZE") size c (unfold contains text_eq text in refl) h

  restrict-IsSafe :
      (c : Command)
      → IsSafe nixpkgs [] [] c
      → IsSafe nixpkgs (restrictions n) [] (restrict path n c)
  unfolding restrict
  restrict-IsSafe c h = elim (Bool-cases n.limit_supported_systems) [
    | inl e ↦ rw e (add_args-IsSafe _ _ (arg-Reads _ _) placed)
    | inr e ↦ rw e placed
  ]
    where
      traced : Command
      traced = add_args (text "--show-trace" ∷ []) c

      limited : Command
      limited =
          add_args (text "--option" ∷ text "build-timeout" ∷ decimal n.build_timeout ∷ [])
            (add_args (text "--option" ∷ text "restrict-eval" ∷ text "true" ∷ []) traced)

      placed :
          IsSafe nixpkgs
            (restrictions n)
            []
            (add_args (text "--argstr" ∷ text "system" ∷ n.system ∷ []) limited)
      placed = add_args-IsSafe _ limited (argstr-Reads _ _) (
          add_args-IsSafe _ _ (option-Reads _ _)
            (add_args-IsSafe _ traced (option-Reads _ _) (add_args-IsSafe _ c traced-Reads h)))

pub safe_command-IsSafe :
    (p : Text) (n : Nix) (op : Operation) (nixpkgs : Text) (args safe_paths : List Text)
    {ps : List (Text × Text)} {ys : List Text}
    → Reads args ps ys
    → (c : Command) × (safe_command (some p) n op nixpkgs args safe_paths ≡ some c)
      × IsSafe nixpkgs (restrictions n ++ ps) ys c
unfolding safe_command add_args env_clear new_command contains text text_eq
safe_command-IsSafe p n op nixpkgs args safe_paths r = (
  _,
  refl,
  add_args-IsSafe args _ r (
      restrict-IsSafe (some p) n _ (
        set_env-IsSafe (text "PATH") p _ refl (
          heap-IsSafe (some p) n n.initial_heap_size _ (
            set_env-IsSafe (text "NIX_REMOTE") n.remote _ refl (
              set_env-IsSafe (text "NIX_PATH") _ _ refl
                (set_env-IsSafe (text "HOME") (text "/homeless-shelter") _ refl base)))))),
)
  where
    base : IsSafe nixpkgs [] [] (record {
      program = program_of op;
      args = operation_args op;
      env_cleared = true;
      env = [];
      current_dir = some nixpkgs;
    })
    base = record { reads = quiet op; is_cleared = refl; has_names = tt; stands = refl }

-- A nix command on attributes is made whenever the process has a `PATH`. It runs in the checkout; of
-- the process's environment it has no variable but the allowed ones; and whatever texts the attributes
-- are, nix reads all of them as attributes, in their order, and reads as its options only the
-- restricted evaluation and the timeout for builds.
pub attrs_command-IsSafe :
    (p : Text) (n : Nix) (op : Operation) (nixpkgs : Text) (file : File) (attrs : List Text)
    → (c : Command) × (attrs_command (some p) n op nixpkgs file attrs ≡ some c)
      × IsSafe nixpkgs (restrictions n) attrs c
unfolding attrs_command set_attrs_command add_args read awaits options attributes
attrs_command-IsSafe p n op nixpkgs file attrs =
    let (c, e, h) =
      safe_command-IsSafe p n op nixpkgs [] []
        (record { complete = refl; with_options = refl; with_attributes = refl }) in
    (
      _,
      ap (λ o. elim o [ none ↦ none | some d ↦ some (set_attrs_command (some p) n file attrs d) ])
          e,
      add_args-IsSafe _ c (file-Reads (some p) n file attrs) h,
    )
