-- ===== src/Config/Timeout.antt =====
-- The timeout of builds, from the configuration to the commands: ofborg/src/config.rs with
-- ofborg/src/nix.rs.
use ofborg.Base.{
  some, List, [], ◌∷◌, Text, text, decimal, ltb, ◌≡◌, ◌≤◌, arith, subst, Bool-cases, inl, inr,
}
use ofborg.Nix
use ofborg.Nix.{Nix, Operation, File, Command, attrs_command}
use ofborg.Nix.Arguments.{IsSafe, attrs_command-IsSafe}
use ofborg.Config.{Config, nix}

-- If the configuration gives a nix at all, its timeout is the configured one, of at least 1200
-- seconds, and every command on attributes that it makes carries this timeout behind the restricted
-- evaluation, and no other option.
pub nix-IsSafe :
    (c : Config) (n : Nix) (p : Text) (op : Operation) (nixpkgs : Text) (file : File)
    (attrs : List Text)
    → nix c ≡ some n
    → (1200 ≤ c.nix_config.build_timeout_seconds)
      × ((cmd : Command) × (attrs_command (some p) n op nixpkgs file attrs ≡ some cmd)
          × IsSafe nixpkgs
              ((text "restrict-eval", text "true")
                ∷ (text "build-timeout", decimal c.nix_config.build_timeout_seconds)
                ∷ [])
              attrs
              cmd)
unfolding nix Nix.new
nix-IsSafe c n p op nixpkgs file attrs e =
    elim (Bool-cases (ltb c.nix_config.build_timeout_seconds 1200)) [
      | inl f ↦ absurd (ground (arith, e, f))
      | inr f ↦
          let made : n.build_timeout ≡ c.nix_config.build_timeout_seconds = ground (arith, e, f) in
          let (cmd, g, h) = attrs_command-IsSafe p n op nixpkgs file attrs in
          (
            ground arith,
            (
              cmd,
              g,
              subst
                  (λ t.
                    IsSafe nixpkgs
                      ((text "restrict-eval", text "true") ∷ (text "build-timeout", decimal t) ∷ [])
                      attrs cmd)
                  made h,
            ),
          )
    ]
