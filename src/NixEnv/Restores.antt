-- ===== src/NixEnv/Restores.antt =====
-- What the evaluation of all packages leaves behind: ofborg/src/nixenv.rs.
use ofborg.Base.{ℕ, Bool, Option, none, some, Text, Result, ◌≡◌, ◌⊎◌, refl, ap, ◌∙◌, inl, inr}
use ofborg.Nix.{Command, Run}
use ofborg.OutPathDiff.{PackageOutPaths}
use ofborg.NixEnv.{
  HydraNixEnv, Error, FileSystem, outpath_nix_path, place_nix, remove_nix, run_nix_env, outcome,
  written, removed, placed, execute_with_stats,
}

module _ {F S : Type 0} (fs : FileSystem F) (status : Command → F → Option Run) (path : Option Text)
    (outpaths_nix : Text) (from_reader : Text → Result S Text) (seek_error read_error : Option Text)
    (is_space : ℕ → Bool) (env : HydraNixEnv) where
  abbrev Outcome : Type 0
  Outcome = Option (F × Result (PackageOutPaths × S) Error)

  abbrev pub executed : F → Outcome
  executed f =
      execute_with_stats fs status path outpaths_nix from_reader seek_error read_error is_space env
        f

  abbrev pub ran : F → Option (Bool × (Text × Text))
  ran f = run_nix_env fs status path outpaths_nix from_reader seek_error read_error is_space env f

  abbrev pub said : Bool → Text → Text → Result (PackageOutPaths × S) Error
  said b out errors =
      outcome fs status path outpaths_nix from_reader seek_error read_error is_space env b out
        errors

  -- once the file is written, the evaluation is nix-env's run and the removal of the file
  executed-written :
      (f g h : F)
      → fs.create (outpath_nix_path env) f ≡ (g, none)
      → fs.write_all (outpath_nix_path env) outpaths_nix g ≡ (h, none)
      → executed f
        ≡ placed fs status path outpaths_nix from_reader seek_error read_error is_space env
            (h, none)
  unfolding execute_with_stats place_nix
  executed-written f g h c v =
      ap
        (λ p.
          placed fs status path outpaths_nix from_reader seek_error read_error is_space env
            (written fs status path outpaths_nix from_reader seek_error read_error is_space env p))
        c
      ∙ ap (placed fs status path outpaths_nix from_reader seek_error read_error is_space env) v

  placed-none :
      (h : F)
      → ran h ≡ none
      → placed fs status path outpaths_nix from_reader seek_error read_error is_space env (h, none)
        ≡ none
  unfolding placed
  placed-none h e =
      ap
        (λ o. elim o [
          | none ↦ none
          | some said ↦ some (
              removed fs status path outpaths_nix from_reader seek_error read_error is_space env
                (remove_nix fs status path outpaths_nix from_reader seek_error read_error is_space
                  env h)
                said)
        ])
        e

  placed-some :
      (f h : F) (b : Bool) (out errors : Text)
      → fs.remove_file (outpath_nix_path env) h ≡ (f, none)
      → ran h ≡ some (b, (out, errors))
      → placed fs status path outpaths_nix from_reader seek_error read_error is_space env (h, none)
        ≡ some (f, said b out errors)
  unfolding placed remove_nix removed
  placed-some f h b out errors r e =
      ap
        (λ o. elim o [
          | none ↦ none
          | some said ↦ some (
              removed fs status path outpaths_nix from_reader seek_error read_error is_space env
                (remove_nix fs status path outpaths_nix from_reader seek_error read_error is_space
                  env h)
                said)
        ])
        e
      ∙ ap
          (λ p. some (
            removed fs status path outpaths_nix from_reader seek_error read_error is_space env p
              (b, (out, errors))))
          r

  -- Once its file is written, and if removing the file again would undo that, the evaluation either
  -- cannot run nix-env, which panics, or it leaves the files as it found them, and its result is told
  -- by what nix-env said, also when nix-env failed or its statistics cannot be read.
  pub executed_restores :
      (f g h : F)
      → fs.create (outpath_nix_path env) f ≡ (g, none)
      → fs.write_all (outpath_nix_path env) outpaths_nix g ≡ (h, none)
      → fs.remove_file (outpath_nix_path env) h ≡ (f, none)
      → ((ran h ≡ none) × (executed f ≡ none))
        ⊎ ((b : Bool) × (out errors : Text) × (ran h ≡ some (b, (out, errors)))
            × (executed f ≡ some (f, said b out errors)))
  executed_restores f g h c v r = go (ran h) refl
    where
      go :
          (o : Option (Bool × (Text × Text)))
          → ran h ≡ o
          → ((ran h ≡ none) × (executed f ≡ none))
            ⊎ ((b : Bool) × (out errors : Text) × (ran h ≡ some (b, (out, errors)))
                × (executed f ≡ some (f, said b out errors)))
      go none e = inl (e, executed-written f g h c v ∙ placed-none h e)
      go (some (b, (out, errors))) e =
          inr (b, out, errors, e, executed-written f g h c v ∙ placed-some f h b out errors r e)
