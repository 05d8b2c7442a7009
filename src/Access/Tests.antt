-- ===== src/Access/Tests.antt =====
-- The access list of a small installation.
use ofborg.Base.{
  true, false, any, ascii_lower, arith, List, [], ◌∷◌, ◌≡◌, refl, ◌↔◌, ◌⊎◌, Text, text,
  to_ascii_lowercase, Occurs, contains, text_eq,
}
use ofborg.Access.{
  x86_64_linux, aarch64_linux, x86_64_darwin, Acl, new_acl, is_repo_eligible, can_build_restricted,
  can_build_unrestricted, build_job_architectures_for_user_repo,
}
use ofborg.Access.Laws.{architectures_iff, is_ascii_upper, is_repo_eligible-new_acl}

abbrev repos : List Text
repos = text "nixos/nixpkgs" ∷ []

abbrev trusted : List Text
trusted = text "Alice" ∷ []

abbrev known : List Text
known = text "bob" ∷ text "Carol" ∷ []

abbrev acl : Acl
acl = new_acl to_ascii_lowercase repos trusted known

abbrev nixpkgs_name : Text
nixpkgs_name = text "NixOS/nixpkgs"

grants :
    (build_job_architectures_for_user_repo to_ascii_lowercase acl (text "alice") nixpkgs_name
      ≡ x86_64_darwin ∷ x86_64_linux ∷ aarch64_linux ∷ [])
    × (build_job_architectures_for_user_repo to_ascii_lowercase acl (text "CAROL") nixpkgs_name
        ≡ x86_64_linux ∷ aarch64_linux ∷ [])
    × (build_job_architectures_for_user_repo to_ascii_lowercase acl (text "alice") (text "a/b")
        ≡ [])
    × (is_repo_eligible to_ascii_lowercase acl nixpkgs_name ≡ true)
unfolding build_job_architectures_for_user_repo new_acl can_build_unrestricted can_build_restricted
    is_repo_eligible contains text_eq text to_ascii_lowercase
grants = (refl, refl, refl, refl)

architectures_iff_example :
    let archs =
      build_job_architectures_for_user_repo to_ascii_lowercase acl (text "bob") nixpkgs_name in
    (Occurs x86_64_darwin archs
      ↔ (can_build_unrestricted to_ascii_lowercase acl (text "bob") nixpkgs_name ≡ true))
    × (Occurs x86_64_linux archs ↔ (
        (can_build_unrestricted to_ascii_lowercase acl (text "bob") nixpkgs_name ≡ true)
        ⊎ (can_build_restricted to_ascii_lowercase acl (text "bob") nixpkgs_name ≡ true)))
    × (Occurs aarch64_linux archs ↔ Occurs x86_64_linux archs)
architectures_iff_example = architectures_iff to_ascii_lowercase acl (text "bob") nixpkgs_name

lowered_upper : (s : Text) → any is_ascii_upper (to_ascii_lowercase s) ≡ false
unfolding to_ascii_lowercase ascii_lower is_ascii_upper
lowered_upper [] = refl
lowered_upper (c ∷ s) = ground (arith, lowered_upper s)

-- A list that spells the repository as GitHub does grants it nothing.
is_repo_eligible-new_acl_example :
    is_repo_eligible to_ascii_lowercase
      (new_acl to_ascii_lowercase (nixpkgs_name ∷ []) trusted known)
      nixpkgs_name
    ≡ is_repo_eligible to_ascii_lowercase (new_acl to_ascii_lowercase [] trusted known) nixpkgs_name
unfolding text is_ascii_upper
is_repo_eligible-new_acl_example =
    is_repo_eligible-new_acl to_ascii_lowercase [] [] trusted known nixpkgs_name nixpkgs_name
      lowered_upper refl
