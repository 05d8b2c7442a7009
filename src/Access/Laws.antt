-- ===== src/Access/Laws.antt =====
-- What the access list grants: ofborg/src/acl.rs.
use ofborg.Base.{
  ℕ, Bool, true, false, ◌&&◌, leb, any, ap, ◌++◌, text_eq, contains-append, List, [], ◌∷◌, map, ◌≡◌,
  ◌↔◌, ◌⊎◌, arith, Text, text, text_eq_iff, contains, contains_iff, Occurs,
}
use ofborg.Access.{
  System, x86_64_linux, aarch64_linux, x86_64_darwin, Acl, new_acl, is_repo_eligible,
  can_build_restricted, can_build_unrestricted, build_job_architectures_for_user_repo,
}

-- The users whom a list of names grants something, whatever case either is written in.
abbrev pub Listed : (Text → Text) → Text → List Text → Type 0
Listed lower user [] = ⊥
Listed lower user (name ∷ names) = (lower user ≡ lower name) ⊎ Listed lower user names

Occurs-map_lower :
    (lower : Text → Text) (user : Text) (names : List Text)
    → Occurs (lower user) (map lower names) ↔ Listed lower user names
Occurs-map_lower lower user [] = ((λ h. h), (λ h. h))
Occurs-map_lower lower user (name ∷ names) = ground (arith, Occurs-map_lower lower user names)

contains-map_lower :
    (lower : Text → Text) (user : Text) (names : List Text)
    → (contains (map lower names) (lower user) ≡ true) ↔ Listed lower user names
contains-map_lower lower user names =
    ground (arith, contains_iff (map lower names) (lower user), Occurs-map_lower lower user names)

module _ (lower : Text → Text) (repos trusted known : List Text) (user repo : Text) where
  abbrev IsNixpkgs : Type 0
  IsNixpkgs = lower repo ≡ text "nixos/nixpkgs"

  -- A user may build without restriction exactly if the repository is nixos/nixpkgs, in any case,
  -- and the user is a trusted one, in any case, or if the repository is another and the user is
  -- spelled exactly grahamc.
  pub can_build_unrestricted_iff :
      (can_build_unrestricted lower (new_acl lower repos trusted known) user repo ≡ true)
      ↔ ((IsNixpkgs × Listed lower user trusted) ⊎ ((¬ IsNixpkgs) × (user ≡ text "grahamc")))
  unfolding can_build_unrestricted new_acl
  can_build_unrestricted_iff = ground (
    arith,
    text_eq_iff (lower repo) (text "nixos/nixpkgs"),
    text_eq_iff user (text "grahamc"),
    contains-map_lower lower user trusted,
  )

  -- A user may build with restriction exactly if the repository is nixos/nixpkgs, in any case, and the
  -- user is a known one, in any case.
  pub can_build_restricted_iff :
      (can_build_restricted lower (new_acl lower repos trusted known) user repo ≡ true)
      ↔ (IsNixpkgs × Listed lower user known)
  unfolding can_build_restricted new_acl
  can_build_restricted_iff =
      ground (
        arith,
        text_eq_iff (lower repo) (text "nixos/nixpkgs"),
        contains-map_lower lower user known,
      )

module _ (lower : Text → Text) (acl : Acl) (user repo : Text) where
  abbrev granted : List System
  granted = build_job_architectures_for_user_repo lower acl user repo

  -- Darwin machines are given to those who may build without restriction, and to them alone; Linux
  -- machines to those who may build with or without it; both Linux machines go together.
  pub architectures_iff :
      (Occurs x86_64_darwin granted ↔ (can_build_unrestricted lower acl user repo ≡ true))
      × (Occurs x86_64_linux granted ↔ (
          (can_build_unrestricted lower acl user repo ≡ true)
          ⊎ (can_build_restricted lower acl user repo ≡ true)))
      × (Occurs aarch64_linux granted ↔ Occurs x86_64_linux granted)
  unfolding build_job_architectures_for_user_repo
  architectures_iff = (ground arith, ground arith, ground arith)

-- An upper-case letter of ASCII
unfoldable pub is_ascii_upper : ℕ → Bool
is_ascii_upper c = leb b'A' c && leb c b'Z'

same_upper : (s t : Text) → text_eq s t ≡ true → any is_ascii_upper s ≡ any is_ascii_upper t
same_upper s t e = ap (any is_ascii_upper) ((text_eq_iff s t).0 e)

-- The list of repositories is not lowered, but the name that is looked up is. So an entry with an
-- upper-case letter of ASCII never makes a repository eligible: without the entry, the same ones are,
-- whatever their names and the other entries. Lowering must leave no such letter.
pub is_repo_eligible-new_acl :
    (lower : Text → Text) (front back trusted known : List Text) (entry name : Text)
    → ((s : Text) → any is_ascii_upper (lower s) ≡ false)
    → any is_ascii_upper entry ≡ true
    → is_repo_eligible lower (new_acl lower (front ++ entry ∷ back) trusted known) name
      ≡ is_repo_eligible lower (new_acl lower (front ++ back) trusted known) name
unfolding is_repo_eligible new_acl contains
is_repo_eligible-new_acl lower front back trusted known entry name low up = ground (
  arith,
  contains-append front (entry ∷ back) (lower name),
  contains-append front back (lower name),
  low name,
  same_upper (lower name) entry,
)
