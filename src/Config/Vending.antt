-- ===== src/Config/Vending.antt =====
-- `GithubAppVendingMachine` of ofborg/src/config.rs: the clients of the installations of the
-- application, with two caches; and what they promise.
use ofborg.Base.{
  ℕ, Bool, ◌&&◌, Option, none, some, List, [], ◌∷◌, Text, text_eq, text_eq_iff, if◌then◌else◌, ◌==◌,
  ==_iff, ◌≡◌, refl, arith, sym, ap, ◌∙◌, All, Bool-cases, Option-cases, inl, inr,
}

-- An owner and a repository.
abbrev pub Key : Type 0
Key = Text × Text

unfoldable pub same_key : Key → Key → Bool
same_key (o, r) (p, s) = text_eq o p && text_eq r s

-- The caches: hash maps, the newest entry first. `G` is the type of clients.
pub record GithubAppVendingMachine (G : Type 0) : Type 0 where
  pub id_cache : List (Key × Option ℕ)
  pub client_cache : List (ℕ × G)

unfoldable pub new : {G : Type 0} → GithubAppVendingMachine G
new = record { id_cache = []; client_cache = [] }

abbrev lookup_id : Key → List (Key × Option ℕ) → Option (Option ℕ)
lookup_id k [] = none
lookup_id k ((q, v) ∷ rest) = let later = lookup_id k rest in if same_key k q then some v else later

abbrev lookup_client : {G : Type 0} → ℕ → List (ℕ × G) → Option G
lookup_client i [] = none
lookup_client i ((j, g) ∷ rest) =
    let later = lookup_client i rest in if i == j then some g else later

-- `ask` asks GitHub for the installation of a repository, where an error is none; `client` makes the
-- client of an installation, with the application's credentials.
module _ {G : Type 0} (ask : Text → Text → Option ℕ) (client : ℕ → G) where
  -- The machine afterwards, and the installation.
  unfoldable pub install_id_for_repo :
      Text → Text → GithubAppVendingMachine G → GithubAppVendingMachine G × Option ℕ
  install_id_for_repo owner repo m = elim (lookup_id (owner, repo) m.id_cache) [
    | some found ↦ (m, found)
    | none ↦
        let asked = ask owner repo in
        (record m { id_cache = ((owner, repo), asked) ∷ m.id_cache }, asked)
  ]

  unfoldable pub client_for : ℕ → GithubAppVendingMachine G → GithubAppVendingMachine G × G
  client_for id m = elim (lookup_client id m.client_cache) [
    | some found ↦ (m, found)
    | none ↦ (record m { client_cache = (id, client id) ∷ m.client_cache }, client id)
  ]

  abbrev client_of : GithubAppVendingMachine G × Option ℕ → GithubAppVendingMachine G × Option G
  client_of (m, none) = (m, none)
  client_of (m, some id) = let (m', g) = client_for id m in (m', some g)

  unfoldable pub for_repo :
      Text → Text → GithubAppVendingMachine G → GithubAppVendingMachine G × Option G
  unfolding install_id_for_repo client_for
  for_repo owner repo m = client_of (install_id_for_repo owner repo m)

  -- The requests of a program, one after the other.
  unfoldable pub serve : List Key → GithubAppVendingMachine G → List (Option G)
  unfolding for_repo
  serve [] m = []
  serve ((owner, repo) ∷ requests) m = let (m', g) = for_repo owner repo m in g ∷ serve requests m'

  -- What they promise: a client of the installation that GitHub names for the repository.
  unfoldable pub specified : Text → Text → Option G
  specified owner repo = elim (ask owner repo) [ none ↦ none | some id ↦ some (client id) ]

  unfoldable pub serve_specified : List Key → List (Option G)
  unfolding specified
  serve_specified [] = []
  serve_specified ((owner, repo) ∷ requests) = specified owner repo ∷ serve_specified requests

  -- The caches hold only what GitHub says and what would be made.
  record IsFaithful (m : GithubAppVendingMachine G) : Type 0 where
    pub true_ids : All (λ e. e.1 ≡ ask e.0.0 e.0.1) m.id_cache
    pub true_clients : All (λ e. e.1 ≡ client e.0) m.client_cache

  looked_up-id :
      (owner repo : Text) (c : List (Key × Option ℕ)) (v : Option ℕ)
      → All (λ e. e.1 ≡ ask e.0.0 e.0.1) c
      → lookup_id (owner, repo) c ≡ some v
      → v ≡ ask owner repo
  unfolding same_key
  looked_up-id owner repo [] v h e = absurd (ground arith)
  looked_up-id owner repo (((o, r), x) ∷ rest) v (h, hs) e =
      elim (Bool-cases (text_eq owner o && text_eq repo r)) [
        | inl f ↦
            let same_owner : owner ≡ o = (text_eq_iff owner o).0 (ground (arith, f)) in
            let same_repo : repo ≡ r = (text_eq_iff repo r).0 (ground (arith, f)) in
            let found : x ≡ v = ground (arith, e, f) in
            sym found
            ∙ h
            ∙ ap (λ p. ask p r) (sym same_owner)
            ∙ ap (λ p. ask owner p) (sym same_repo)
        | inr f ↦ looked_up-id owner repo rest v hs (ground (arith, e, f))
      ]

  looked_up-client :
      (i : ℕ) (c : List (ℕ × G)) (g : G)
      → All (λ e. e.1 ≡ client e.0) c
      → lookup_client i c ≡ some g
      → g ≡ client i
  looked_up-client i [] g h e = absurd (ground arith)
  looked_up-client i ((j, x) ∷ rest) g (h, hs) e = elim (Bool-cases (i == j)) [
    | inl f ↦
        let same : i ≡ j = (==_iff i j).0 f in
        let found : x ≡ g = ground (arith, e, f) in sym found ∙ h ∙ ap client (sym same)
    | inr f ↦ looked_up-client i rest g hs (ground (arith, e, f))
  ]

  id-IsFaithful :
      (owner repo : Text) (m : GithubAppVendingMachine G)
      → IsFaithful m
      → IsFaithful (install_id_for_repo owner repo m).0
        × ((install_id_for_repo owner repo m).1 ≡ ask owner repo)
  unfolding install_id_for_repo
  id-IsFaithful owner repo m h = elim (Option-cases (lookup_id (owner, repo) m.id_cache)) [
    | inl e ↦
        rw (e, install_id_for_repo)
          (record { true_ids = (refl, h.true_ids); true_clients = h.true_clients }, refl)
    | inr (v, e) ↦
        rw (e, install_id_for_repo) (h, looked_up-id owner repo m.id_cache v h.true_ids e)
  ]

  client-IsFaithful :
      (id : ℕ) (m : GithubAppVendingMachine G)
      → IsFaithful m
      → IsFaithful (client_for id m).0 × ((client_for id m).1 ≡ client id)
  unfolding client_for
  client-IsFaithful id m h = elim (Option-cases (lookup_client id m.client_cache)) [
    | inl e ↦
        rw (e, client_for)
          (record { true_ids = h.true_ids; true_clients = (refl, h.true_clients) }, refl)
    | inr (g, e) ↦ rw (e, client_for) (h, looked_up-client id m.client_cache g h.true_clients e)
  ]

  for_repo-IsFaithful :
      (owner repo : Text) (m : GithubAppVendingMachine G)
      → IsFaithful m
      → IsFaithful (for_repo owner repo m).0 × ((for_repo owner repo m).1 ≡ specified owner repo)
  unfolding for_repo specified
  for_repo-IsFaithful owner repo m h =
      let (k, e) = id-IsFaithful owner repo m h in found (install_id_for_repo owner repo m) k e
    where
      found :
          (p : GithubAppVendingMachine G × Option ℕ)
          → IsFaithful p.0
          → p.1 ≡ ask owner repo
          → IsFaithful (client_of p).0
            × ((client_of p).1 ≡ elim (ask owner repo) [ none ↦ none | some id ↦ some (client id) ])
      found (m', none) k e = (k, ap (λ o. elim o [ none ↦ none | some id ↦ some (client id) ]) e)
      found (m', some id) k e =
          let (l, f) = client-IsFaithful id m' k in
          (l, ap some f ∙ ap (λ o. elim o [ none ↦ none | some i ↦ some (client i) ]) e)

  serve-faithful :
      (requests : List Key) (m : GithubAppVendingMachine G)
      → IsFaithful m
      → serve requests m ≡ serve_specified requests
  unfolding serve serve_specified
  serve-faithful [] m h = refl
  serve-faithful ((owner, repo) ∷ requests) m h =
      let (k, e) = for_repo-IsFaithful owner repo m h in
      ap (λ g. g ∷ serve requests (for_repo owner repo m).0) e
      ∙ ap (λ gs. specified owner repo ∷ gs) (serve-faithful requests (for_repo owner repo m).0 k)

  -- A fresh machine answers every sequence of requests as if it had no caches: for each repository the
  -- client of the installation that GitHub names for it, and none if GitHub names none. GitHub and the
  -- making of a client are taken to answer the same question the same way each time.
  pub serve_lem : (requests : List Key) → serve requests new ≡ serve_specified requests
  unfolding new
  serve_lem requests = serve-faithful requests new (record { true_ids = tt; true_clients = tt })
