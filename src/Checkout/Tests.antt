-- ===== src/Checkout/Tests.antt =====
-- Processes that fetch the same pull request.
use ofborg.Base.{
  ℕ, true, none, some, List, [], ◌∷◌, ◌++◌, Text, text, ok, decimal, to_ascii_lowercase, ◌≡◌, ◌≢◌,
  ◌⊎◌, refl, arith,
}
use ofborg.Clone.{
  Event, locked, unlocked, ran, System, GitCommand, with_lock, entered, released, then_do, continue,
  run_git,
}
use ofborg.Checkout.{
  CachedProject, CachedProjectCo, co_clonable, push, checkout_origin_ref, under_lock, fetch_pr,
}
use ofborg.Checkout.Script.{Keeps}
use ofborg.Checkout.Order.{plan, checkout_origin_ref-Keeps}
use ofborg.Checkout.Workers.{AreWorkers, fetches, workers_alone, workers-Moves}
use ofborg.Checkout.Exclusion.{Process, takes, Reaches, here, further, Moves, put}

abbrev system : System (Unit {0})
system = record {
  lock = λ p m. (m, none);
  unlock = λ p m. m;
  create_dir_all = λ p m. (m, none);
  is_dir = λ p m. true;
  git = λ c m. (m, ok (record { success = true; stdout = []; stderr = [] }));
}

abbrev a_project : CachedProject
a_project = record { root = text "/cache/repo/1"; clone_url = text "https://example.org" }

abbrev a_checkout : CachedProjectCo
a_checkout = record {
  root = text "/cache/repo/1/mr-est";
  id = text "worker";
  clone_url = text "https://example.org";
  local_reference = text "/cache/repo/1/clone";
}

abbrev quoted : Text → Text
quoted s = s

-- The directory, its lock, and the command.
abbrev directory : Text
directory = text "/cache/repo/1/mr-est/worker"

abbrev lock : Text
lock = text "/cache/repo/1/mr-est/worker.lock"

abbrev fetching : GitCommand
fetching = record {
  args = text "fetch" ∷ text "origin" ∷ text "+refs/pull/7/head:pr" ∷ [];
  current_dir = some directory;
}

abbrev fetch : List Event
fetch = (fetch_pr system quoted to_ascii_lowercase a_checkout 7 tt).1.0

fetch_trace : fetch ≡ locked lock ∷ ran directory fetching ∷ unlocked lock ∷ []
unfolding fetch_pr under_lock with_lock entered released then_do continue run_git co_clonable push
    text decimal
fetch_trace = refl

abbrev processes : ℕ → Process
processes i = record { held = none; rest = fetch }

processes-AreWorkers : AreWorkers system quoted to_ascii_lowercase processes
processes-AreWorkers = record { hold_none = λ i. refl; operate = λ i. fetches a_checkout 7 tt }

-- The first process has taken the lock.
abbrev first_took : ℕ → Process
first_took =
    put 0 (record { held = some lock; rest = ran directory fetching ∷ unlocked lock ∷ [] })
      processes

first_took-Reaches : Reaches processes first_took
first_took-Reaches = further 0 processes first_took here (
    takes 0 lock (ran directory fetching ∷ unlocked lock ∷ []) refl fetch_trace
      (λ j e. absurd (ground arith)))

workers_alone_example : Path ℕ 0 0
workers_alone_example =
    workers_alone system quoted to_ascii_lowercase processes first_took 0 0 directory fetching
      fetching (unlocked lock ∷ []) (unlocked lock ∷ []) processes-AreWorkers first_took-Reaches
      (unfold put in refl) (unfold put in refl)

workers-Moves_example :
    Moves processes 1
    ⊎ ((p : Text) × (locked lock ≡ locked p)
        × ((j : ℕ) → (processes j).held ≡ some p → Moves processes j)
        × (((j : ℕ) → (processes j).held ≢ some p) → Moves processes 1))
workers-Moves_example =
    workers-Moves system quoted to_ascii_lowercase processes processes 1 (locked lock)
      (ran directory fetching ∷ unlocked lock ∷ []) processes-AreWorkers here fetch_trace

checkout_origin_ref-Keeps_example :
    Keeps
      (plan system quoted (co_clonable a_checkout) (text "origin/" ++ text "master"))
      (checkout_origin_ref system quoted to_ascii_lowercase a_checkout (text "master") tt)
checkout_origin_ref-Keeps_example =
    checkout_origin_ref-Keeps system quoted to_ascii_lowercase a_checkout (text "master") tt
