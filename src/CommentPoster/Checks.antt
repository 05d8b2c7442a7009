-- ===== src/CommentPoster/Checks.antt =====
-- What is posted for an event: ofborg/src/tasks/githubcommentposter.rs.
use ofborg.Base.{
  ℕ, suc, Bool, true, Option, none, some, List, [], ◌∷◌, ◌++◌, Text, text, decimal, ◌≡◌, ◌≢◌, ◌↔◌,
  is_ascii, is_ascii-append, to_ascii_lowercase, to_ascii_lowercase-append, lowered_decimal, refl,
  sym, ap, ◌∙◌, arith, append_assoc,
}
use ofborg.Message.{
  Repo, Pr, Subset, BuildJob, ExchangeQueue, QueuedBuildJobs, BuildStatus, success, BuildResult,
  new_build_job,
}
use ofborg.Message.Results.{neutral, succeeded, conclusion, legacy, status}
use ofborg.Worker.{ack}
use ofborg.CommentPoster.{
  CheckRunOptions, queued, completed, build_queued, build_finished, log_url, check_name,
  job_to_check, result_to_check, checks_from, checks_of, post_all, consumer,
}

-- A check run of a queued job for an architecture.
pub record IsQueuedFor (lower : Text → Text) (job : BuildJob) (architecture : Text)
    (c : CheckRunOptions) : Type 0 where
  pub named : c.name ≡ check_name job.attrs architecture
  pub on_head : c.head_sha ≡ job.pr.head_sha
  pub waits : c.status ≡ some queued
  pub unconcluded : c.conclusion_of ≡ none

-- The two lists have the same length, and their elements are related one by one.
abbrev pub Pairwise :
    (Text → Repo × CheckRunOptions → Type 0) → List Text → List (Repo × CheckRunOptions) → Type 0
Pairwise R [] [] = Unit
Pairwise R [] (y ∷ ys) = ⊥
Pairwise R (x ∷ xs) [] = ⊥
Pairwise R (x ∷ xs) (y ∷ ys) = R x y × Pairwise R xs ys

module _ (lower : Text → Text) (app_for : Text → Text → Bool) (now : ℕ → Text) where
  posted_for :
      (job : BuildJob) (architectures : List Text) (i : ℕ)
      → app_for job.repo.owner job.repo.name ≡ true
      → (posted : List (Repo × CheckRunOptions)) × (post_all lower app_for job.repo
            (checks_from lower now i job architectures)
          ≡ some posted)
        × Pairwise (λ a p. (p.0 ≡ job.repo) × IsQueuedFor lower job a p.1) architectures posted
  unfolding post_all checks_from job_to_check
  posted_for job [] i h = ([], refl, record {})
  posted_for job (a ∷ architectures) i h =
      let ih = posted_for job architectures (suc i) h in
      (
        (job.repo, job_to_check lower job a (now i)) ∷ ih.0,
        rw (h, ih.1) refl,
        ((refl, record { named = refl; on_head = refl; waits = refl; unconcluded = refl }), ih.2),
      )

  -- Where the vending machine knows the repository, a queued job is posted as one check run for each
  -- architecture, in their order, on the job's repository and head commit, named after the attributes
  -- and the architecture, queued and without a conclusion; then the message is acknowledged.
  pub consumer_queued :
      (event : QueuedBuildJobs)
      → app_for event.job.repo.owner event.job.repo.name ≡ true
      → (posted : List (Repo × CheckRunOptions)) × (consumer lower app_for now (build_queued event)
          ≡ some (posted, ack ∷ []))
        × Pairwise
            (λ a p. (p.0 ≡ event.job.repo) × IsQueuedFor lower event.job a p.1)
            event.architectures
            posted
  unfolding consumer checks_of
  consumer_queued event h =
      let r = posted_for event.job event.architectures 0 h in (r.0, rw (r.1, consumer) refl, r.2)

  -- Where it knows the repository, a result in either version is posted as one completed check run on
  -- the head commit, which is marked a success exactly if the status that the message carries or
  -- implies is success, and neutral otherwise; then the message is acknowledged.
  pub consumer_finished :
      (result : BuildResult)
      → app_for (legacy result).body.repo.owner (legacy result).body.repo.name ≡ true
      → (check : CheckRunOptions) × (consumer lower app_for now (build_finished result)
          ≡ some (((legacy result).body.repo, check) ∷ [], ack ∷ []))
        × (check.status ≡ some completed)
        × (check.head_sha ≡ (legacy result).body.pr.head_sha)
        × ((check.conclusion_of ≡ some succeeded) ↔ (status result ≡ success))
        × ((check.conclusion_of ≡ some neutral) ↔ (status result ≢ success))
  unfolding consumer checks_of post_all result_to_check legacy conclusion
  consumer_finished result h = (
    result_to_check lower (legacy result) (now 0),
    rw (h, consumer, post_all) refl,
    refl,
    refl,
    succeeds (status result),
    fails (status result),
  )
    where
      succeeds : (s : BuildStatus) → (some (conclusion s) ≡ some succeeded) ↔ (s ≡ success)
      succeeds s = ground arith

      fails : (s : BuildStatus) → (some (conclusion s) ≡ some neutral) ↔ (s ≢ success)
      fails s = ground arith

slash_dot : (is_ascii (text "/") ≡ true) × (is_ascii (text ".") ≡ true)
unfolding is_ascii text
slash_dot = (refl, refl)

lowered_key :
    (owner name n : Text)
    → to_ascii_lowercase n ≡ n
    → to_ascii_lowercase (((owner ++ (text "/" ++ name)) ++ text ".") ++ n)
      ≡ to_ascii_lowercase owner ++ (text "/" ++ (to_ascii_lowercase name ++ (text "." ++ n)))
unfolding text to_ascii_lowercase
lowered_key owner name n digits =
    let l = to_ascii_lowercase in
    to_ascii_lowercase-append ((owner ++ (text "/" ++ name)) ++ text ".") n
    ∙ ap (λ d. l ((owner ++ (text "/" ++ name)) ++ text ".") ++ d) digits
    ∙ ap (λ k. k ++ n) (to_ascii_lowercase-append (owner ++ (text "/" ++ name)) (text "."))
    ∙ ap (λ k. (k ++ text ".") ++ n) (to_ascii_lowercase-append owner (text "/" ++ name))
    ∙ append_assoc (l owner ++ (text "/" ++ l name)) (text ".") n
    ∙ append_assoc (l owner) (text "/" ++ l name) (text "." ++ n)
    ∙ ap (λ k. l owner ++ k) (append_assoc (text "/") (l name) (text "." ++ n))

-- Where the owner and the name of a repository are of ASCII, and lowering does to such texts what it
-- does in ASCII, and the full name is the owner, a slash and the name, the log that a new job's check
-- run links to is under the routing key to which the job's log is published.
pub log_url-new_build_job :
    (lower : Text → Text) (repo : Repo) (pr : Pr) (subset : Subset) (attrs : List Text)
    (statusreport : Option ExchangeQueue) (request_id : Text)
    → ((s : Text) → is_ascii s ≡ true → lower s ≡ to_ascii_lowercase s)
    → is_ascii repo.owner ≡ true
    → is_ascii repo.name ≡ true
    → repo.full_name ≡ repo.owner ++ (text "/" ++ repo.name)
    → (key : Text) × ((new_build_job lower repo pr subset attrs none statusreport request_id).logs
        ≡ some (some (text "logs"), some key))
      × (log_url lower repo pr.number ≡ text "https://logs.nix.ci/?key=" ++ key)
unfolding new_build_job log_url
log_url-new_build_job lower repo pr subset attrs statusreport request_id ascii owned named full =
    let n = decimal pr.number in
    let whole = ((repo.owner ++ (text "/" ++ repo.name)) ++ text ".") ++ n in
    let plain : is_ascii whole ≡ true = ground (
      arith,
      is_ascii-append ((repo.owner ++ (text "/" ++ repo.name)) ++ text ".") n,
      is_ascii-append (repo.owner ++ (text "/" ++ repo.name)) (text "."),
      is_ascii-append repo.owner (text "/" ++ repo.name),
      is_ascii-append (text "/") repo.name,
      slash_dot,
      (lowered_decimal pr.number).0,
    ) in
    (
      lower ((repo.full_name ++ text ".") ++ n),
      refl,
      ap (λ k. text "https://logs.nix.ci/?key=" ++ k)
          (ap (λ o. o ++ (text "/" ++ (lower repo.name ++ (text "." ++ n))))
              (ascii repo.owner owned)
            ∙ ap (λ m. to_ascii_lowercase repo.owner ++ (text "/" ++ (m ++ (text "." ++ n))))
                (ascii repo.name named)
            ∙ sym (
                ap (λ f. lower ((f ++ text ".") ++ n)) full
                ∙ ascii whole plain
                ∙ lowered_key repo.owner repo.name n (lowered_decimal pr.number).1)),
    )
