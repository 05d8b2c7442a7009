-- ===== src/CommentPoster/Tests.antt =====
-- The check runs of a small job.
use ofborg.Base.{
  to_ascii_lowercase, is_ascii, ℕ, true, Bool, none, some, List, [], ◌∷◌, ◌++◌, Text, text, ◌≡◌,
  ◌≢◌, ◌↔◌, refl,
}
use ofborg.Message.{
  Repo, Pr, nixpkgs, QueuedBuildJobs, ResultBody, BuildResult, v1, success, new_build_job,
}
use ofborg.Message.Results.{neutral, succeeded, legacy, status}
use ofborg.Worker.{ack}
use ofborg.CommentPoster.{
  CheckRunOptions, completed, build_queued, build_finished, log_url, consumer,
}
use ofborg.CommentPoster.Checks.{
  IsQueuedFor, Pairwise, consumer_queued, consumer_finished, log_url-new_build_job,
}

abbrev unchanged : Text → Text
unchanged s = s

abbrev everywhere : Text → Text → Bool
everywhere owner name = true

abbrev noon : ℕ → Text
noon n = text "2023-04-20T12:00:00Z"

abbrev a_repo : Repo
a_repo = record {
  owner = text "nixos";
  name = text "nixpkgs";
  full_name = text "nixos/nixpkgs";
  clone_url = text "https://github.com/nixos/nixpkgs.git";
}

abbrev a_pr : Pr
a_pr = record { target_branch = some (text "master"); number = 2345; head_sha = text "abc123" }

abbrev a_job : QueuedBuildJobs
a_job = record {
  job =
      new_build_job unchanged a_repo a_pr nixpkgs (text "foo" ∷ text "bar" ∷ []) none none
        (text "id");
  architectures = text "x86_64-linux" ∷ text "aarch64-linux" ∷ [];
}

consumer_queued_example :
    (posted : List (Repo × CheckRunOptions)) × (consumer unchanged everywhere noon
        (build_queued a_job)
      ≡ some (posted, ack ∷ []))
    × Pairwise
        (λ a p. (p.0 ≡ a_job.job.repo) × IsQueuedFor unchanged a_job.job a p.1)
        a_job.architectures
        posted
consumer_queued_example = consumer_queued unchanged everywhere noon a_job refl

abbrev a_body : ResultBody
a_body = record {
  repo = a_repo;
  pr = a_pr;
  system = text "x86_64-linux";
  output = [];
  attempt_id = text "attempt";
  request_id = text "id";
  skipped_attrs = none;
  attempted_attrs = some (text "foo" ∷ []);
}

abbrev a_result : BuildResult
a_result = v1 a_body success

consumer_finished_example :
    (check : CheckRunOptions) × (consumer unchanged everywhere noon (build_finished a_result)
      ≡ some (((legacy a_result).body.repo, check) ∷ [], ack ∷ []))
    × (check.status ≡ some completed)
    × (check.head_sha ≡ (legacy a_result).body.pr.head_sha)
    × ((check.conclusion_of ≡ some succeeded) ↔ (status a_result ≡ success))
    × ((check.conclusion_of ≡ some neutral) ↔ (status a_result ≢ success))
consumer_finished_example = consumer_finished unchanged everywhere noon a_result refl

log_url-new_build_job_example :
    (key : Text) × ((new_build_job to_ascii_lowercase a_repo a_pr nixpkgs [] none none
        (text "id")).logs
      ≡ some (some (text "logs"), some key))
    × (log_url to_ascii_lowercase a_repo 2345 ≡ text "https://logs.nix.ci/?key=" ++ key)
unfolding text is_ascii
log_url-new_build_job_example =
    log_url-new_build_job to_ascii_lowercase a_repo a_pr nixpkgs [] none (text "id") (λ s h. refl)
      refl refl refl
