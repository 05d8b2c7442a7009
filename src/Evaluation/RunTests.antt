-- ===== src/Evaluation/RunTests.antt =====
-- The evaluation of a small pull request.
use ofborg.Base.{
  ℕ, Bool, true, Option, none, some, List, [], ◌∷◌, ◌++◌, Text, text, text_eq, join, ok, false,
  decimal, ◌==◌, ◌≡◌, refl, to_ascii_lowercase,
}
use ofborg.Message.{Payload, nixpkgs, EvaluationJob, BuildJob, new_build_job}
use ofborg.Access.{Acl, build_job_architectures_for_user_repo}
use ofborg.Nix
use ofborg.Nix.{Nix, query_packages_json}
use ofborg.NixEnv.{FileSystem}
use ofborg.NixStats.{EvaluationStats}
use ofborg.EvalChecker
use ofborg.Evaluation.{is_nixpkgs, issue_is_wip}
use ofborg.Evaluation.Commits.{lacks, trim, parse_commit_messages, parse_commit_messages-join}
use ofborg.Evaluation.Effects.{give, Issue, World}
use ofborg.Evaluation.Run.{Strategy, auto_archs, consumer}
use ofborg.Evaluation.Gives.{IsBroken, Gives, Keeps}
use ofborg.Evaluation.Nixpkgs.{Surroundings}
use ofborg.Evaluation.Nixpkgs.Steps.{nixpkgs_strategy}
use ofborg.Evaluation.Generic.{evaluate}
use ofborg.Evaluation.Trials.{IsTried, evaluate-IsTried}
use ofborg.Evaluation.Sending.{IsSent, consumer-IsSent}
use ofborg.Evaluation.Delivery.{Events, msg_to_job, evaluated, evaluation_delivery-IsSettled}
use ofborg.Worker.{handle_delivery}
use ofborg.Worker.Settled.{IsSettled}

abbrev job : EvaluationJob
job = record {
  repo = record {
    owner = text "nixos";
    name = text "nixpkgs";
    full_name = text "nixos/nixpkgs";
    clone_url = text "https://github.com/nixos/nixpkgs.git";
  };
  pr = record { target_branch = none; number = 1; head_sha = text "abc123" };
}

abbrev iss : Issue
iss = record {
  state = text "open";
  title = text "hello: 1 -> 2";
  labels = [];
  login = text "alice";
}

abbrev acl : Acl
acl = record {
  trusted_users = text "alice" ∷ [];
  known_users = [];
  repos = text "nixos/nixpkgs" ∷ [];
}

abbrev to_json : Payload → Text
to_json p = text "{}"

abbrev a_run : Nix.Command → Option Nix.Run
a_run c = some (record {
  success = true;
  written = (Nix.stdout, text "hello.x86_64-linux /nix/store/hello\n") ∷ [];
})

abbrev world : World
world = record {
  app_for = λ o n. true;
  issue = λ n. some iss;
  accepts = λ s t. true;
  gist = λ n d c. some (text "https://gist");
  clone_for = λ n u. true;
  checkout_origin_ref = λ b. some (text "/checkout");
  fetch_pr = λ n. true;
  commit_exists = λ c. some true;
  merge_commit = λ c. true;
  files_changed_from_head = λ c. some (text "pkgs/hello/default.nix" ∷ []);
  commit_messages_from_head = λ c. some (text "hello: 1 -> 2" ∷ []);
  relabels = λ a r. true;
  original = a_run;
  merged = a_run;
  path = some (text "/bin");
}

abbrev nix : Nix
nix = Nix.new (text "x86_64-linux") (text "daemon") 1800 none

abbrev a_build : BuildJob
a_build =
    new_build_job to_ascii_lowercase job.repo job.pr nixpkgs (text "hello" ∷ []) none none
      (text "id")

abbrev strategy : Strategy (Unit {0})
strategy = record {
  pre_clone = λ x. give (x, ok tt);
  on_target_branch = λ p s x. give (x, s, ok tt);
  after_fetch = λ x. give (x, ok tt);
  merge_conflict = λ x. give x;
  after_merge = λ s x. give (x, s, ok tt);
  evaluation_checks = λ x.
      EvalChecker.new (text "package-list") query_packages_json (text "--file" ∷ text "." ∷ []) nix
      ∷ [];
  all_evaluations_passed = λ p s x. give (x, s, ok (record { builds = a_build ∷ []; checks = [] }));
}

abbrev Any : Unit {0} → Type 0
Any x = Unit

Any-Keeps : Keeps strategy Any
Any-Keeps = record {
  kept_pre_clone = λ x p es e h. tt;
  kept_target = λ dir s x p es e h. tt;
  kept_after_fetch = λ x p es e h. tt;
  kept_after_merge = λ s x p es e h. tt;
}

consumer-IsSent_example :
    Gives
      (IsBroken world strategy)
      (IsSent to_json world strategy Any
        (issue_is_wip to_ascii_lowercase iss.title iss.labels)
        (build_job_architectures_for_user_repo to_ascii_lowercase acl iss.login job.repo.full_name))
      (consumer to_ascii_lowercase to_json world strategy acl (text "me") (λ _. tt) job)
consumer-IsSent_example =
    consumer-IsSent to_ascii_lowercase to_json world strategy Any Any-Keeps acl (text "me")
      (λ _. tt) job iss refl tt

-- A file system that does all it is asked.
abbrev a_file_system : FileSystem (Unit {0})
a_file_system = record {
  create = λ p f. (f, none);
  write_all = λ p c f. (f, none);
  remove_file = λ p f. (f, none);
}

abbrev is_blank : ℕ → Bool
is_blank c = c == 32

abbrev some_stats : EvaluationStats (Unit {0})
some_stats = record {
  cpu_time = tt;
  envs = record { number = 1; elements = 2; bytes = 3 };
  list = record { elements = 1; bytes = 2; concats = 3 };
  values = record { number = 1; bytes = 2 };
  symbols = record { number = 1; bytes = 2 };
  sets = record { number = 1; elements = 2; bytes = 3 };
  sizes = record { env = 16; value = 24; bindings = 8; attr = 24 };
  gc = record { heap_size = 1; total_bytes = 2 };
  nr_op_updates = 1;
  nr_op_update_values_copied = 2;
  nr_thunks = 3;
  nr_avoided = 4;
  nr_lookups = 5;
  nr_prim_op_calls = 6;
  nr_function_calls = 7;
}

abbrev surroundings : Surroundings (Unit {0}) (Unit {0})
surroundings = record {
  lower = to_ascii_lowercase;
  is_space = is_blank;
  fs = a_file_system;
  files_original = tt;
  files_merged = tt;
  outpaths_nix = text "{}";
  from_reader = λ s. ok some_stats;
  seek_error = none;
  read_error = none;
  calculator = record {
    path = some (text "/bin");
    path_file = λ s. ok (text "/tmp/paths");
    attr_file = λ s. ok (text "/tmp/attrs");
    paths_to_string = λ ps. ok (text "[]");
    attributes_to_string = λ ps. ok (text "[]");
    output = λ c. ok (text "{}");
    from_utf8 = λ s. ok s;
    from_str = λ s. ok [];
    maintainers_nix = text "{}";
  };
  arithmetic = record {
    greater = λ a b. false;
    subtract = λ a b. tt;
    zero_f32 = tt;
    print_f32 = λ a. text "0.00";
    percent_f32 = λ a b. text "0.00%";
    percent_u64 = λ a b. text "0.00%";
    separated_string = decimal;
  };
  now = text "2026-01-01T00:00:00Z";
  new_v4 = text "id";
}

evaluate-IsTried_example :
    Gives
      (IsBroken world (nixpkgs_strategy world surroundings))
      (IsTried to_json world surroundings nix job (auto_archs to_ascii_lowercase acl job iss))
      (evaluate to_json world surroundings acl (text "me") nix [] job)
evaluate-IsTried_example =
    evaluate-IsTried to_json world surroundings nix job acl (text "me") [] iss
      (unfold is_nixpkgs text text_eq in refl) refl

-- A subject with two packages, and a note with a colon.
parse_commit_messages-join_example :
    parse_commit_messages is_blank (
      (join (b',' ∷ []) (text "foo" ∷ text "bar" ∷ []) ++ b':' ∷ text " something here: yeah") ∷ [])
    ≡ (text "foo" ∷ text "bar" ∷ []) ++ parse_commit_messages is_blank []
parse_commit_messages-join_example =
    parse_commit_messages-join is_blank (text "foo") (text "bar" ∷ [])
      (text " something here: yeah") [] (unfold text lacks in refl) (unfold text lacks in refl)
      (unfold text trim in (refl, (refl, tt)))

abbrev events : Events Text (List Text)
events = record {
  job_received = text "job-received";
  job_decode_success = text "job-decode-success";
  job_decode_failure = text "job-decode-failure";
  sink = record { notify = λ e v. some (e ∷ v) };
}

-- A job is read from any body.
evaluation_delivery-IsSettled_example :
    IsSettled 7
      (handle_delivery
        (λ c. true)
        (msg_to_job events (λ body. some job))
        (evaluated events (λ body. some job) to_json world surroundings acl (text "me") nix [])
        []
        7
        (text "{}")).0
evaluation_delivery-IsSettled_example =
    evaluation_delivery-IsSettled events (λ body. some job) to_json world surroundings acl
      (text "me") nix [] (λ c. true) [] 7 (text "{}")
