-- ===== src/Build/Tests.antt =====
-- A build of two attributes, one of which does not evaluate.
use ofborg.Base.{
  Bool, true, Option, none, some, List, [], ◌∷◌, ◌++◌, ◌≡◌, refl, arith, Text, text,
  to_ascii_lowercase, text_eq, if◌then◌else◌,
}
use ofborg.Message.{BuildJob, new_build_job, nixpkgs, success, Payload}
use ofborg.Worker.Settled.{IsSettled}
use ofborg.Worker.Notify.{notify_delivery}
use ofborg.Build.{JobActions, new_actions}
use ofborg.Build.Run.{Machine, exited, partition_attrs, checkout_origin_ref, status_of, consumer}
use ofborg.Build.Log.{numbered, line_action}
use ofborg.Build.Reports.{error_lines, start_action, final_actions}
use ofborg.Build.Outcome.{told_by, start, IsMerged, consumer_built}
use ofborg.Build.Settles.{outcome, notify_delivery-IsSettled}

abbrev as_json : Payload → Text
as_json p = text "{}"

abbrev job_for : Option Text → List Text → BuildJob
job_for branch attrs =
    new_build_job to_ascii_lowercase
      (record {
        owner = text "NixOS";
        name = text "nixpkgs";
        full_name = text "NixOS/nixpkgs";
        clone_url = text "url";
      })
      (record { target_branch = branch; number = 1; head_sha = text "abc" }) nixpkgs attrs none none
      (text "request")

abbrev when : Bool → Text → Option Text
when b r = if b then none else some r

abbrev log_if : Bool → Option (List Text)
log_if b = if b then some (text "error: missing" ∷ []) else none

-- `broken` does not evaluate, and origin/origin/master does not resolve.
abbrev machine : Machine
machine = record {
  clone_for = λ name url. true;
  checkout_ref = λ r. when (text_eq r (text "origin/origin/master")) (text "/checkout");
  fetch_pr = λ n. true;
  commit_exists = λ sha. some true;
  merge_commit = λ sha. true;
  instantiate = λ path file attr. some (log_if (text_eq attr (text "broken")));
  build_attrs = λ path file attrs. some (text "building" ∷ text "done" ∷ [], exited (some 0));
}

abbrev errors : List (Text × List Text)
errors = (text "broken", text "error: missing" ∷ []) ∷ []

abbrev mixed : BuildJob
mixed = job_for (some (text "staging")) (text "hello" ∷ text "broken" ∷ [])

abbrev broken : BuildJob
broken = job_for (some (text "staging")) (text "broken" ∷ [])

abbrev fresh : JobActions
fresh = start as_json machine (text "x86_64-linux") (text "id") (text "attempt") (job_for none [])

mixed-IsMerged :
    IsMerged as_json machine
      (text "x86_64-linux")
      (text "id")
      (text "attempt")
      mixed
      (text "/checkout")
unfolding text text_eq checkout_origin_ref new_build_job
mixed-IsMerged = record {
  wanted = λ e. cc;
  cloned = refl;
  checked_out = refl;
  fetched = refl;
  present = refl;
  clean = refl;
}

broken-IsMerged :
    IsMerged as_json machine
      (text "x86_64-linux")
      (text "id")
      (text "attempt")
      broken
      (text "/checkout")
unfolding text text_eq checkout_origin_ref new_build_job
broken-IsMerged = record {
  wanted = λ e. cc;
  cloned = refl;
  checked_out = refl;
  fetched = refl;
  present = refl;
  clean = refl;
}

begun : BuildJob → JobActions
begun job = start as_json machine (text "x86_64-linux") (text "id") (text "attempt") job

consumer_built_example :
    told_by (
      consumer as_json machine
        (new_actions (text "x86_64-linux") (text "id") mixed (text "attempt")))
    ≡ some (
        start_action as_json (begun mixed) (text "hello" ∷ []) (text "broken" ∷ [])
          ∷ numbered
              (line_action as_json (begun mixed))
              1
              (error_lines errors ++ text "building" ∷ text "done" ∷ [])
        ++ final_actions as_json
            (begun mixed)
            (error_lines errors ++ text "building" ∷ text "done" ∷ [])
            (some (text "hello" ∷ []))
            (some (text "broken" ∷ []))
            success)
unfolding begun status_of
consumer_built_example =
    consumer_built as_json machine (text "x86_64-linux") (text "id") (text "attempt") mixed
      (text "/checkout") (text "hello") [] errors
      (text "building" ∷ text "done" ∷ [], exited (some 0)) mixed-IsMerged
      (unfold partition_attrs new_build_job text text_eq in refl) refl (omega arith)

notify_delivery-IsSettled_example : IsSettled 3 (
    notify_delivery
      (λ c. true)
      (λ body. some mixed)
      (λ job.
        outcome as_json machine
          (consumer as_json machine (new_actions (text "x86_64-linux") (text "id") job (text "u"))))
      3
      (text "{}"))
notify_delivery-IsSettled_example =
    notify_delivery-IsSettled as_json machine (λ c. true) (λ body. some mixed) (text "x86_64-linux")
      (text "id") (text "u") 3 (text "{}")
