-- ===== src/Build/Reports.antt =====
-- What a builder tells of a job, from its start to its end: ofborg/src/tasks/build.rs.
use ofborg.Base.{
  ◌+◌, ◌≤◌, ◌<◌, ◌^◌, Option, none, some, List, [], ◌∷◌, ◌++◌, Text, text, length, last,
  append_assoc, ◌≡◌, refl, sym, ap, ◌∙◌,
}
use ofborg.Message.{BuildStatus, v1, skipped, Payload, build_log_start, build_result}
use ofborg.Worker.{Action, Actions, ack, publish_serde_action}
use ofborg.Build.{
  JobActions, body_for, tell_log, log_started, log_line, log_lines, log_instantiation_errors,
  build_not_attempted, build_finished,
}
use ofborg.Build.Log.{numbered, line_action, log_lines_lem}

-- The lines that say why attributes cannot be built.
abbrev pub error_lines : List (Text × List Text) → List Text
error_lines [] = []
error_lines ((attr, log) ∷ rest) =
    (text "Cannot nix-instantiate `" ++ attr ++ text "' because:") ∷ log
    ++ text "" ∷ error_lines rest

module _ (to_json : Payload → Text) where
  log_lines-append :
      (xs ys : List Text) (a : JobActions)
      → log_lines to_json (xs ++ ys) a ≡ log_lines to_json ys (log_lines to_json xs a)
  unfolding log_lines
  log_lines-append [] ys a = refl
  log_lines-append (x ∷ xs) ys a = log_lines-append xs ys (log_line to_json x a)

  log_instantiation_errors_lem :
      (l : List (Text × List Text)) (a : JobActions)
      → log_instantiation_errors to_json l a ≡ log_lines to_json (error_lines l) a
  unfolding log_instantiation_errors log_lines
  log_instantiation_errors_lem [] a = refl
  log_instantiation_errors_lem ((attr, log) ∷ rest) a =
      let title = text "Cannot nix-instantiate `" ++ attr ++ text "' because:" in
      let here = log_lines to_json (title ∷ log) a in
      log_instantiation_errors_lem rest (log_line to_json (text "") here)
      ∙ sym (log_lines-append (title ∷ log) (text "" ∷ error_lines rest) a)

  -- The first and the last actions of a report.
  abbrev pub start_action : JobActions → List Text → List Text → Action
  start_action a can_build cannot_build =
      publish_serde_action to_json a.log_exchange a.log_routing_key (
        build_log_start record {
          system = a.system;
          identity = a.identity;
          attempt_id = a.attempt_id;
          attempted_attrs = some can_build;
          skipped_attrs = some cannot_build;
        })

  abbrev pub final_actions :
      JobActions → List Text → Option (List Text) → Option (List Text) → BuildStatus → Actions
  final_actions a logged attempted skipped_attrs status =
      let msg = build_result (v1 (body_for a (last 10 logged) attempted skipped_attrs) status) in
      publish_serde_action to_json a.result_exchange a.result_routing_key msg
      ∷ publish_serde_action to_json a.log_exchange a.log_routing_key msg
      ∷ ack
      ∷ []

  noted_lem :
      (can cannot : List Text) (errors : List (Text × List Text)) (more : List Text)
      (a : JobActions)
      → log_lines to_json more
          (log_instantiation_errors to_json errors (log_started to_json can cannot a))
        ≡ log_lines to_json (error_lines errors ++ more) (log_started to_json can cannot a)
  noted_lem can cannot errors more a =
      ap (log_lines to_json more)
        (log_instantiation_errors_lem errors (log_started to_json can cannot a))
      ∙ sym (log_lines-append (error_lines errors) more (log_started to_json can cannot a))

  module _ (can cannot : List Text) (errors : List (Text × List Text)) (more : List Text)
      (a : JobActions) (short : length a.snippet_log ≤ 10)
      (few : a.line_counter + length (error_lines errors ++ more) < 2 ^ 64) where
    abbrev pub logged : List Text
    logged = error_lines errors ++ more

    abbrev pub started_then : Actions → Actions
    started_then rest =
        a.told
        ++ start_action a can cannot ∷ numbered (line_action to_json a) (a.line_counter + 1) logged
        ++ rest

    logged_lem :
        log_lines to_json more
          (log_instantiation_errors to_json errors (log_started to_json can cannot a))
        ≡ record a {
          told =
              (a.told ++ start_action a can cannot ∷ [])
              ++ numbered (line_action to_json a) (a.line_counter + 1) logged;
          line_counter = a.line_counter + length logged;
          snippet_log = last 10 (a.snippet_log ++ logged);
        }
    unfolding log_started tell_log
    logged_lem =
        noted_lem can cannot errors more a
        ∙ log_lines_lem to_json logged (log_started to_json can cannot a) short few

    regroup :
        {A : Type 0} (xs : List A) (x : A) (ys : List A) (u v w : A)
        → ((((xs ++ x ∷ []) ++ ys) ++ u ∷ []) ++ v ∷ []) ++ w ∷ [] ≡ xs ++ x ∷ ys ++ u ∷ v ∷ w ∷ []
    regroup xs x ys u v w = simp append_assoc

    pub built_told :
        (status : BuildStatus)
        → (build_finished to_json status can cannot (
            log_lines to_json more
              (log_instantiation_errors to_json errors (log_started to_json can cannot a)))).told
          ≡ started_then (final_actions a (a.snippet_log ++ logged) (some can) (some cannot) status)
    unfolding build_finished
    built_told status =
        ap (λ b. (build_finished to_json status can cannot b).told) logged_lem
        ∙ regroup a.told (start_action a can cannot)
            (numbered (line_action to_json a) (a.line_counter + 1) logged) _ _ _

    pub skipped_told :
        (build_not_attempted to_json cannot (
          log_lines to_json more
            (log_instantiation_errors to_json errors (log_started to_json can cannot a)))).told
        ≡ started_then (final_actions a (a.snippet_log ++ logged) none (some cannot) skipped)
    unfolding build_not_attempted
    skipped_told =
        ap (λ b. (build_not_attempted to_json cannot b).told) logged_lem
        ∙ regroup a.told (start_action a can cannot)
            (numbered (line_action to_json a) (a.line_counter + 1) logged) _ _ _
