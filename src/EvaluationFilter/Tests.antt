-- ===== src/EvaluationFilter/Tests.antt =====
-- Events of the pull request in ofborg/test-srcs/events/pr-changed-base.json.
use ofborg.Base.{
  none, some, [], ◌∷◌, ◌≡◌, refl, ◌⊎◌, Text, text, text_eq, contains, to_ascii_lowercase,
}
use ofborg.GhEvent.{PullRequestEvent, open_state, edited_pr, labeled, BaseChange}
use ofborg.Message.{Payload, evaluation_job}
use ofborg.Access.{Acl, is_repo_eligible}
use ofborg.Worker.{ack, publish_serde_action}
use ofborg.EvaluationFilter.{evaluation_of, consumer}
use ofborg.EvaluationFilter.Interest.{IsWanted, consumer_decides}

abbrev acl : Acl
acl = record { trusted_users = []; known_users = []; repos = text "nixos/nixpkgs" ∷ [] }

abbrev as_json : Payload → Text
as_json p = text "{}"

abbrev base_change : BaseChange
base_change = record { git_ref = record { was = text "master" }; sha = record { was = text "0" } }

abbrev base_changed : PullRequestEvent
base_changed = record {
  action = edited_pr;
  number = 33299;
  repository = record {
    owner = record { login = text "NixOS" };
    name = text "nixpkgs";
    full_name = text "NixOS/nixpkgs";
    clone_url = text "https://github.com/NixOS/nixpkgs.git";
  };
  pull_request = record {
    state = open_state;
    base = record { git_ref = text "staging"; sha = text "0" };
    head = record { git_ref = text "fix"; sha = text "887e8b46" };
  };
  changes = some (record { base = some base_change });
}

abbrev relabeled : PullRequestEvent
relabeled = record base_changed { action = labeled }

consumer_decides_example :
    (IsWanted to_ascii_lowercase as_json acl base_changed
      × (consumer to_ascii_lowercase as_json acl base_changed
          ≡ publish_serde_action as_json none
              (some (text "mass-rebuild-check-jobs"))
              (evaluation_job (evaluation_of base_changed))
            ∷ ack
            ∷ []))
    ⊎ ((¬ IsWanted to_ascii_lowercase as_json acl base_changed)
        × (consumer to_ascii_lowercase as_json acl base_changed ≡ ack ∷ []))
consumer_decides_example = consumer_decides to_ascii_lowercase as_json acl base_changed

-- It starts an evaluation; another label does not.
consumer-base_changed :
    consumer to_ascii_lowercase as_json acl base_changed
    ≡ publish_serde_action as_json none
        (some (text "mass-rebuild-check-jobs"))
        (evaluation_job (evaluation_of base_changed))
      ∷ ack
      ∷ []
unfolding consumer is_repo_eligible to_ascii_lowercase text text_eq contains
consumer-base_changed = refl

consumer-relabeled : consumer to_ascii_lowercase as_json acl relabeled ≡ ack ∷ []
unfolding consumer is_repo_eligible to_ascii_lowercase text text_eq contains
consumer-relabeled = refl
