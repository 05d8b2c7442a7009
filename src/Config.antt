-- ===== src/Config.antt =====
-- The configuration, and the clients for GitHub that are made from it: ofborg/src/config.rs.
pub mod Vending
pub mod Timeout
mod Tests
use ofborg.Base.{
  ℕ, Bool, true, false, Option, none, some, List, [], ◌∷◌, ◌++◌, Text, text, ltb, unwrap_or,
  if◌then◌else◌,
}
use ofborg.Access.{Acl, new_acl}
use ofborg.Nix
use ofborg.Nix.{Nix}

pub record RabbitMqConfig : Type 0 where
  pub ssl : Bool
  pub host : Text
  pub virtualhost : Option Text
  pub username : Text
  pub password : Text

-- The timeout is a `u16`.
pub record NixConfig : Type 0 where
  pub system : Text
  pub remote : Text
  pub build_timeout_seconds : ℕ
  pub initial_heap_size : Option Text

pub record GithubAppConfig : Type 0 where
  pub app_id : ℕ
  pub installation_id : ℕ
  pub private_key : Text

pub record RunnerConfig : Type 0 where
  pub identity : Text
  pub repos : Option (List Text)
  pub trusted_users : Option (List Text)
  pub known_users : Option (List Text)
  pub build_all_jobs : Option Bool

-- The feedback is whether logs are full, the checkout its root, GitHub its token, and the storage of
-- logs its path.
pub record Config : Type 0 where
  pub runner : RunnerConfig
  pub full_logs : Bool
  pub checkout_root : Text
  pub nix_config : NixConfig
  pub rabbitmq : RabbitMqConfig
  pub github_token : Option Text
  pub github_app : Option GithubAppConfig
  pub log_storage : Option Text
  pub tag_paths : Option (List (Text × List Text))

unfoldable pub whoami : Config → Text
whoami c = c.runner.identity ++ (text "-" ++ c.nix_config.system)

-- A missing list is a panic. `lower` is `str::to_lowercase`.
unfoldable pub acl : (Text → Text) → Config → Option Acl
unfolding new_acl
acl lower c = elim c.runner.repos [
  | none ↦ none
  | some repos ↦ elim c.runner.trusted_users [
    | none ↦ none
    | some trusted_users ↦ elim c.runner.known_users [
      | none ↦ none
      | some known_users ↦ some (new_acl lower repos trusted_users known_users)
    ]
  ]
]

-- A timeout that is too low is a panic.
unfoldable pub nix : Config → Option Nix
nix c =
    if ltb c.nix_config.build_timeout_seconds 1200
    then none
    else some (
        Nix.new c.nix_config.system c.nix_config.remote c.nix_config.build_timeout_seconds
          c.nix_config.initial_heap_size)

unfoldable pub as_uri : RabbitMqConfig → Text
as_uri c =
    (if c.ssl then text "amqps" else text "amqp")
    ++ (text "://"
        ++ (c.username
            ++ (text ":"
                ++ (c.password
                    ++ (text "@"
                        ++ (c.host ++ (text "/" ++ unwrap_or c.virtualhost (text "/"))))))))
