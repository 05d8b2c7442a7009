-- ===== src/Programs.antt =====
-- The programs' set-up on an open channel, until they wait for deliveries: ofborg/src/bin/. The
-- session and the memory of the machine, which the mass rebuilder asks for, are there before.
pub mod Serving
mod Tests
use ofborg.Base.{ℕ, Bool, true, false, Option, none, some, [], ◌∷◌, ◌++◌, Text, text, if◌then◌else◌}
use ofborg.Config.{Config, whoami, acl, nix}
use ofborg.EasyAmqp.{
  ConsumeConfig, BindQueueConfig, ExchangeType, topic, fanout, ExchangeConfig, QueueConfig,
  ChannelCall, SetUp, and_then, prefetch, consume, declare_exchange, declare_queue, bind_queue,
}

-- An exchange that outlives the broker.
abbrev exchange_of : {T : Type 0} → Text → ExchangeType → ExchangeConfig T
exchange_of name kind = record {
  exchange = name;
  exchange_type = kind;
  passive = false;
  durable = true;
  auto_delete = false;
  internal = false;
  no_wait = false;
  arguments = none;
}

-- A queue that outlives the broker.
abbrev lasting_queue : {T : Type 0} → Text → QueueConfig T
lasting_queue name = record {
  queue = name;
  passive = false;
  durable = true;
  exclusive = false;
  auto_delete = false;
  no_wait = false;
  arguments = none;
}

-- A queue that the broker names, for this connection.
abbrev own_queue : {T : Type 0} → QueueConfig T
own_queue = record {
  queue = [];
  passive = false;
  durable = false;
  exclusive = true;
  auto_delete = true;
  no_wait = false;
  arguments = none;
}

abbrev binding : {T : Type 0} → Text → Text → Option Text → BindQueueConfig T
binding queue exchange routing_key = record {
  queue = queue;
  exchange = exchange;
  routing_key = routing_key;
  no_wait = false;
  arguments = none;
}

abbrev consumer_of : {T : Type 0} → Text → Text → ConsumeConfig T
consumer_of queue tag = record {
  queue = queue;
  consumer_tag = tag;
  no_local = false;
  no_ack = false;
  exclusive = false;
  no_wait = false;
  arguments = none;
}

unfoldable pub builds_all : Config → Bool
builds_all cfg = elim cfg.runner.build_all_jobs [ none ↦ false | some b ↦ b ]

module _ {T : Type 0} (answers : ChannelCall T → Option Text) (new : T) (lower : Text → Text)
    (cfg : Config) where
  -- a part of the configuration that the program unwraps
  abbrev pub required : {A : Type 0} → Option A → SetUp T Text → SetUp T Text
  required none rest = ([], none)
  required (some a) rest = rest

  abbrev exchanged : Text → ExchangeType → SetUp T Text → SetUp T Text
  exchanged name kind rest =
      and_then (declare_exchange answers new (exchange_of name kind)) (λ _. rest)

  abbrev queued : Text → SetUp T Text → SetUp T Text
  queued name rest = and_then (declare_queue answers new (lasting_queue name)) (λ _. rest)

  abbrev bound : Text → Text → Option Text → SetUp T Text → SetUp T Text
  bound queue exchange key rest =
      and_then (bind_queue answers new (binding queue exchange key)) (λ _. rest)

  abbrev prefetched : SetUp T Text → SetUp T Text
  prefetched rest = and_then (prefetch answers new 1) (λ _. rest)

  abbrev consumed : Text → Text → SetUp T Text
  consumed queue program =
      consume answers new (consumer_of queue (whoami cfg ++ (text "-" ++ program)))

  unfoldable pub builder_queue : SetUp T Text
  unfolding builds_all
  builder_queue =
      if builds_all cfg
      then declare_queue answers new own_queue
      else declare_queue answers new (lasting_queue (text "build-inputs-" ++ cfg.nix_config.system))

  unfoldable pub builder : SetUp T Text
  builder = required (nix cfg) (
      if cfg.full_logs
      then prefetched (
          exchanged (text "build-jobs") fanout (
            and_then builder_queue (λ queue_name.
              bound queue_name (text "build-jobs") none (consumed queue_name (text "builder")))))
      else ([], none))

  unfoldable pub github_comment_filter : SetUp T Text
  github_comment_filter = exchanged (text "github-events") topic (
      exchanged (text "build-jobs") fanout (
        queued (text "build-inputs") (
          bound (text "build-inputs") (text "github-events") (some (text "issue_comment.*")) (
            prefetched (
              required (acl lower cfg) (
                required cfg.github_token
                  (consumed (text "build-inputs") (text "github-comment-filter"))))))))

  unfoldable pub evaluation_filter : SetUp T Text
  evaluation_filter = exchanged (text "github-events") topic (
      queued (text "mass-rebuild-check-jobs") (
        queued (text "mass-rebuild-check-inputs") (
          bound (text "mass-rebuild-check-inputs") (text "github-events")
            (some (text "pull_request.nixos/nixpkgs"))
            (prefetched (
              required (acl lower cfg)
                (consumed (text "mass-rebuild-check-inputs") (text "evaluation-filter")))))))

  unfoldable pub github_comment_poster : SetUp T Text
  github_comment_poster = exchanged (text "build-results") fanout (
      queued (text "build-results") (
        bound (text "build-results") (text "build-results") none (
          prefetched (
            required cfg.github_app
              (consumed (text "build-results") (text "github-comment-poster"))))))

  unfoldable pub log_message_collector : SetUp T Text
  log_message_collector = exchanged (text "logs") topic (
      and_then (declare_queue answers new own_queue) (λ queue_name.
        bound queue_name (text "logs") (some (text "*.*"))
          (required cfg.log_storage (consumed queue_name (text "log-collector")))))

  unfoldable pub mass_rebuilder : SetUp T Text
  mass_rebuilder = required (nix cfg) (
      required cfg.github_token (
        required cfg.github_app (
          required (acl lower cfg) (
            required cfg.tag_paths (
              queued (text "mass-rebuild-check-jobs") (
                prefetched
                  (consumed (text "mass-rebuild-check-jobs") (text "mass-rebuild-checker"))))))))

  -- The metrics are shown by a server of its own, on a thread.
  unfoldable pub stats : SetUp T Text
  stats = exchanged (text "stats") fanout (
      queued (text "stats-events") (
        bound (text "stats-events") (text "stats") none
          (prefetched (consumed (text "stats-events") (text "prometheus-stats-collector")))))
