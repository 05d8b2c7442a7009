-- ===== src/Programs/Tests.antt =====
-- The set-up of a builder for Linux, with a broker that gives what it is asked for.
use ofborg.Base.{true, Option, none, some, [], ◌∷◌, Text, text, ◌≡◌, refl}
use ofborg.Access.{as_build_destination, system_name, x86_64_linux}
use ofborg.Nix as NixM
use ofborg.Config.{Config, nix}
use ofborg.EasyAmqp.{
  ChannelCall, SetUp, basic_prefetch, basic_consume, exchange_declare, queue_declare, queue_bind,
}
use ofborg.Programs.{builder, log_message_collector}
use ofborg.Programs as P
use ofborg.EasyAmqp as Amqp
use ofborg.Programs.Serving.{Serves, builder-Serves}

abbrev config : Config
config = record {
  runner = record {
    identity = text "worker";
    repos = some [];
    trusted_users = some [];
    known_users = some [];
    build_all_jobs = none;
  };
  full_logs = true;
  checkout_root = text "/cache";
  nix_config = record {
    system = text "x86_64-linux";
    remote = text "daemon";
    build_timeout_seconds = 1800;
    initial_heap_size = none;
  };
  rabbitmq = record {
    ssl = true;
    host = text "localhost";
    virtualhost = none;
    username = text "user";
    password = text "password";
  };
  github_token = none;
  github_app = none;
  log_storage = none;
  tag_paths = none;
}

abbrev name_of : ChannelCall (Unit {0}) → Text
name_of (queue_declare [] _ _ _ _ _ _) = text "amq.gen-1"
name_of (queue_declare (b ∷ q) _ _ _ _ _ _) = b ∷ q
name_of (basic_consume _ tag _ _ _ _ _) = tag
name_of _ = []

abbrev answers : ChannelCall (Unit {0}) → Option Text
answers c = some (name_of c)

abbrev same : Text → Text
same t = t

builder-Serves_example :
    Serves (builder answers tt same config).0 tt (as_build_destination x86_64_linux)
    × ((tag : Text) × ((builder answers tt same config).1 ≡ some tag))
builder-Serves_example =
    builder-Serves answers tt same config x86_64_linux
      (NixM.new (text "x86_64-linux") (text "daemon") 1800 none) (λ c. (name_of c, refl))
      (λ b q. refl) (unfold nix in refl) refl (unfold P.builds_all in refl)
      (unfold system_name in refl)

-- A log collector without a place for its logs stops before it consumes.
log_message_collector_panics : (log_message_collector answers tt same config).1 ≡ none
unfolding log_message_collector Amqp.declare_exchange Amqp.declare_queue Amqp.bind_queue Amqp.called
    Amqp.and_then
log_message_collector_panics = refl
