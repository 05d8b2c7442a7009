-- ===== src/CommentFilter/Tests.antt =====
-- A comment that asks for a build and for a NixOS test.
use ofborg.Base.{false, some, List, [], ◌∷◌, Text, text, to_ascii_lowercase, All, decimal}
use ofborg.GhEvent.{created, IssueComment}
use ofborg.Message.{nixpkgs, nixos}
use ofborg.Access.{Acl}
use ofborg.Worker.{handle_delivery}
use ofborg.Worker.Settled.{IsSettled, handle_delivery-IsSettled}
use ofborg.CommentFilter.{Instruction, build, eval, Parsed, parsed, Pull, Services, consumer}
use ofborg.CommentFilter.Permission.{IsPermitted, granted, consumer-IsPermitted}
use ofborg.CommentFilter.Delivery.{msg_to_job, run, EndsInAck-run}

abbrev acl : Acl
acl = record {
  trusted_users = text "alice" ∷ [];
  known_users = text "bob" ∷ [];
  repos = text "nixos/nixpkgs" ∷ [];
}

abbrev pull_33299 : Pull
pull_33299 = record { head_sha = text "887e8b46"; base_ref = text "staging" }

abbrev env : Services
env = record {
  lower = to_ascii_lowercase;
  to_json = λ p. text "{}";
  get_pull = λ owner name number. some pull_33299;
  uuid = λ n. decimal n;
}

abbrev instructions : List Instruction
instructions = build nixos (text "tests.boot" ∷ []) ∷ eval ∷ build nixpkgs (text "hello" ∷ []) ∷ []

abbrev line_parser : Text → Parsed
line_parser s = parsed (some instructions)

abbrev comment_by : Text → IssueComment
comment_by login = record {
  action = created;
  comment = record { body = text "@ofborg"; user = record { login = login } };
  repository = record {
    owner = record { login = text "NixOS" };
    name = text "nixpkgs";
    full_name = text "NixOS/nixpkgs";
    clone_url = text "https://github.com/NixOS/nixpkgs.git";
  };
  issue = record { number = 33299 };
}

abbrev comment : IssueComment
comment = comment_by (text "Alice")

consumer-IsPermitted_example :
    All (IsPermitted (granted env line_parser acl comment)) (consumer env line_parser acl comment)
consumer-IsPermitted_example = consumer-IsPermitted env line_parser acl comment

handle_delivery-IsSettled_example :
    IsSettled 7
      (handle_delivery
        (λ c. false)
        (msg_to_job (λ body. some comment))
        (run env line_parser acl)
        tt
        7
        (text "{}")).0
handle_delivery-IsSettled_example =
    handle_delivery-IsSettled (λ c. false) (msg_to_job (λ body. some comment))
      (run env line_parser acl) (EndsInAck-run env line_parser acl) tt 7 (text "{}")
