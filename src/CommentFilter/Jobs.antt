-- ===== src/CommentFilter/Jobs.antt =====
-- Which jobs a comment starts: ofborg/src/tasks/githubcommentfilter.rs.
use ofborg.Base.{
  ℕ, suc, Bool, true, false, Option, none, some, List, [], ◌∷◌, ◌++◌, map, Text, text_eq, refl, inl,
  inr, if◌then◌else◌, ◌&&◌, append_assoc,
}
use ofborg.GhEvent.{IssueComment}
use ofborg.CommentFilter.Permission.{granted, pull, consumer-cases}
use ofborg.Message.{Repo, Pr, Subset, nixpkgs, nixos, Payload, build_job, new_build_job}
use ofborg.Access.{
  System, x86_64_linux, aarch64_linux, x86_64_darwin, as_build_destination, can_run_nixos_tests,
  Acl,
}
use ofborg.Worker.{QueueMsg, Actions, ack, nack_requeue, nack_dump, publish, publish_serde_action}
use ofborg.Worker.Settled.{EndsInAck}
use ofborg.CommentFilter.{
  Instruction, build, eval, Parsed, Pull, Services, destinations, publish_build, build_actions,
  respond, repo_msg, pr_msg, fetched, consumer,
}

-- The contents of the messages to one machine's queue, in order.
abbrev pub key_is : Option Text → Option Text → Bool
key_is none none = true
key_is (some s) (some t) = text_eq s t
key_is _ _ = false

abbrev pub goes_to : System → QueueMsg → Bool
goes_to s m =
    key_is m.exchange (as_build_destination s).0 && key_is m.routing_key (as_build_destination s).1

abbrev pub sent_to : System → Actions → List Text
sent_to s [] = []
sent_to s (publish m ∷ rest) = if goes_to s m then m.content ∷ sent_to s rest else sent_to s rest
sent_to s (ack ∷ rest) = sent_to s rest
sent_to s (nack_requeue ∷ rest) = sent_to s rest
sent_to s (nack_dump ∷ rest) = sent_to s rest

-- What the access list grants, apart from nothing.
pub data Grant : List System → Type 0 where
  unrestricted : Grant (x86_64_darwin ∷ x86_64_linux ∷ aarch64_linux ∷ [])
  restricted : Grant (x86_64_linux ∷ aarch64_linux ∷ [])

abbrev pub runs : Subset → System → Bool
runs nixpkgs s = true
runs nixos s = can_run_nixos_tests s

module _ (env : Services) (repo : Repo) (pr : Pr) (s : System) where
  -- One job for each build that the machine can run, in the order of the comment, each build with
  -- its own request id.
  abbrev pub jobs_for : ℕ → List Instruction → List Text
  jobs_for n [] = []
  jobs_for n (eval ∷ rest) = jobs_for n rest
  jobs_for n (build subset attrs ∷ rest) =
      let later = jobs_for (suc n) rest in
      if runs subset s
      then env.to_json
          (build_job (new_build_job env.lower repo pr subset attrs none none (env.uuid n)))
        ∷ later
      else later

module _ (env : Services) (repo : Repo) (pr : Pr) where
  sends-EndsInAck :
      (msg : Payload) (ds : List System) (rest : Actions)
      → EndsInAck rest
      → EndsInAck (map (publish_build env msg) ds ++ rest)
  unfolding publish_build publish_serde_action
  sends-EndsInAck msg [] rest h = h
  sends-EndsInAck msg (d ∷ ds) rest h = sends-EndsInAck msg ds rest h

  build_actions-EndsInAck :
      (archs : List System) (n : ℕ) (subset : Subset) (attrs : List Text) (rest : Actions)
      → EndsInAck rest
      → EndsInAck (build_actions env repo pr archs n subset attrs ++ rest)
  unfolding build_actions publish_serde_action
  build_actions-EndsInAck archs n subset attrs rest h =
      rw append_assoc (sends-EndsInAck _ (destinations env subset archs) _ h)

  respond-EndsInAck :
      (archs : List System) (n : ℕ) (is : List Instruction)
      → EndsInAck (respond env repo pr archs n is)
  unfolding respond publish_serde_action
  respond-EndsInAck archs n [] = refl
  respond-EndsInAck archs n (eval ∷ rest) = respond-EndsInAck archs n rest
  respond-EndsInAck archs n (build subset attrs ∷ rest) =
      build_actions-EndsInAck archs n subset attrs _ (respond-EndsInAck archs (suc n) rest)

module _ (env : Services) (parse_line_impl : Text → Parsed) (acl : Acl) (job : IssueComment) where
  -- Each comment is answered by messages and then one `Ack`.
  pub consumer-EndsInAck : EndsInAck (consumer env parse_line_impl acl job)
  consumer-EndsInAck = elim (consumer-cases env parse_line_impl acl job) [
    | inl e ↦ rw e refl
    | inr (is, _, _, e) ↦ rw e (answered is (pull env parse_line_impl acl job))
  ]
    where
      answered :
          (is : List Instruction) (p : Option Pull)
          → EndsInAck (fetched env job (granted env parse_line_impl acl job) is p)
      answered is none = unfold fetched in refl
      answered is (some p) =
          unfold fetched in
          respond-EndsInAck env (repo_msg env job) (pr_msg env job p)
            (granted env parse_line_impl acl job) 0 is
