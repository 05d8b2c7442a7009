-- ===== src/Programs/Serving.antt =====
-- What the programs consume: ofborg/src/bin/ over ofborg/src/easyamqp.rs.
use ofborg.Base.{
  ℕ, Bool, true, false, Option, none, some, List, [], ◌∷◌, ◌++◌, Text, text, ◌≡◌, refl, ap, ◌∙◌,
  sym, subst, Occurs, All, inl, inr, if◌then◌else◌,
}
use ofborg.Access.{System, system_name, as_build_destination}
use ofborg.Nix.{Nix}
use ofborg.Config.{Config, whoami, nix}
use ofborg.EasyAmqp.{
  ChannelCall, SetUp, basic_prefetch, basic_consume, exchange_declare, queue_declare, queue_bind,
  and_then, called, prefetch, consume, declare_exchange, declare_queue, bind_queue,
  exchange_type_name,
}
use ofborg.Programs.{required, builds_all, builder_queue, builder}

-- A consumer acknowledges what it handles, and shares its queue.
pub IsAcknowledging : {T : Type 0} → ChannelCall T → Type 0
IsAcknowledging (basic_consume queue tag no_local no_ack exclusive no_wait t) =
    (no_ack ≡ false) × (exclusive ≡ false)
IsAcknowledging _ = Unit

-- A message to a queue by its name, through the exchange without a name, comes to a lasting queue of
-- which the calls have made the program a consumer that acknowledges.
pub Serves : {T : Type 0} → List (ChannelCall T) → T → Option Text × Option Text → Type 0
Serves calls new (none, some q) =
    Occurs (queue_declare q false true false false false new) calls
    × ((tag : Text) × Occurs (basic_consume q tag false false false false new) calls)
Serves calls new _ = ⊥

module _ {T : Type 0} (answers : ChannelCall T → Option Text) (new : T) where
  and_then-All :
      (c : ChannelCall T) (next : Text → SetUp T Text)
      → IsAcknowledging c
      → ((a : Text) → All IsAcknowledging (next a).0)
      → All IsAcknowledging (and_then (called answers new c) next).0
  unfolding and_then called
  and_then-All c next hc hn = go (answers c)
    where
      go : (o : Option Text) → All IsAcknowledging (and_then (c ∷ [], o) next).0
      go none = (hc, tt)
      go (some a) = (hc, hn a)

  and_then-called :
      (c : ChannelCall T) (next : Text → SetUp T Text) (a : Text) (r : SetUp T Text)
      → answers c ≡ some a
      → next a ≡ r
      → and_then (called answers new c) next ≡ (c ∷ r.0, r.1)
  unfolding and_then called
  and_then-called c next a r e er =
      ap (λ o. and_then (c ∷ [], o) next) e ∙ ap (λ p. (c ∷ p.0, p.1)) er

module _ {T : Type 0} (answers : ChannelCall T → Option Text) (new : T) (lower : Text → Text)
    (cfg : Config) where
  abbrev jobs : ChannelCall T
  jobs = exchange_declare (text "build-jobs") (text "fanout") false true false false false new

  abbrev lasting : Text → ChannelCall T
  lasting q = queue_declare q false true false false false new

  abbrev joined : Text → ChannelCall T
  joined q = queue_bind q (text "build-jobs") [] false new

  abbrev consuming : Text → Text → ChannelCall T
  consuming q program =
      basic_consume q (whoami cfg ++ (text "-" ++ program)) false false false false new

  abbrev from_queue : Text → SetUp T Text
  from_queue q =
      and_then (called answers new (joined q))
        (λ _. called answers new (consuming q (text "builder")))

  from_queue-IsAcknowledging : (q : Text) → All IsAcknowledging (from_queue q).0
  unfolding called IsAcknowledging
  from_queue-IsAcknowledging q =
      and_then-All answers new (joined q) (λ _. called answers new (consuming q (text "builder")))
        tt (λ a. ((refl, refl), tt))

  from_queue_runs :
      (q : Text) (a tag : Text)
      → answers (joined q) ≡ some a
      → answers (consuming q (text "builder")) ≡ some tag
      → from_queue q ≡ (joined q ∷ consuming q (text "builder") ∷ [], some tag)
  unfolding called
  from_queue_runs q a tag ea et =
      and_then-called answers new (joined q)
        (λ _. called answers new (consuming q (text "builder"))) a
        (consuming q (text "builder") ∷ [], some tag) ea
        (ap (λ o. (consuming q (text "builder") ∷ [], o)) et)

  abbrev asked : SetUp T Text
  asked = builder_queue answers new lower cfg

  abbrev own : ChannelCall T
  own = queue_declare [] false false true true false new

  abbrev from_jobs : SetUp T Text
  from_jobs = and_then asked from_queue

  abbrev at_prefetch : SetUp T Text
  at_prefetch =
      and_then (called answers new (basic_prefetch 1))
        (λ _. and_then (called answers new jobs) (λ _. from_jobs))

  asked_runs :
      (q : Text)
      → builds_all cfg ≡ false
      → text "build-inputs-" ++ cfg.nix_config.system ≡ q
      → asked ≡ called answers new (lasting q)
  unfolding builder_queue declare_queue
  asked_runs q hb hq =
      ap
        (λ b.
          if b
          then called answers new own
          else called answers new (lasting (text "build-inputs-" ++ cfg.nix_config.system)))
        hb
      ∙ ap (λ r. called answers new (lasting r)) hq

  builder-at_prefetch :
      (n : Nix)
      → nix cfg ≡ some n
      → cfg.full_logs ≡ true
      → builder answers new lower cfg ≡ at_prefetch
  unfolding builder prefetch declare_exchange bind_queue consume exchange_type_name
  builder-at_prefetch n hn hf =
      ap (λ o. required answers new lower cfg o (if cfg.full_logs then at_prefetch else ([], none)))
        hn
      ∙ ap (λ b. if b then at_prefetch else ([], none)) hf

  -- What a builder calls, where nothing is refused.
  builder_runs :
      (n : Nix) (q : Text) (a b d tag : Text)
      → nix cfg ≡ some n
      → cfg.full_logs ≡ true
      → builds_all cfg ≡ false
      → text "build-inputs-" ++ cfg.nix_config.system ≡ q
      → answers (basic_prefetch 1) ≡ some a
      → answers jobs ≡ some b
      → answers (lasting q) ≡ some q
      → answers (joined q) ≡ some d
      → answers (consuming q (text "builder")) ≡ some tag
      → builder answers new lower cfg ≡ (
        basic_prefetch 1 ∷ jobs ∷ lasting q ∷ joined q ∷ consuming q (text "builder") ∷ [],
        some tag,
      )
  builder_runs n q a b d tag hn hf hb hq ea eb eq ed et =
      builder-at_prefetch n hn hf
      ∙ and_then-called answers new (basic_prefetch 1)
          (λ _. and_then (called answers new jobs) (λ _. from_jobs)) a _ ea
          (and_then-called answers new jobs (λ _. from_jobs) b _ eb
            (ap (λ p. and_then p from_queue) (asked_runs q hb hq)
              ∙ and_then-called answers new (lasting q) from_queue q _ eq
                  (from_queue_runs q d tag ed et)))

  -- If the broker accepts all calls, and gives a queue the name that it was asked for, a builder that
  -- gives its full logs, whose configuration of nix is accepted and that does not build all jobs comes
  -- to consume from a lasting queue, which is where a build job for the builder's system is addressed.
  pub builder-Serves :
      (s : System) (n : Nix)
      → ((c : ChannelCall T) → (a : Text) × (answers c ≡ some a))
      → ((b : ℕ) (q : Text)
          → answers (queue_declare (b ∷ q) false true false false false new) ≡ some (b ∷ q))
      → nix cfg ≡ some n
      → cfg.full_logs ≡ true
      → builds_all cfg ≡ false
      → cfg.nix_config.system ≡ system_name s
      → Serves (builder answers new lower cfg).0 new (as_build_destination s)
        × ((tag : Text) × ((builder answers new lower cfg).1 ≡ some tag))
  unfolding as_build_destination Serves text
  builder-Serves s n accepts names hn hf hb hs =
      let q : Text = text "build-inputs-" ++ system_name s in
      let answered = accepts (consuming q (text "builder")) in
      subst (λ p. Serves p.0 new (as_build_destination s) × ((tag : Text) × (p.1 ≡ some tag)))
        (sym (
          builder_runs n q (accepts (basic_prefetch 1)).0 (accepts jobs).0 (accepts (joined q)).0
            answered.0 hn hf hb (ap (λ x. text "build-inputs-" ++ x) hs)
            (accepts (basic_prefetch 1)).1 (accepts jobs).1
            (names b'b' (text "uild-inputs-" ++ system_name s)) (accepts (joined q)).1 answered.1))
        (
          (
            inr (inr (inl refl)),
            (whoami cfg ++ (text "-" ++ text "builder"), inr (inr (inr (inr (inl refl))))),
          ),
          (answered.0, refl),
        )

  asked-IsAcknowledging : All IsAcknowledging from_jobs.0
  unfolding builder_queue declare_queue IsAcknowledging
  asked-IsAcknowledging = go (builds_all cfg)
    where
      go :
          (b : Bool)
          → All IsAcknowledging
              (and_then
                (if b
                  then called answers new own
                  else called answers new (lasting (text "build-inputs-" ++ cfg.nix_config.system)))
                from_queue).0
      go true = and_then-All answers new own from_queue tt from_queue-IsAcknowledging
      go false =
          and_then-All answers new (lasting (text "build-inputs-" ++ cfg.nix_config.system))
            from_queue tt from_queue-IsAcknowledging

  -- Whatever the broker answers, also where it refuses a call, and whatever the configuration is: a
  -- builder consumes only as one whose deliveries stand until they are acknowledged, and never takes a
  -- queue for itself alone by its consumer.
  builder-IsAcknowledging : All IsAcknowledging (builder answers new lower cfg).0
  unfolding builder prefetch declare_exchange bind_queue consume exchange_type_name IsAcknowledging
  builder-IsAcknowledging = go (nix cfg) cfg.full_logs
    where
      go :
          (o : Option Nix) (b : Bool)
          → All IsAcknowledging
              (required answers new lower cfg o (if b then at_prefetch else ([], none))).0
      go none b = tt
      go (some n) false = tt
      go (some n) true =
          and_then-All answers new (basic_prefetch 1)
            (λ _. and_then (called answers new jobs) (λ _. from_jobs)) tt
            (λ a. and_then-All answers new jobs (λ _. from_jobs) tt (λ b. asked-IsAcknowledging))
