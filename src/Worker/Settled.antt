-- ===== src/Worker/Settled.antt =====
-- When a delivery is settled: ofborg/src/worker.rs.
use ofborg.Base.{
  ℕ, Bool, true, false, Option, none, some, List, [], ◌∷◌, ◌++◌, ◌≡◌, refl, Text, All, ◌⊎◌, Result,
  ok, err, ap, if◌then◌else◌, inl, inr,
}
use ofborg.Worker.{
  ack, nack_requeue, nack_dump, publish, Actions, Call, basic_ack, basic_publish, call_of, Delivery,
  perform, run_consumer, after_decoding, handle_delivery,
}

-- Messages, and behind them one acknowledgement.
abbrev pub EndsInAck : Actions → Type 0
EndsInAck [] = ⊥
EndsInAck (ack ∷ rest) = rest ≡ []
EndsInAck (nack_requeue ∷ rest) = ⊥
EndsInAck (nack_dump ∷ rest) = ⊥
EndsInAck (publish msg ∷ rest) = EndsInAck rest

abbrev pub IsPublish : Call → Type 0
IsPublish (basic_publish _ _ _ _ _ _) = Unit
IsPublish _ = ⊥

-- A delivery that came to its end made its publications and then acknowledged, once; one that broke
-- off settled nothing, so that the broker keeps the message.
abbrev pub IsSettled : ℕ → Delivery → Type 0
IsSettled tag d =
    ((d.completed ≡ true)
      × ((sent : List Call) × (d.calls ≡ sent ++ basic_ack tag false ∷ []) × All IsPublish sent))
    ⊎ ((d.completed ≡ false) × All IsPublish d.calls)

-- A publication in front keeps a delivery settled, whether the broker takes it or not.
attempt : Bool → Call → Delivery → Delivery
attempt b c d =
    if b
    then record { calls = c ∷ d.calls; completed = d.completed }
    else record { calls = []; completed = false }

attempt-IsSettled :
    (b : Bool) (tag : ℕ) (c : Call) (d : Delivery)
    → IsPublish c
    → IsSettled tag d
    → IsSettled tag (attempt b c d)
unfolding attempt
attempt-IsSettled false tag c d p h = inr (refl, tt)
attempt-IsSettled true tag c d p (inl (e, (sent, same, all))) =
    inl (e, (c ∷ sent, ap (λ l. c ∷ l) same, (p, all)))
attempt-IsSettled true tag c d p (inr (e, all)) = inr (e, (p, all))

module _ (accepts : Call → Bool) where
  pub perform-IsSettled :
      (tag : ℕ) (actions : Actions)
      → EndsInAck actions
      → IsSettled tag (perform accepts tag actions)
  unfolding perform call_of attempt
  perform-IsSettled tag [] h = absurd h
  perform-IsSettled tag (nack_requeue ∷ rest) h = absurd h
  perform-IsSettled tag (nack_dump ∷ rest) h = absurd h
  perform-IsSettled tag (ack ∷ rest) h = rw h (go (accepts (basic_ack tag false)))
    where
      go :
          (b : Bool)
          → IsSettled tag
              (attempt b (basic_ack tag false) (record { calls = []; completed = true }))
      go true = inl (refl, ([], refl, tt))
      go false = inr (refl, tt)
  perform-IsSettled tag (publish msg ∷ rest) h =
      attempt-IsSettled (accepts (call_of tag (publish msg))) tag (call_of tag (publish msg))
        (perform accepts tag rest) tt (perform-IsSettled tag rest h)

  module _ {S J : Type 0} where
    -- A worker whose consumer, where it returns, sends messages and then one `Ack`, settles each
    -- delivery that it handles: on a body that does not decode, on a panic, and on a refusal of the
    -- broker at any point. If all calls were made, the last of them and no other settles the message;
    -- otherwise none does.
    pub handle_delivery-IsSettled :
        (msg_to_job : S → Text → Option (S × Result J Text))
        (consumer : S → J → Option (S × Actions))
        → ((s : S) (job : J) (s' : S) (actions : Actions)
            → consumer s job ≡ some (s', actions)
            → EndsInAck actions)
        → (s : S) (tag : ℕ) (body : Text)
        → IsSettled tag (handle_delivery accepts msg_to_job consumer s tag body).0
    unfolding handle_delivery
    handle_delivery-IsSettled msg_to_job consumer ends s tag body = decoded (msg_to_job s body)
      where
        consumed :
            (s₁ : S) (job : J) (r : Option (S × Actions))
            → consumer s₁ job ≡ r
            → IsSettled tag (run_consumer accepts consumer s₁ tag job).0
        consumed s₁ job none e = rw (e, run_consumer) (inr (refl, tt))
        consumed s₁ job (some (s₂, actions)) e =
            rw (e, run_consumer) (perform-IsSettled tag actions (ends s₁ job s₂ actions e))

        decoded :
            (r : Option (S × Result J Text))
            → IsSettled tag (after_decoding accepts consumer tag r).0
        decoded none = inr (refl, tt)
        decoded (some (s₁, err e)) = perform-IsSettled tag (ack ∷ []) refl
        decoded (some (s₁, ok job)) = consumed s₁ job (consumer s₁ job) refl
