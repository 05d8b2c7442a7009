-- ===== src/Worker/Acked.antt =====
-- Deliveries that a worker only acknowledges: ofborg/src/worker.rs.
use ofborg.Base.{
  ℕ, Bool, true, false, Option, none, some, [], ◌∷◌, Text, Result, ok, err, ◌≡◌, refl, ap,
  if◌then◌else◌,
}
use ofborg.Worker.{
  Call, basic_ack, perform, Actions, ack, call_of, run_consumer, after_decoding, handle_delivery,
}

module _ (accepts : Call → Bool) {S J : Type 0} (msg_to_job : S → Text → Option (S × Result J Text))
    (consumer : S → J → Option (S × Actions)) (tag : ℕ)
    (yes : accepts (basic_ack tag false) ≡ true) where
  perform_ack : (perform accepts tag (ack ∷ [])).completed ≡ true
  unfolding perform call_of
  perform_ack = rw yes refl

  kept : (s : S) → (if (perform accepts tag (ack ∷ [])).completed then some s else none) ≡ some s
  kept s = ap (λ b. if b then some s else none) perform_ack

  run_consumer_acks :
      (s t : S) (job : J)
      → consumer s job ≡ some (t, ack ∷ [])
      → (run_consumer accepts consumer s tag job).1 ≡ some t
  unfolding run_consumer
  run_consumer_acks s t job e = rw (run_consumer, e) (kept t)

  -- A job whose consumer only acknowledges leaves the consumer's state.
  pub handle_delivery_acks :
      (s t u : S) (body : Text) (job : J)
      → msg_to_job s body ≡ some (t, ok job)
      → consumer t job ≡ some (u, ack ∷ [])
      → (handle_delivery accepts msg_to_job consumer s tag body).1 ≡ some u
  unfolding handle_delivery after_decoding
  handle_delivery_acks s t u body job d c = rw d (run_consumer_acks t u job c)

  -- A body that does not decode leaves the decoder's state.
  pub handle_delivery_drops :
      (s t : S) (body : Text) (e : Text)
      → msg_to_job s body ≡ some (t, err e)
      → (handle_delivery accepts msg_to_job consumer s tag body).1 ≡ some t
  unfolding handle_delivery after_decoding
  handle_delivery_drops s t body e d = rw d (kept t)
