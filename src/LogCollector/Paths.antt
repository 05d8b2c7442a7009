-- ===== src/LogCollector/Paths.antt =====
-- The place of a log under the log directory: ofborg/src/tasks/log_message_collector.rs.
use ofborg.Base.{
  true, [], ◌∷◌, ◌++◌, Text, text, text_eq_refl, all, ok, err, ◌≡◌, ◌≢◌, ◌↔◌, refl, sym, ap, ◌∙◌,
  arith, append_assoc, append-nil, ◌⊎◌, Bool-cases, inl, inr,
}
use ofborg.LogCollector.{
  LogFrom, root_dir, cur_dir, parent_dir, normal, PathBuf, components, is_normal,
  validate_path_segment, push, component_eq, starts_with, path_for_log,
}

-- A segment that may be used: it has a component, and only plain names.
abbrev pub IsValid : Text → Type 0
IsValid s = (components s ≢ []) × (all is_normal (components s) ≡ true)

push-append : (p q : PathBuf) → all is_normal q ≡ true → push p q ≡ p ++ q
unfolding push is_normal
push-append p [] h = sym (append-nil p)
push-append p (root_dir ∷ q) h = absurd (ground arith)
push-append p (cur_dir ∷ q) h = absurd (ground arith)
push-append p (parent_dir ∷ q) h = absurd (ground arith)
push-append p (normal n ∷ q) h = refl

starts_with-append : (p q : PathBuf) → starts_with (p ++ q) p ≡ true
unfolding starts_with component_eq
starts_with-append [] [] = refl
starts_with-append [] (c ∷ q) = refl
starts_with-append (root_dir ∷ p) q = starts_with-append p q
starts_with-append (cur_dir ∷ p) q = starts_with-append p q
starts_with-append (parent_dir ∷ p) q = starts_with-append p q
starts_with-append (normal n ∷ p) q = ground (arith, text_eq_refl n, starts_with-append p q)

valid-cases :
    (p : PathBuf)
    → ((validate_path_segment p ≡ ok tt) × ((p ≢ []) × (all is_normal p ≡ true)))
      ⊎ ((e : Text) × (validate_path_segment p ≡ err e) × (¬ ((p ≢ []) × (all is_normal p ≡ true))))
unfolding validate_path_segment
valid-cases [] = inr (_, refl, λ h. h.0 refl)
valid-cases (c ∷ p) = elim (Bool-cases (all is_normal (c ∷ p))) [
  | inl h ↦ inl (rw h refl, ((λ e. ground arith), h))
  | inr h ↦ inr (text "Path contained invalid components", rw h refl, λ k. ground arith)
]

module _ (debug : LogFrom → PathBuf → Text) (log_root : PathBuf) (from_ : LogFrom) where
  abbrev key : PathBuf
  key = components from_.routing_key

  abbrev id : PathBuf
  id = components from_.attempt_id

  pushed :
      all is_normal key ≡ true
      → all is_normal id ≡ true
      → push (push log_root key) id ≡ log_root ++ (key ++ id)
  pushed hk hi =
      push-append (push log_root key) id hi
      ∙ ap (λ l. l ++ id) (push-append log_root key hk)
      ∙ append_assoc log_root key id

  -- A log has a place exactly if its routing key and its attempt each have a component and consist of
  -- plain names; the place is the log directory followed by both, so always below that directory.
  pub path_for_log_iff :
      (p : PathBuf)
      → (path_for_log debug log_root from_ ≡ ok p) ↔ (
          IsValid from_.routing_key
          × (IsValid from_.attempt_id
              × (p ≡ log_root ++ (components from_.routing_key ++ components from_.attempt_id))))
  unfolding path_for_log
  path_for_log_iff p = elim (valid-cases key) [
    | inr (e, f, n) ↦ rw (f, path_for_log) (ground arith)
    | inl (f, v) ↦ elim (valid-cases id) [
      | inr (e, g, n) ↦ rw (f, g, path_for_log) (ground arith)
      | inl (g, w) ↦
          rw (f, g, pushed v.1 w.1, starts_with-append log_root (key ++ id), path_for_log)
            (ground arith)
    ]
  ]
