-- ===== src/LogCollector/Storing.antt =====
-- Lines of a log, stored through the cache of writers:
-- ofborg/src/tasks/log_message_collector.rs.
use ofborg.Base.{
  ℕ, suc, Bool, true, Option, none, some, List, [], ◌∷◌, ◌++◌, Text, text_eq_refl, length, All,
  All-append, ok, ◌≡◌, ◌⊎◌, refl, sym, ap, ◌∙◌, arith, inl, inr, append_assoc, append-nil,
  length-append, subst,
}
use ofborg.LogFile.{new_writer}
use ofborg.LogFile.Content.{shown, showing}
use ofborg.Base.{IsOneLine}
use ofborg.LogFile.Reload.{new_writer-shown, write_next}
use ofborg.LogCollector.{
  LogFrom, PathBuf, root_dir, cur_dir, parent_dir, normal, path_for_log, component_eq,
}
use ofborg.LogCollector.Collecting.{
  Handle, Cache, Collector, path_eq, store, opened, handle_for, write_through, collect_line,
}

path_eq_refl : (p : PathBuf) → path_eq p p ≡ true
unfolding path_eq component_eq
path_eq_refl [] = refl
path_eq_refl (root_dir ∷ p) = path_eq_refl p
path_eq_refl (cur_dir ∷ p) = path_eq_refl p
path_eq_refl (parent_dir ∷ p) = path_eq_refl p
path_eq_refl (normal n ∷ p) = ground (arith, text_eq_refl n, path_eq_refl p)

-- The cache finds what was just inserted or set.
pub record IsCache {C : Type 0} (cache : Cache C) : Type 0 where
  pub lookup-insert :
      (f : LogFrom) (h : Handle) (c : C) → cache.lookup f (cache.insert f h c) ≡ some h
  pub lookup-set :
      (f : LogFrom) (g h : Handle) (c : C)
      → cache.lookup f c ≡ some g
      → cache.lookup f (cache.set f h c) ≡ some h

module _ {C : Type 0} (cache : Cache C) (can_open : PathBuf → Bool)
    (debug : LogFrom → PathBuf → Text) (log_root : PathBuf) (from_ : LogFrom) (path : PathBuf) where
  -- The file at the log's path shows the lines, and the cache has no handle for the log or one on this
  -- file that has these lines.
  pub record Holds (buffer : List Text) (s : Collector C) : Type 0 where
    pub shows : s.files path ≡ shown buffer
    pub whole : All IsOneLine buffer
    pub cached :
        (cache.lookup from_ s.handles ≡ none)
        ⊎ ((last_line : ℕ) × (cache.lookup from_ s.handles
              ≡ some (record { path = path; writer = showing buffer last_line })))

  abbrev handle_on : List Text → ℕ → Handle
  handle_on buffer last_line = record { path = path; writer = showing buffer last_line }

  abbrev fresh : List Text → Handle
  fresh buffer = handle_on buffer (length buffer)

  -- A write of the next line through such a handle.
  write_through_lem :
      (buffer : List Text) (output : Text) (last_line : ℕ) (s : Collector C)
      → IsCache cache
      → IsOneLine output
      → All IsOneLine buffer
      → s.files path ≡ shown buffer
      → cache.lookup from_ s.handles ≡ some (handle_on buffer last_line)
      → (s' : Collector C) × (write_through cache can_open debug log_root from_
            (length buffer)
            output
            (handle_on buffer last_line)
            s
          ≡ some s')
        × Holds (buffer ++ output ∷ []) s'
  unfolding write_through store
  write_through_lem buffer output last_line s laws one whole shows e =
      let next = handle_on (buffer ++ output ∷ []) (length buffer) in
      (
        store path (shown (buffer ++ output ∷ []))
            (record s { handles = cache.set from_ next s.handles }),
        rw (shows, write_next output buffer last_line, write_through) refl,
        record {
          shows = rw (path_eq_refl path) refl;
          whole = All-append IsOneLine buffer (output ∷ []) whole (one, record {});
          cached =
              inr (
                length buffer,
                laws.lookup-set from_ (handle_on buffer last_line) next s.handles e,
              );
        },
      )

  -- What `handle_for` gives: a handle on the file, with its lines, that is in the cache.
  handle_for_lem :
      (buffer : List Text) (s : Collector C)
      → IsCache cache
      → can_open path ≡ true
      → path_for_log debug log_root from_ ≡ ok path
      → Holds buffer s
      → (last_line : ℕ) × (s' : Collector C) × (handle_for cache can_open debug log_root from_ s
          ≡ some (record { path = path; writer = showing buffer last_line }, s'))
        × (s'.files ≡ s.files)
        × (cache.lookup from_ s'.handles
            ≡ some (record { path = path; writer = showing buffer last_line }))
  unfolding handle_for
  handle_for_lem buffer s laws open_ place_ h = elim h.cached [
    | inr (last_line, e) ↦ (last_line, s, rw (e, handle_for) refl, refl, e)
    | inl e ↦
        let reload : new_writer (record { content = s.files path; position = 0 })
            ≡ showing buffer (length buffer) =
          rw h.shows (new_writer-shown buffer 0 h.whole) in
        (
          length buffer,
          record s { handles = cache.insert from_ (fresh buffer) s.handles },
          rw
              (
                e,
                place_,
                handle_for,
                opened,
                reload,
                open_,
                laws.lookup-insert from_ (fresh buffer) s.handles,
              )
              (ap
                (λ w. some (
                  fresh buffer,
                  record s {
                    handles = cache.insert from_ (record { path = path; writer = w }) s.handles;
                  },
                ))
                reload),
          refl,
          laws.lookup-insert from_ (fresh buffer) s.handles,
        )
  ]

  -- The next line of a log is added to its file and nothing else of the file changes, whether the cache
  -- still has its writer or has dropped it; no such line makes the collector panic.
  pub collect_line-Holds :
      (buffer : List Text) (output : Text) (s : Collector C)
      → IsCache cache
      → can_open path ≡ true
      → path_for_log debug log_root from_ ≡ ok path
      → IsOneLine output
      → Holds buffer s
      → (s' : Collector C) × (collect_line cache can_open debug log_root from_
            (suc (length buffer))
            output
            s
          ≡ some s')
        × Holds (buffer ++ output ∷ []) s'
  unfolding collect_line write_through store
  collect_line-Holds buffer output s laws open_ place_ one h =
      let (last_line, s1, e, same, cached) = handle_for_lem buffer s laws open_ place_ h in
      let (s2, f, holds) =
        write_through_lem buffer output last_line s1 laws one h.whole
          (ap (λ f. f path) same ∙ h.shows) cached in
      (s2, rw (e, collect_line) f, holds)

  -- Lines of the log in order, with other work of the collector before each of them.
  unfoldable pub collect_all :
      (ℕ → Collector C → Collector C) → ℕ → List Text → Collector C → Option (Collector C)
  collect_all between line [] s = some s
  collect_all between line (l ∷ ls) s =
      elim (collect_line cache can_open debug log_root from_ (suc line) l (between line s)) [
        | none ↦ none
        | some s' ↦ collect_all between (suc line) ls s'
      ]

  -- Work that leaves this log's file alone, and of whose handle the cache is changed at most by
  -- dropping it.
  abbrev pub IsForeign : (ℕ → Collector C → Collector C) → Type 0
  IsForeign between =
      (n : ℕ) (s : Collector C)
      → ((between n s).files path ≡ s.files path)
        × ((cache.lookup from_ (between n s).handles ≡ none)
            ⊎ (cache.lookup from_ (between n s).handles ≡ cache.lookup from_ s.handles))

  foreign-Holds :
      (between : ℕ → Collector C → Collector C) (n : ℕ) (buffer : List Text) (s : Collector C)
      → IsForeign between
      → Holds buffer s
      → Holds buffer (between n s)
  foreign-Holds between n buffer s foreign h = record {
    shows = (foreign n s).0 ∙ h.shows;
    whole = h.whole;
    cached = elim (foreign n s).1 [
      | inl e ↦ inl e
      | inr e ↦ elim h.cached [ inl f ↦ inl (e ∙ f) | inr (l, f) ↦ inr (l, e ∙ f) ]
    ];
  }

  -- The lines of a log that come in order, with any work for other logs between them, which may drop
  -- the log's handle from the cache, are all stored: the collector does not panic on them, and in the
  -- end the file shows the lines that it had, followed by these.
  pub collect_all-Holds :
      (between : ℕ → Collector C → Collector C) (ls buffer : List Text) (s : Collector C)
      → IsCache cache
      → IsForeign between
      → can_open path ≡ true
      → path_for_log debug log_root from_ ≡ ok path
      → All IsOneLine ls
      → Holds buffer s
      → (s' : Collector C) × (collect_all between (length buffer) ls s ≡ some s')
        × Holds (buffer ++ ls) s'
  unfolding collect_all
  collect_all-Holds between [] buffer s laws foreign open_ place_ one h =
      (s, refl, subst (λ b. Holds b s) (sym (append-nil buffer)) h)
  collect_all-Holds between (l ∷ ls) buffer s laws foreign open_ place_ one h =
      let (s1, e, h1) =
        collect_line-Holds buffer l (between (length buffer) s) laws open_ place_ one.0
          (foreign-Holds between (length buffer) buffer s foreign h) in
      let (s2, f, h2) =
        collect_all-Holds between ls (buffer ++ l ∷ []) s1 laws foreign open_ place_ one.1 h1 in
      let one_more : suc (length buffer) ≡ length (buffer ++ l ∷ []) =
        omega (arith, length-append buffer (l ∷ [])) in
      (
        s2,
        rw (e, collect_all) (ap (λ n. collect_all between n ls s1) one_more ∙ f),
        subst (λ b. Holds b s2) (append_assoc buffer (l ∷ []) ls) h2,
      )
