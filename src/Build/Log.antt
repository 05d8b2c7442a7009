-- ===== src/Build/Log.antt =====
-- The log of a build, line by line: `JobActions::log_line` of ofborg/src/tasks/build.rs.
use ofborg.Base.{
  ℕ, suc, ◌+◌, ◌≤◌, ◌<◌, ◌%◌, ◌^◌, true, List, [], ◌∷◌, ◌++◌, Text, length, length-append, last,
  last_all, last-cons, append_assoc, append-nil, ◌≡◌, refl, sym, ap, ◌∙◌, arith, inl, inr, leb,
  leb→le, Bool-cases, add-zero, if◌then◌else◌,
}
use ofborg.Message.{Payload, build_log_msg}
use ofborg.Worker.{Action, Actions, publish_serde_action}
use ofborg.Build.{JobActions, pop_front, tell_log, log_line, log_lines}

-- Lines under consecutive numbers from `n` on.
abbrev pub numbered : (ℕ → Text → Action) → ℕ → List Text → Actions
numbered f n [] = []
numbered f n (line ∷ rest) = f n line ∷ numbered f (n + 1) rest

-- What a short log keeps of a further line.
abbrev kept : List Text → Text → List Text
kept s line = (if leb 10 (length s) then pop_front s else s) ++ line ∷ []

length-kept : (s : List Text) (line : Text) → length s ≤ 10 → length (kept s line) ≤ 10
length-kept [] line h = omega arith
length-kept (x ∷ s) line h =
    ground (arith, length-append s (line ∷ []), length-append (x ∷ s) (line ∷ []))

last-kept :
    (s : List Text) (line : Text) (rest : List Text)
    → length s ≤ 10
    → last 10 (kept s line ++ rest) ≡ last 10 (s ++ line ∷ rest)
last-kept [] line rest h = refl
last-kept (x ∷ s) line rest h = elim (Bool-cases (leb 10 (suc (length s)))) [
  | inl full ↦ rw (full, append_assoc) (sym (last-cons 10 x (s ++ line ∷ rest) (long full)))
  | inr short ↦ rw short (ap (last 10) (append_assoc (x ∷ s) (line ∷ []) rest))
]
  where
    long : leb 10 (suc (length s)) ≡ true → 10 ≤ length (s ++ line ∷ rest)
    long full = omega (arith, leb→le 10 (suc (length s)) full, length-append s (line ∷ rest))

module _ (to_json : Payload → Text) where
  -- the action that reports one line
  abbrev pub line_action : JobActions → ℕ → Text → Action
  line_action a n line = publish_serde_action to_json a.log_exchange a.log_routing_key (
      build_log_msg record {
        system = a.system;
        identity = a.identity;
        attempt_id = a.attempt_id;
        line_number = n;
        output = line;
      })

  abbrev pub after_lines : List Text → JobActions → JobActions
  after_lines ls a = record a {
    told = a.told ++ numbered (line_action a) (a.line_counter + 1) ls;
    line_counter = a.line_counter + length ls;
    snippet_log = last 10 (a.snippet_log ++ ls);
  }

  log_line_lem :
      (line : Text) (a : JobActions)
      → a.line_counter + 1 < 2 ^ 64
      → log_line to_json line a ≡ record a {
        told = a.told ++ line_action a (a.line_counter + 1) line ∷ [];
        line_counter = a.line_counter + 1;
        snippet_log = kept a.snippet_log line;
      }
  unfolding log_line tell_log
  log_line_lem line a h =
      let e : (a.line_counter + 1) % 2 ^ 64 ≡ a.line_counter + 1 = omega arith in rw e refl

  -- Logging any lines, below 2 ^ 64 in all, tells of each under the next number, in order, and
  -- leaves in the short log the last ten of the lines that it held and the new ones.
  pub log_lines_lem :
      (ls : List Text) (a : JobActions)
      → length a.snippet_log ≤ 10
      → a.line_counter + length ls < 2 ^ 64
      → log_lines to_json ls a ≡ after_lines ls a
  unfolding log_lines
  log_lines_lem [] a h k = λ i. record a {
    told = sym (append-nil a.told) i;
    line_counter = sym (add-zero a.line_counter) i;
    snippet_log =
        (sym (last_all 10 a.snippet_log h) ∙ ap (last 10) (sym (append-nil a.snippet_log))) i;
  }
  log_lines_lem (line ∷ rest) a h k = rw (log_line_lem line a (omega arith)) (
      log_lines_lem rest
        (record a {
          told = a.told ++ line_action a (a.line_counter + 1) line ∷ [];
          line_counter = a.line_counter + 1;
          snippet_log = kept a.snippet_log line;
        })
        (length-kept a.snippet_log line h) (omega arith)
      ∙ λ i. record a {
        told =
            append_assoc a.told (line_action a (a.line_counter + 1) line ∷ [])
              (numbered (line_action a) (a.line_counter + 1 + 1) rest) i;
        line_counter = shift i;
        snippet_log = last-kept a.snippet_log line rest h i;
      })
    where
      shift : a.line_counter + 1 + length rest ≡ a.line_counter + suc (length rest)
      shift = omega arith
