-- ===== src/LogFile/Content.antt =====
-- The file and the buffer: ofborg/src/writetoline.rs.
use ofborg.Base.{
  ℕ, zero, suc, ◌+◌, ◌-◌, ◌≤◌, ◌<◌, some, List, [], ◌∷◌, ◌++◌, Text, length, take, drop,
  length-append, append_assoc, append-nil, ◌≡◌, refl, sym, ap, ◌∙◌, arith, ltb, join, Bool-cases,
  inl, inr, ◌⊎◌, le→leb,
}
use ofborg.LogFile.{
  File, seek_start, truncate, write_all, LineWriter, line_feed, rewrite, slice, appended, with_file,
  write_to_line,
}
use ofborg.LogFile.Lines.{put, buffer_with-put, put_new, length-put_nil}

-- Each line with its end.
abbrev pub shown : List Text → Text
shown [] = []
shown (l ∷ ls) = l ++ 10 ∷ shown ls

pub shown-append : (xs ys : List Text) → shown (xs ++ ys) ≡ shown xs ++ shown ys
shown-append [] ys = refl
shown-append (x ∷ xs) ys =
    ap (λ t. x ++ 10 ∷ t) (shown-append xs ys) ∙ sym (append_assoc x (10 ∷ shown xs) (shown ys))

join-shown : (l : Text) (ls : List Text) → join line_feed (l ∷ ls) ++ line_feed ≡ shown (l ∷ ls)
unfolding join
join-shown l [] = refl
join-shown l (k ∷ ls) =
    append_assoc l (line_feed ++ join line_feed (k ∷ ls)) line_feed
    ∙ ap (λ t. l ++ 10 ∷ t) (join-shown k ls)

put-cons :
    (i : ℕ) (s : Text) (xs : List Text) → (l : Text) × (ls : List Text) × (put i s xs ≡ l ∷ ls)
put-cons zero s [] = (s, [], refl)
put-cons zero s (x ∷ xs) = (s, xs, refl)
put-cons (suc i) s [] = ([], put i s [], refl)
put-cons (suc i) s (x ∷ xs) = (x, put i s xs, refl)

-- A file that holds `s`, with the position at its end.
abbrev pub holding : Text → File
holding s = record { content = s; position = length s }

drop_past : (n : ℕ) (s : Text) → length s ≤ n → drop n s ≡ []
drop_past zero [] h = refl
drop_past zero (c ∷ s) h = absurd (omega arith)
drop_past (suc n) [] h = refl
drop_past (suc n) (c ∷ s) h = drop_past n s (omega arith)

take-length : {A : Type 0} (s : List A) → take (length s) s ≡ s
take-length [] = refl
take-length (c ∷ s) = ap (λ t. c ∷ t) (take-length s)

drop-length : {A : Type 0} (s t : List A) → drop (length s) (s ++ t) ≡ t
drop-length [] t = refl
drop-length (c ∷ s) t = drop-length s t

pub write_all_at_end : (s t : Text) → write_all t (holding s) ≡ holding (s ++ t)
unfolding write_all
write_all_at_end s t = λ i. record { content = written i; position = sym (length-append s t) i }
  where
    written : take (length s) s ++ (t ++ drop (length s + length t) s) ≡ s ++ t
    written =
        ap (λ u. u ++ (t ++ drop (length s + length t) s)) (take-length s)
        ∙ ap (λ u. s ++ (t ++ u)) (drop_past (length s + length t) s (omega arith))
        ∙ ap (λ u. s ++ u) (append-nil t)

-- A writer whose file shows its buffer.
abbrev pub showing : List Text → ℕ → LineWriter
showing buffer last_line = record {
  file = holding (shown buffer);
  buffer = buffer;
  last_line = last_line;
}

rewrite-put :
    (line : ℕ) (s : Text) (buffer : List Text) (f : File)
    → rewrite (put line s buffer) f ≡ holding (shown (put line s buffer))
unfolding rewrite seek_start truncate
rewrite-put line s buffer f =
    let (l, ls, e) = put-cons line s buffer in
    rw e (
      ap (write_all line_feed) (write_all_at_end [] (join line_feed (l ∷ ls)))
      ∙ write_all_at_end (join line_feed (l ∷ ls)) line_feed
      ∙ ap holding (join-shown l ls))

slice_new :
    (xs ys : List Text) (n : ℕ)
    → length ys ≡ n - length xs
    → length xs ≤ n
    → slice (length xs) n (xs ++ ys) ≡ some ys
slice_new xs ys n e h =
    rw (le→leb (length xs) n h, drop-length xs ys, ← e) (ap some (take-length ys))

append-put :
    (n : ℕ) (s : Text) (buffer : List Text)
    → write_all line_feed (write_all (join line_feed (put n s [])) (holding (shown buffer)))
      ≡ holding (shown (buffer ++ put n s []))
append-put n s buffer =
    let (l, ls, e) = put-cons n s [] in
    rw e (
      ap (write_all line_feed) (write_all_at_end (shown buffer) (join line_feed (l ∷ ls)))
      ∙ write_all_at_end (shown buffer ++ join line_feed (l ∷ ls)) line_feed
      ∙ ap holding (
          append_assoc (shown buffer) (join line_feed (l ∷ ls)) line_feed
          ∙ ap (λ t. shown buffer ++ t) (join-shown l ls)
          ∙ sym (shown-append buffer (l ∷ ls))))

module _ (line : ℕ) (s : Text) (buffer : List Text) (last_line : ℕ) where
  appended-put :
      length buffer ≤ line
      → appended (slice (length buffer) (line + 1) (put line s buffer)) (holding (shown buffer))
        ≡ some (holding (shown (put line s buffer)))
  appended-put h =
      let n = line - length buffer in
      let e : length (put n s []) ≡ line + 1 - length buffer = omega (arith, length-put_nil n s) in
      rw (put_new line s buffer h) (
        ap (λ o. appended o (holding (shown buffer)))
          (slice_new buffer (put n s []) (line + 1) e (omega arith))
        ∙ ap some (append-put n s buffer))

  -- In front of the last line written, or at the end or behind the whole buffer, a write succeeds:
  -- the buffer has the line put, and the file shows all of it.
  pub write_to_line_shows :
      (line < last_line) ⊎ (length buffer ≤ line)
      → write_to_line line s (showing buffer last_line) ≡ some (showing (put line s buffer) line)
  unfolding write_to_line
  write_to_line_shows h = elim (Bool-cases (ltb line last_line)) [
    | inl e ↦
        rw (e, buffer_with-put)
          (ap (λ f. with_file line (put line s buffer) (some f))
            (rewrite-put line s buffer (holding (shown buffer))))
    | inr e ↦
        let behind : length buffer ≤ line = ground arith in
        rw (e, buffer_with-put) (ap (with_file line (put line s buffer)) (appended-put behind))
  ]
