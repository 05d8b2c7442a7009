-- ===== src/LogFile/Faults.antt =====
-- Writes that go wrong: ofborg/src/writetoline.rs. After a line in the middle is written, the writer
-- takes the lines behind it for new ones.
use ofborg.Base.{
  ℕ, zero, suc, ◌+◌, ◌-◌, ◌≤◌, ◌<◌, none, some, List, [], ◌∷◌, ◌++◌, append-nil, Text, length, drop,
  ◌≡◌, refl, ap, ◌∙◌, arith, le→ltb, le→leb, lt→leb, join,
}
use ofborg.LogFile.{write_all, line_feed, write_to_line}
use ofborg.LogFile.Lines.{put, buffer_with-put, length-put_old}
use ofborg.LogFile.Content.{shown, holding, showing, write_all_at_end}

module _ (line : ℕ) (s : Text) (buffer : List Text) (last_line : ℕ) where
  -- At or behind the last line written, but in front of the last line of the buffer, a write panics.
  pub write_to_line_panics :
      last_line ≤ line
      → line + 1 < length buffer
      → write_to_line line s (showing buffer last_line) ≡ none
  unfolding write_to_line
  write_to_line_panics h k = rw (le→ltb line last_line h, lt→leb (length buffer) (line + 1) k) refl

  drop-put : line + 1 ≡ length buffer → drop (length buffer) (put line s buffer) ≡ []
  drop-put e = go (put line s buffer) (length buffer) (omega (arith, length-put_old line s buffer))
    where
      go : (xs : List Text) (n : ℕ) → length xs ≤ n → drop n xs ≡ []
      go [] zero h = refl
      go [] (suc n) h = refl
      go (x ∷ xs) zero h = absurd (omega arith)
      go (x ∷ xs) (suc n) h = go xs n (omega arith)

  -- At the last line of the buffer, and not in front of the last line written, a write succeeds and
  -- its text goes to the buffer, but the file gets an empty line in its place, whatever the text.
  pub write_to_line_loses :
      last_line ≤ line
      → line + 1 ≡ length buffer
      → write_to_line line s (showing buffer last_line)
        ≡ some (record {
          file = holding (shown buffer ++ line_feed);
          buffer = put line s buffer;
          last_line = line;
        })
  unfolding write_to_line join
  write_to_line_loses h e =
      let none_left : line + 1 - length buffer ≡ 0 = omega arith in
      rw
        (
          le→ltb line last_line h,
          le→leb (length buffer) (line + 1) (omega arith),
          buffer_with-put,
          drop-put e,
          none_left,
        )
        (ap (λ f. some (record { file = f; buffer = put line s buffer; last_line = line }))
          (ap (write_all line_feed) (write_all_at_end (shown buffer) [])
            ∙ write_all_at_end (shown buffer ++ []) line_feed
            ∙ ap (λ t. holding (t ++ line_feed)) (append-nil (shown buffer))))
