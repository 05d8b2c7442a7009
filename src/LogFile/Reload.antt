-- ===== src/LogFile/Reload.antt =====
-- Reading a log file back, and writing one in order: ofborg/src/writetoline.rs.
use ofborg.Base.{
  ℕ, ◌+◌, ◌-◌, Option, none, some, List, [], ◌∷◌, ◌++◌, Text, length, ◌≡◌, refl, sym, ap, ◌∙◌,
  arith, lines, All, IsOneLine, lines-line, lines_nil, inr, length-append, append_assoc, append-nil,
}
use ofborg.LogFile.{LineWriter, new_writer, write_to_line}
use ofborg.LogFile.Lines.{put, put_new}
use ofborg.LogFile.Content.{shown, holding, showing, write_to_line_shows}

lines-shown : (buffer : List Text) → All IsOneLine buffer → lines (shown buffer) ≡ buffer
lines-shown [] h = lines_nil
lines-shown (l ∷ ls) (h, hs) = lines-line l (shown ls) h ∙ ap (λ r. l ∷ r) (lines-shown ls hs)

-- Opening a log file that shows lines without line ends in them gives these lines, and a writer at
-- its end.
pub new_writer-shown :
    (buffer : List Text) (position : ℕ)
    → All IsOneLine buffer
    → new_writer (record { content = shown buffer; position = position })
      ≡ showing buffer (length buffer)
unfolding new_writer
new_writer-shown buffer position h =
    ap (λ b. record { file = holding (shown buffer); buffer = b; last_line = length b })
      (lines-shown buffer h)

-- The next line is appended.
pub write_next :
    (l : Text) (buffer : List Text) (last_line : ℕ)
    → write_to_line (length buffer) l (showing buffer last_line)
      ≡ some (showing (buffer ++ l ∷ []) (length buffer))
write_next l buffer last_line =
    write_to_line_shows (length buffer) l buffer last_line (inr (omega arith))
    ∙ ap (λ b. some (showing b (length buffer))) at_end
  where
    at_end : put (length buffer) l buffer ≡ buffer ++ l ∷ []
    at_end =
        let e : length buffer - length buffer ≡ 0 = omega arith in
        put_new (length buffer) l buffer (omega arith) ∙ rw e refl

-- Writing lines one after another, from line `i` on.
pub write_from : ℕ → List Text → LineWriter → Option LineWriter
write_from i [] w = some w
write_from i (l ∷ ls) w = elim (write_to_line i l w) [
  | none ↦ none
  | some w' ↦ write_from (i + 1) ls w'
]

-- Lines that are written in order behind the end of the file are appended to it: none is lost, and
-- no write panics.
pub write_from_end :
    (ls : List Text) (buffer : List Text) (last_line : ℕ)
    → (last_line' : ℕ) × (write_from (length buffer) ls (showing buffer last_line)
        ≡ some (showing (buffer ++ ls) last_line'))
unfolding write_from
write_from_end [] buffer last_line =
    (last_line, ap (λ b. some (showing b last_line)) (sym (append-nil buffer)))
write_from_end (l ∷ ls) buffer last_line =
    let (last_line', e) = write_from_end ls (buffer ++ l ∷ []) (length buffer) in
    (last_line', step ∙ e ∙ ap (λ b. some (showing b last_line')) (append_assoc buffer (l ∷ []) ls))
  where
    step :
        write_from (length buffer) (l ∷ ls) (showing buffer last_line)
        ≡ write_from (length (buffer ++ l ∷ [])) ls (showing (buffer ++ l ∷ []) (length buffer))
    step =
        rw (write_next l buffer last_line, write_from)
          (ap (λ i. write_from i ls (showing (buffer ++ l ∷ []) (length buffer)))
            (sym (length-append buffer (l ∷ []))))
