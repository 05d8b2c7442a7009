-- ===== src/LogFile/Tests.antt =====
-- Small log files.
use ofborg.Base.{none, some, List, [], ◌∷◌, ◌++◌, ◌≡◌, refl, arith, inl, Text, text, join}
use ofborg.LogFile.{line_feed, write_to_line}
use ofborg.LogFile.Content.{shown, holding, showing, write_to_line_shows}
use ofborg.LogFile.Faults.{write_to_line_panics, write_to_line_loses}

abbrev three_lines : List Text
three_lines = text "a" ∷ text "b" ∷ text "c" ∷ []

-- Out of order, as the log collector may receive them.
out_of_order :
    write_to_line 2 (text "c") (showing [] 0) ≡ some (showing ([] ∷ [] ∷ text "c" ∷ []) 2)
unfolding write_to_line join text
out_of_order = refl

write_to_line_shows_example :
    write_to_line 1 (text "x") (showing three_lines 2)
    ≡ some (showing (text "a" ∷ text "x" ∷ text "c" ∷ []) 1)
write_to_line_shows_example = write_to_line_shows 1 (text "x") three_lines 2 (inl (omega arith))

write_to_line_panics_example : write_to_line 1 (text "x") (showing three_lines 0) ≡ none
write_to_line_panics_example =
    write_to_line_panics 1 (text "x") three_lines 0 (omega arith) (omega arith)

write_to_line_loses_example :
    write_to_line 2 (text "x") (showing three_lines 2)
    ≡ some (record {
      file = holding (shown three_lines ++ line_feed);
      buffer = text "a" ∷ text "b" ∷ text "x" ∷ [];
      last_line = 2;
    })
write_to_line_loses_example = write_to_line_loses 2 (text "x") three_lines 2 (omega arith) refl
