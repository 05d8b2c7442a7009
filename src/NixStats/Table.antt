-- ===== src/NixStats/Table.antt =====
-- The table of a comparison: `EvaluationStatsDiff::markdown` of ofborg/src/nixstats.rs.
use Prim.Native.Nat.{◌/◌}
use ofborg.Base.{
  ℕ, ◌+◌, ◌-◌, Option, none, some, List, [], ◌∷◌, ◌++◌, map, length, replicate, Text, text, text_eq,
  join, sort, ltb, if◌then◌else◌,
}
use ofborg.NixStats.{Row, Arithmetic, EvaluationStatsDiff, data_of}

-- Rust's padding of a text: it is filled up to the width, and a longer one is left as it is.
unfoldable pub pad_right : ℕ → ℕ → Text → Text
pad_right fill width s = s ++ replicate (width - length s) fill

unfoldable pub pad_left : ℕ → ℕ → Text → Text
pad_left fill width s = replicate (width - length s) fill ++ s

unfoldable pub pad_both : ℕ → ℕ → Text → Text
pad_both fill width s =
    let missing = width - length s in
    let before = missing / 2 in replicate before fill ++ (s ++ replicate (missing - before) fill)

abbrev pub max : ℕ → ℕ → ℕ
max a b = if ltb a b then b else a

pub record Widths : Type 0 where
  pub keylen : ℕ
  pub beforelen : ℕ
  pub afterlen : ℕ
  pub difflen : ℕ
  pub diff_pctlen : ℕ

-- the `fold`
unfoldable pub widths : List (Text × Row) → Widths
widths [] = record { keylen = 0; beforelen = 0; afterlen = 0; difflen = 0; diff_pctlen = 0 }
widths ((key, row) ∷ rest) =
    let w = widths rest in
    record {
      keylen = max w.keylen (length key);
      beforelen = max w.beforelen (length row.before);
      afterlen = max w.afterlen (length row.after);
      difflen = max w.difflen (length row.diff);
      diff_pctlen = max w.diff_pctlen (length row.diff_pct);
    }

-- five cells between bars
abbrev pub barred : Text → Text → Text → Text → Text → Text
barred a b c d e =
    b'|' ∷ (a ++ (b'|' ∷ (b ++ (b'|' ∷ (c ++ (b'|' ∷ (d ++ (b'|' ∷ (e ++ (b'|' ∷ []))))))))))

abbrev pub spaced : Text → Text
spaced s = b' ' ∷ (s ++ b' ' ∷ [])

unfoldable pub row_line : Widths → Text → Row → Text
unfolding pad_left pad_right
row_line w key row =
    barred (spaced (pad_right b' ' (w.keylen + 4) (b'*' ∷ b'*' ∷ (key ++ b'*' ∷ b'*' ∷ []))))
      (spaced (pad_left b' ' w.beforelen row.before)) (spaced (pad_left b' ' w.afterlen row.after))
      (spaced (pad_right b' ' w.difflen row.diff))
      (spaced (pad_left b' ' w.diff_pctlen row.diff_pct))

unfoldable pub title_line : Widths → Text
unfolding pad_both
title_line w =
    barred (pad_both b' ' (w.keylen + 6) (text "stat"))
      (pad_both b' ' (w.beforelen + 2) (text "before"))
      (pad_both b' ' (w.afterlen + 2) (text "after")) (pad_both b' ' (w.difflen + 2) (916 ∷ []))
      (pad_both b' ' (w.diff_pctlen + 2) (916 ∷ 37 ∷ []))

unfoldable pub dash_line : Widths → Text
unfolding pad_left pad_right
dash_line w =
    barred (pad_right b'-' (w.keylen + 6) (text ":")) (pad_left b'-' (w.beforelen + 2) (text ":"))
      (pad_left b'-' (w.afterlen + 2) (text ":")) (pad_right b'-' (w.difflen + 2) (text ":"))
      (pad_left b'-' (w.diff_pctlen + 2) (text ":"))

-- `data[&key]`, which panics where there is none
unfoldable pub row_of : Text → List (Text × Row) → Option Row
row_of key [] = none
row_of key ((k, row) ∷ rest) =
    let later = row_of key rest in if text_eq key k then some row else later

abbrev pub cons_line : Option Text → Option (List Text) → Option (List Text)
cons_line none ls = none
cons_line (some l) none = none
cons_line (some l) (some ls) = some (l ∷ ls)

abbrev pub line_of : Widths → Text → Option Row → Option Text
line_of w key none = none
line_of w key (some row) = some (row_line w key row)

-- the rows of these keys
unfoldable pub rows_for : Widths → List (Text × Row) → List Text → Option (List Text)
unfolding row_line row_of
rows_for w data_rows [] = some []
rows_for w data_rows (key ∷ keys) =
    cons_line (line_of w key (row_of key data_rows)) (rows_for w data_rows keys)

-- `trim` of the header drops the line feeds around its two lines. `none` is a panic.
unfoldable pub table : List (Text × Row) → Option Text
unfolding widths title_line dash_line rows_for
table data_rows =
    let w = widths data_rows in
    elim (rows_for w data_rows (sort (map (λ e. e.0) data_rows))) [
      | none ↦ none
      | some rows ↦
          some
            (title_line w ++ (text "\n" ++ (dash_line w ++ (text "\n" ++ join (text "\n") rows))))
    ]

unfoldable pub markdown : {F : Type 0} → Arithmetic F → EvaluationStatsDiff F → Option Text
unfolding table data_of
markdown a d = table (data_of a d)
