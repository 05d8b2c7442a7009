-- ===== src/NixStats/Aligned.antt =====
-- The columns of the table line up: `EvaluationStatsDiff::markdown` of ofborg/src/nixstats.rs.
use ofborg.Base.{
  ℕ, zero, suc, ◌+◌, ◌-◌, ◌≤◌, true, some, List, [], ◌∷◌, ◌++◌, map, length, length-append, join,
  replicate, Text, text, text_eq, contains, contains-sort, sort, ◌≡◌, refl, arith, All, ap, sym,
  ◌∙◌, Bool-cases, inl, inr, text_eq_refl, text_eq_iff, insert_text, subst,
}
use ofborg.NixStats.{Row, Arithmetic, EvaluationStatsDiff, data_of}
use ofborg.NixStats.Table.{
  pad_right, pad_left, max, Widths, widths, barred, spaced, row_line, title_line, dash_line, row_of,
  rows_for, table, markdown, cons_line, line_of,
}

length-replicate : (n c : ℕ) → length (replicate n c) ≡ n
length-replicate zero c = refl
length-replicate (suc n) c = ap suc (length-replicate n c)

length-pad_right : (c w : ℕ) (s : Text) → length s ≤ w → length (pad_right c w s) ≡ w
unfolding pad_right
length-pad_right c w s h =
    omega (arith, length-append s (replicate (w - length s) c), length-replicate (w - length s) c)

length-pad_left : (c w : ℕ) (s : Text) → length s ≤ w → length (pad_left c w s) ≡ w
unfolding pad_left
length-pad_left c w s h =
    omega (arith, length-append (replicate (w - length s) c) s, length-replicate (w - length s) c)

length-barred :
    (a b c d e : Text)
    → length (barred a b c d e) ≡ length a + (length b + (length c + (length d + (length e + 6))))
length-barred a b c d e = omega (
  arith,
  length-append a (b'|' ∷ (b ++ (b'|' ∷ (c ++ (b'|' ∷ (d ++ (b'|' ∷ (e ++ (b'|' ∷ []))))))))),
  length-append b (b'|' ∷ (c ++ (b'|' ∷ (d ++ (b'|' ∷ (e ++ (b'|' ∷ []))))))),
  length-append c (b'|' ∷ (d ++ (b'|' ∷ (e ++ (b'|' ∷ []))))),
  length-append d (b'|' ∷ (e ++ (b'|' ∷ []))),
  length-append e (b'|' ∷ []),
)

length-spaced : (s : Text) → length (spaced s) ≡ length s + 2
length-spaced s = omega (arith, length-append s (b' ' ∷ []))

-- A row that the widths leave room for.
abbrev Fits : Widths → Text → Row → Type 0
Fits w key row =
    (length key ≤ w.keylen)
    × (length row.before ≤ w.beforelen)
    × (length row.after ≤ w.afterlen)
    × (length row.diff ≤ w.difflen)
    × (length row.diff_pct ≤ w.diff_pctlen)

abbrev pub line_width : Widths → ℕ
line_width w = w.keylen + (w.beforelen + (w.afterlen + (w.difflen + (w.diff_pctlen + 20))))

length-row_line :
    (w : Widths) (key : Text) (row : Row)
    → Fits w key row
    → length (row_line w key row) ≡ line_width w
unfolding row_line
length-row_line w key row (k, b, a, d, p) =
    let bold = b'*' ∷ b'*' ∷ (key ++ b'*' ∷ b'*' ∷ []) in
    let cell_key = pad_right b' ' (w.keylen + 4) bold in
    let cell_before = pad_left b' ' w.beforelen row.before in
    let cell_after = pad_left b' ' w.afterlen row.after in
    let cell_diff = pad_right b' ' w.difflen row.diff in
    let cell_pct = pad_left b' ' w.diff_pctlen row.diff_pct in
    omega (
      arith,
      length-barred (spaced cell_key) (spaced cell_before) (spaced cell_after) (spaced cell_diff)
          (spaced cell_pct),
      length-spaced cell_key,
      length-spaced cell_before,
      length-spaced cell_after,
      length-spaced cell_diff,
      length-spaced cell_pct,
      length-pad_right b' ' (w.keylen + 4) bold
          (omega (arith, k, length-append key (b'*' ∷ b'*' ∷ []))),
      length-pad_left b' ' w.beforelen row.before b,
      length-pad_left b' ' w.afterlen row.after a,
      length-pad_right b' ' w.difflen row.diff d,
      length-pad_left b' ' w.diff_pctlen row.diff_pct p,
    )

length-dash_line : (w : Widths) → length (dash_line w) ≡ line_width w
unfolding dash_line text
length-dash_line w = omega (
  arith,
  length-barred (pad_right b'-' (w.keylen + 6) (58 ∷ []))
      (pad_left b'-' (w.beforelen + 2) (58 ∷ [])) (pad_left b'-' (w.afterlen + 2) (58 ∷ []))
      (pad_right b'-' (w.difflen + 2) (58 ∷ [])) (pad_left b'-' (w.diff_pctlen + 2) (58 ∷ [])),
  length-pad_right b'-' (w.keylen + 6) (58 ∷ []) (omega arith),
  length-pad_left b'-' (w.beforelen + 2) (58 ∷ []) (omega arith),
  length-pad_left b'-' (w.afterlen + 2) (58 ∷ []) (omega arith),
  length-pad_right b'-' (w.difflen + 2) (58 ∷ []) (omega arith),
  length-pad_left b'-' (w.diff_pctlen + 2) (58 ∷ []) (omega arith),
)

max-below : (a b c : ℕ) → c ≤ a → c ≤ max a b
max-below a b c h = ground arith

max-reaches : (a b : ℕ) → b ≤ max a b
max-reaches a b = ground arith

-- what the lookup finds
row_of-Fits :
    (key : Text) (row : Row) (d : List (Text × Row))
    → row_of key d ≡ some row
    → Fits (widths d) key row
unfolding row_of widths
row_of-Fits key row [] e = absurd (ground arith)
row_of-Fits key row ((k, first) ∷ rest) e = elim (Bool-cases (text_eq key k)) [
  | inl f ↦ ours ((text_eq_iff key k).0 f) (ground (arith, f, e))
  | inr f ↦ later (row_of-Fits key row rest (ground (arith, f, e)))
]
  where
    w : Widths
    w = widths rest

    ours : key ≡ k → first ≡ row → Fits (widths ((k, first) ∷ rest)) key row
    ours f g =
        rw (f, sym g)
          (
            max-reaches w.keylen (length k),
            max-reaches w.beforelen (length first.before),
            max-reaches w.afterlen (length first.after),
            max-reaches w.difflen (length first.diff),
            max-reaches w.diff_pctlen (length first.diff_pct),
          )

    later : Fits (widths rest) key row → Fits (widths ((k, first) ∷ rest)) key row
    later (a, b, c, x, y) = (
      max-below w.keylen (length k) (length key) a,
      max-below w.beforelen (length first.before) (length row.before) b,
      max-below w.afterlen (length first.after) (length row.after) c,
      max-below w.difflen (length first.diff) (length row.diff) x,
      max-below w.diff_pctlen (length first.diff_pct) (length row.diff_pct) y,
    )

found-row_of :
    (key : Text) (d : List (Text × Row))
    → contains (map (λ e. e.0) d) key ≡ true
    → (row : Row) × (row_of key d ≡ some row)
unfolding contains row_of
found-row_of key [] h = absurd (ground arith)
found-row_of key ((k, first) ∷ rest) h = elim (Bool-cases (text_eq key k)) [
  | inl f ↦ rw f (first, refl)
  | inr f ↦ rw f (found-row_of key rest (ground (arith, f, h)))
]

abbrev IsLevel : ℕ → Text → Type 0
IsLevel n l = length l ≡ n

rows_for-IsLevel :
    (d : List (Text × Row)) (keys : List Text)
    → ((key : Text) → contains keys key ≡ true → contains (map (λ e. e.0) d) key ≡ true)
    → (rows : List Text) × (rows_for (widths d) d keys ≡ some rows)
      × (length rows ≡ length keys)
      × All (IsLevel (line_width (widths d))) rows
unfolding rows_for
rows_for-IsLevel d [] h = ([], refl, refl, tt)
rows_for-IsLevel d (key ∷ keys) h =
    let (row, e) =
      found-row_of key d (h key (unfold contains in ground (arith, text_eq_refl key))) in
    let (rows, f, n, level) =
      rows_for-IsLevel d keys (λ k g. h k (unfold contains in ground (arith, g))) in
    (
      row_line (widths d) key row ∷ rows,
      ap (λ o. cons_line (line_of (widths d) key o) (rows_for (widths d) d keys)) e
          ∙ ap (λ o. cons_line (some (row_line (widths d) key row)) o) f,
      ap suc n,
      (length-row_line (widths d) key row (row_of-Fits key row d e), level),
    )

length-map : {A B : Type 0} (f : A → B) (xs : List A) → length (map f xs) ≡ length xs
length-map f [] = refl
length-map f (x ∷ xs) = ap suc (length-map f xs)

length-insert_text : (a : Text) (ys : List Text) → length (insert_text a ys) ≡ suc (length ys)
unfolding insert_text
length-insert_text a [] = refl
length-insert_text a (y ∷ ys) = ground (arith, length-insert_text a ys)

length-sort : (xs : List Text) → length (sort xs) ≡ length xs
unfolding sort
length-sort [] = refl
length-sort (x ∷ xs) = length-insert_text x (sort xs) ∙ ap suc (length-sort xs)

-- The report on two statistics does not panic. It is the title, the dashes below it, and as many rows
-- as there are statistics, each part on a line of its own, and every row is exactly as wide as the
-- dashes.
pub rows_level :
    {F : Type 0} (a : Arithmetic F) (d : EvaluationStatsDiff F)
    → let w = widths (data_of a d) in
      (rows : List Text) × (markdown a d
        ≡ some (join (text "\n") (title_line w ∷ dash_line w ∷ join (text "\n") rows ∷ [])))
      × (length rows ≡ 27)
      × All (λ l. length l ≡ length (dash_line w)) rows
unfolding data_of markdown join
rows_level a d =
    let keys = map (λ e. e.0) (data_of a d) in
    let (rows, e, n, level) =
      rows_for-IsLevel (data_of a d) (sort keys) (λ key h. sym (contains-sort key keys) ∙ h) in
    (
      rows,
      rw (table, e) refl,
      n ∙ length-sort keys,
      subst (λ k. All (IsLevel k) rows) (sym (length-dash_line (widths (data_of a d)))) level,
    )
