-- ===== src/Base/Lines.antt =====
-- The lines of a text: Rust's `str::lines`.
use mathlib.Core.Path.{◌≡◌, refl}
use mathlib.Core.Logic.{◌≢◌}
use mathlib.Core.List.{[], ◌∷◌, ◌++◌}
use native.Mathlib.Omega.{arith}
use ofborg.Base.Lists.{All}
use ofborg.Base.Texts.{Text, lines}

-- No line feed and no carriage return.
abbrev pub IsOneLine : Text → Type 0
IsOneLine = All (λ c. (c ≢ 10) × (c ≢ 13))

pub lines-line : (l s : Text) → IsOneLine l → lines (l ++ 10 ∷ s) ≡ l ∷ lines s
unfolding lines
lines-line [] s h = refl
lines-line (c ∷ l) s h = ground (arith, lines-line l s h.1)

pub lines_nil : lines [] ≡ []
unfolding lines
lines_nil = refl
