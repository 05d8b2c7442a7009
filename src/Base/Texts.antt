-- ===== src/Base/Texts.antt =====
-- Text as the list of its code points, with what the program uses of Rust's `str`.
use Prim.Native.Nat.{ℕ, zero, suc, ◌+◌, ◌/◌, ◌%◌}
use Prim.Native.Char.{code}
use Prim.Native.String.{String}
use mathlib.Core.Path.{◌≡◌, refl, ap}
use mathlib.Core.Logic.{◌↔◌}
use mathlib.Core.Bool.{Bool, true, false, ◌&&◌, ◌||◌}
use mathlib.Core.List.{List, [], ◌∷◌, ◌++◌, map}
use native.Mathlib.Omega.{arith}
use ofborg.Base.Lists.{Occurs, all}
use ofborg.Base.Tests.{leb, ltb, ◌==◌, if◌then◌else◌}

abbrev pub Text : Type 0
Text = List ℕ

-- A literal.
unfoldable pub text : String → Text
text String.[] = []
text (String.◌∷◌ c s) = code c ∷ text s

-- `==` on texts
unfoldable pub text_eq : Text → Text → Bool
text_eq [] [] = true
text_eq (c ∷ s) (d ∷ t) = c == d && text_eq s t
text_eq _ _ = false

pub text_eq_iff : (s t : Text) → (text_eq s t ≡ true) ↔ (s ≡ t)
unfolding text_eq
text_eq_iff [] [] = ground arith
text_eq_iff [] (d ∷ t) = ground arith
text_eq_iff (c ∷ s) [] = ground arith
text_eq_iff (c ∷ s) (d ∷ t) = ground (arith, text_eq_iff s t)

pub text_eq_refl : (s : Text) → text_eq s s ≡ true
text_eq_refl s = (text_eq_iff s s).1 refl

-- `Vec<String>::contains`
unfoldable pub contains : List Text → Text → Bool
contains [] a = false
contains (x ∷ xs) a = text_eq a x || contains xs a

pub contains_iff : (xs : List Text) (a : Text) → (contains xs a ≡ true) ↔ Occurs a xs
unfolding contains
contains_iff [] a = ground arith
contains_iff (x ∷ xs) a = ground (arith, text_eq_iff a x, contains_iff xs a)

-- `[String]::join`
unfoldable pub join : Text → List Text → Text
join sep [] = []
join sep (p ∷ []) = p
join sep (p ∷ q ∷ ps) = p ++ (sep ++ join sep (q ∷ ps))

-- `u8::to_ascii_lowercase` on each character, and `eq_ignore_ascii_case`
unfoldable pub ascii_lower : ℕ → ℕ
ascii_lower c = if leb b'A' c && leb c b'Z' then c + 32 else c

unfoldable pub to_ascii_lowercase : Text → Text
unfolding ascii_lower
to_ascii_lowercase s = map ascii_lower s

-- `format!("{}", n)`: the decimal digits, most significant first. `n + 1` rounds are enough, since
-- each round divides by ten.
decimal_from : ℕ → ℕ → Text → Text
decimal_from zero n acc = acc
decimal_from (suc fuel) n acc =
    let digit = n % 10 + 48 in
    let rest = decimal_from fuel (n / 10) (digit ∷ acc) in if n / 10 == 0 then digit ∷ acc else rest

unfoldable pub decimal : ℕ → Text
unfolding decimal_from
decimal n = decimal_from (suc n) n []

-- Characters of ASCII, and those that spell a number
unfoldable pub is_ascii : Text → Bool
is_ascii s = all (λ c. ltb c 128) s

abbrev is_digit : ℕ → Bool
is_digit c = leb 48 c && leb c 57

digits-decimal_from :
    (fuel n : ℕ) (acc : Text)
    → all is_digit acc ≡ true
    → all is_digit (decimal_from fuel n acc) ≡ true
unfolding decimal_from
digits-decimal_from zero n acc h = h
digits-decimal_from (suc fuel) n acc h =
    let more : all is_digit ((n % 10 + 48) ∷ acc) ≡ true = ground arith in
    ground (arith, more, digits-decimal_from fuel (n / 10) ((n % 10 + 48) ∷ acc) more)

lowered_digits :
    (s : Text) → all is_digit s ≡ true → (is_ascii s ≡ true) × (to_ascii_lowercase s ≡ s)
unfolding is_ascii to_ascii_lowercase ascii_lower
lowered_digits [] h = (refl, refl)
lowered_digits (c ∷ s) h =
    let ih = lowered_digits s (ground arith) in (ground (arith, ih.0), ground (arith, ih.1))

-- A number is of ASCII, and lowering leaves it.
pub lowered_decimal :
    (n : ℕ) → (is_ascii (decimal n) ≡ true) × (to_ascii_lowercase (decimal n) ≡ decimal n)
unfolding decimal
lowered_decimal n =
    lowered_digits (decimal_from (suc n) n []) (digits-decimal_from (suc n) n [] refl)

pub is_ascii-append : (s t : Text) → is_ascii (s ++ t) ≡ (is_ascii s && is_ascii t)
unfolding is_ascii
is_ascii-append [] t = refl
is_ascii-append (c ∷ s) t = ground (arith, is_ascii-append s t)

pub to_ascii_lowercase-append :
    (s t : Text) → to_ascii_lowercase (s ++ t) ≡ to_ascii_lowercase s ++ to_ascii_lowercase t
unfolding to_ascii_lowercase
to_ascii_lowercase-append [] t = refl
to_ascii_lowercase-append (c ∷ s) t = ap (λ r. ascii_lower c ∷ r) (to_ascii_lowercase-append s t)

decimal_test : decimal 33299 ≡ text "33299"
unfolding decimal text
decimal_test = refl

-- `str::lines` and `BufRead::lines`: a line ends at a line feed, or at a carriage return and a line
-- feed; the last line may lack its end.
abbrev starts_line_feed : Text → Bool
starts_line_feed [] = false
starts_line_feed (c ∷ s) = c == 10

abbrev push_front : ℕ → List Text → List Text
push_front c [] = (c ∷ []) ∷ []
push_front c (l ∷ ls) = (c ∷ l) ∷ ls

unfoldable pub lines : Text → List Text
lines [] = []
lines (c ∷ s) =
    let rest = lines s in
    if c == 10 then [] ∷ rest else if c == 13 && starts_line_feed s then rest else push_front c rest
