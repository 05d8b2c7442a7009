-- ===== src/LogFile/Lines.antt =====
-- The buffer under a write: ofborg/src/writetoline.rs.
use ofborg.Base.{
  ℕ, zero, suc, ◌+◌, ◌-◌, ◌≤◌, ◌<◌, some, List, [], ◌∷◌, ◌++◌, Text, length, replicate, get_elem?,
  length-append, append_assoc, append-nil, ◌≡◌, refl, sym, ap, ◌∙◌, arith, leb, Bool-cases, inl,
  inr, leb→le,
}
use ofborg.LogFile.{pad_to, remove, insert, buffer_with}

-- The buffer after a write, said directly: the old lines, empty lines up to the one written, that
-- one, and the old lines behind it.
abbrev pub put : ℕ → Text → List Text → List Text
put zero s [] = s ∷ []
put zero s (x ∷ xs) = s ∷ xs
put (suc i) s [] = [] ∷ put i s []
put (suc i) s (x ∷ xs) = x ∷ put i s xs

abbrev pad : ℕ → List Text → List Text
pad n xs = xs ++ replicate n []

pad_none : (n : ℕ) (xs : List Text) → n ≡ 0 → pad n xs ≡ xs
pad_none zero xs h = append-nil xs
pad_none (suc n) xs h = absurd (omega arith)

pad_to-pad :
    (fuel line : ℕ) (xs : List Text)
    → suc line ≤ length xs + fuel
    → pad_to fuel line xs ≡ pad (suc line - length xs) xs
unfolding pad_to
pad_to-pad zero line xs h = sym (pad_none (suc line - length xs) xs (omega arith))
pad_to-pad (suc fuel) line xs h = elim (Bool-cases (leb (length xs) line)) [
  | inl e ↦ rw e (
      pad_to-pad fuel line (xs ++ [] ∷ []) (omega (arith, length-append xs ([] ∷ [])))
      ∙ append_assoc xs ([] ∷ []) _
      ∙ ap (λ n. pad n xs) (grown (leb→le _ _ e)))
  | inr e ↦ rw e (sym (pad_none (suc line - length xs) xs (ground arith)))
]
  where
    grown : length xs ≤ line → suc (suc line - length (xs ++ [] ∷ [])) ≡ suc line - length xs
    grown k = omega (arith, length-append xs ([] ∷ []))

insert-remove-pad :
    (line : ℕ) (s : Text) (xs : List Text)
    → insert line s (remove line (pad (suc line - length xs) xs)) ≡ put line s xs
insert-remove-pad zero s [] = refl
insert-remove-pad zero s (x ∷ xs) =
    let e : 1 - suc (length xs) ≡ 0 = omega arith in
    ap (λ l. s ∷ l) (pad_none (1 - suc (length xs)) xs e)
insert-remove-pad (suc i) s [] =
    let e : suc (suc i) - 0 ≡ suc (suc i - 0) = omega arith in
    rw e (ap (λ l. [] ∷ l) (insert-remove-pad i s []))
insert-remove-pad (suc i) s (x ∷ xs) =
    let e : suc (suc i) - suc (length xs) ≡ suc i - length xs = omega arith in
    rw e (ap (λ l. x ∷ l) (insert-remove-pad i s xs))

-- The growing loop, `remove` and `insert` together put the line.
pub buffer_with-put : (line : ℕ) (s : Text) (xs : List Text) → buffer_with line s xs ≡ put line s xs
unfolding buffer_with
buffer_with-put line s xs =
    rw (pad_to-pad (suc line) line xs (omega arith)) (insert-remove-pad line s xs)

pub get_elem?-put_self :
    (line : ℕ) (s : Text) (xs : List Text) → get_elem? (put line s xs) line ≡ some s
get_elem?-put_self zero s [] = refl
get_elem?-put_self zero s (x ∷ xs) = refl
get_elem?-put_self (suc i) s [] = get_elem?-put_self i s []
get_elem?-put_self (suc i) s (x ∷ xs) = get_elem?-put_self i s xs

-- A put within the old lines, and one at their end or behind it.
pub length-put_old :
    (line : ℕ) (s : Text) (xs : List Text) → line < length xs → length (put line s xs) ≡ length xs
length-put_old zero s (x ∷ xs) h = refl
length-put_old (suc i) s (x ∷ xs) h = ap suc (length-put_old i s xs (omega arith))
length-put_old line s [] h = absurd (omega arith)

pub put_new :
    (line : ℕ) (s : Text) (xs : List Text)
    → length xs ≤ line
    → put line s xs ≡ xs ++ put (line - length xs) s []
put_new line s [] h = let e : line - 0 ≡ line = omega arith in rw e refl
put_new zero s (x ∷ xs) h = absurd (omega arith)
put_new (suc i) s (x ∷ xs) h =
    let e : suc i - suc (length xs) ≡ i - length xs = omega arith in
    rw e (ap (λ l. x ∷ l) (put_new i s xs (omega arith)))

pub length-put_nil : (n : ℕ) (s : Text) → length (put n s []) ≡ suc n
length-put_nil zero s = refl
length-put_nil (suc n) s = ap suc (length-put_nil n s)
