-- ===== src/Evaluation/Commits.antt =====
-- The packages that commit messages name: `parse_commit_messages` of
-- ofborg/src/tasks/eval/nixpkgs.rs.
use ofborg.Base.{
  ℕ, Bool, true, false, not, ◌&&◌, Option, none, some, List, [], ◌∷◌, ◌++◌, map, Text, join, all,
  is_empty, if◌then◌else◌, ◌==◌, ◌≡◌, refl, ap, ◌∙◌, arith, All,
}

-- `splitn(2, c)`, where the text has a `c`: what stands in front of the first.
unfoldable pub before_first : ℕ → Text → Option Text
before_first c [] = none
before_first c (d ∷ s) =
    let rest = before_first c s in
    if d == c then some [] else elim rest [ none ↦ none | some front ↦ some (d ∷ front) ]

abbrev to_first : ℕ → List Text → List Text
to_first d [] = (d ∷ []) ∷ []
to_first d (s ∷ rest) = (d ∷ s) ∷ rest

-- `str::split` at a character
unfoldable pub split : ℕ → Text → List Text
split c [] = [] ∷ []
split c (d ∷ s) = let rest = split c s in if d == c then [] ∷ rest else to_first d rest

-- `str::trim`, with Unicode's white space
module _ (is_space : ℕ → Bool) where
  unfoldable pub trim_start : Text → Text
  trim_start [] = []
  trim_start (c ∷ s) = let rest = trim_start s in if is_space c then rest else c ∷ s

  unfoldable pub trim_end : Text → Text
  trim_end [] = []
  trim_end (c ∷ s) = let rest = trim_end s in if is_empty rest && is_space c then [] else c ∷ rest

  unfoldable pub trim : Text → Text
  unfolding trim_start trim_end
  trim s = trim_end (trim_start s)

  abbrev pieces_of : Option Text → List Text
  pieces_of none = []
  pieces_of (some front) = split b',' front

  -- the pieces of all messages, untrimmed
  unfoldable pub pieces : List Text → List Text
  unfolding before_first split
  pieces [] = []
  pieces (line ∷ messages) = pieces_of (before_first b':' line) ++ pieces messages

  unfoldable pub parse_commit_messages : List Text → List Text
  unfolding trim pieces
  parse_commit_messages messages = map trim (pieces messages)

-- The character does not stand in the text.
unfoldable pub lacks : ℕ → Text → Bool
lacks c [] = true
lacks c (d ∷ s) = not (d == c) && lacks c s

before_first-append : (c : ℕ) (s t : Text) → lacks c s ≡ true → before_first c (s ++ c ∷ t) ≡ some s
unfolding before_first lacks
before_first-append c [] t h = ground arith
before_first-append c (d ∷ s) t h = ground (arith, before_first-append c s t)

split-lacks : (c : ℕ) (s : Text) → lacks c s ≡ true → split c s ≡ s ∷ []
unfolding split lacks
split-lacks c [] h = refl
split-lacks c (d ∷ s) h = ground (arith, split-lacks c s)

split-append : (c : ℕ) (s t : Text) → lacks c s ≡ true → split c (s ++ c ∷ t) ≡ s ∷ split c t
unfolding split lacks
split-append c [] t h = ground arith
split-append c (d ∷ s) t h = ground (arith, split-append c s t)

split-join :
    (c : ℕ) (s : Text) (ss : List Text)
    → all (lacks c) (s ∷ ss) ≡ true
    → split c (join (c ∷ []) (s ∷ ss)) ≡ s ∷ ss
unfolding join
split-join c s [] h = split-lacks c s (ground arith)
split-join c s (t ∷ ss) h =
    split-append c s (join (c ∷ []) (t ∷ ss)) (ground arith)
    ∙ ap (λ r. s ∷ r) (split-join c t ss (ground arith))

lacks-append : (c : ℕ) (s t : Text) → lacks c (s ++ t) ≡ (lacks c s && lacks c t)
unfolding lacks
lacks-append c [] t = refl
lacks-append c (d ∷ s) t = ground (arith, lacks-append c s t)

lacks-join :
    (c d : ℕ) (ss : List Text)
    → (d == c) ≡ false
    → all (lacks c) ss ≡ true
    → lacks c (join (d ∷ []) ss) ≡ true
unfolding join lacks
lacks-join c d [] e h = refl
lacks-join c d (s ∷ []) e h = ground arith
lacks-join c d (s ∷ t ∷ ss) e h =
    ground (arith, lacks-append c s (d ∷ join (d ∷ []) (t ∷ ss)), lacks-join c d (t ∷ ss) e)

map-trim :
    (is_space : ℕ → Bool) (ss : List Text)
    → All (λ s. trim is_space s ≡ s) ss
    → map (trim is_space) ss ≡ ss
map-trim is_space [] h = refl
map-trim is_space (s ∷ ss) (e, h) =
    ap (λ r. r ∷ map (trim is_space) ss) e ∙ ap (λ r. s ∷ r) (map-trim is_space ss h)

map-append : {A B : Type 0} (f : A → B) (xs ys : List A) → map f (xs ++ ys) ≡ map f xs ++ map f ys
map-append f [] ys = refl
map-append f (x ∷ xs) ys = ap (λ r. f x ∷ r) (map-append f xs ys)

-- Names without a colon or a comma, and without white space around them, are read back from the subject
-- that lists them in front of its first colon, whatever the note behind the colon says; the names of
-- the other messages follow.
pub parse_commit_messages-join :
    (is_space : ℕ → Bool) (name : Text) (names : List Text) (note : Text) (messages : List Text)
    → all (lacks b',') (name ∷ names) ≡ true
    → all (lacks b':') (name ∷ names) ≡ true
    → All (λ s. trim is_space s ≡ s) (name ∷ names)
    → parse_commit_messages is_space ((join (b',' ∷ []) (name ∷ names) ++ b':' ∷ note) ∷ messages)
      ≡ (name ∷ names) ++ parse_commit_messages is_space messages
unfolding parse_commit_messages pieces
parse_commit_messages-join is_space name names note messages commas colons trims =
    let subject = join (b',' ∷ []) (name ∷ names) in
    ap (λ o. map (trim is_space) (pieces_of is_space o ++ pieces is_space messages))
      (before_first-append b':' subject note (lacks-join b':' b',' (name ∷ names) refl colons))
    ∙ map-append (trim is_space) (split b',' subject) (pieces is_space messages)
    ∙ ap (λ r. map (trim is_space) r ++ map (trim is_space) (pieces is_space messages))
        (split-join b',' name names commas)
    ∙ ap (λ r. r ++ map (trim is_space) (pieces is_space messages))
        (map-trim is_space (name ∷ names) trims)
