-- ===== src/CommentFilter/Grammar/Spoken.antt =====
-- Lines as their authors write them, for ofborg/src/commentparser.rs.
use ofborg.Base.{
  Bool, true, false, not, ◌&&◌, List, [], ◌∷◌, ◌++◌, map, all, Text, text, to_ascii_lowercase, All,
  ◌≡◌, ◌⊎◌,
}
use ofborg.Message.{nixpkgs, nixos}
use ofborg.CommentFilter.{Instruction, build, eval}
use ofborg.CommentFilter.Grammar.{is_ascii_graphic, is_name}

pub data Spoken : Type 0 where
  packages tests : List Text → Spoken
  evaluation : Spoken

unfoldable pub meaning : Spoken → Instruction
meaning (packages ts) = build nixpkgs ts
meaning (tests ts) = build nixos (map (λ t. text "tests." ++ t) ts)
meaning evaluation = eval

-- Words behind spaces, and the rest of the line.
unfoldable pub words : List Text → Text → Text
words [] rest = rest
words (t ∷ ts) rest = b' ' ∷ (t ++ words ts rest)

unfoldable pub say : Spoken → Text → Text
unfolding words
say (packages ts) rest = text "build" ++ words ts rest
say (tests ts) rest = text "test" ++ words ts rest
say evaluation rest = text "eval" ++ rest

-- Each instruction behind the name it is addressed to.
unfoldable pub print : List (Text × Spoken) → Text
unfolding say
print [] = []
print ((name, c) ∷ cs) = b' ' ∷ (name ++ (b' ' ∷ say c (print cs)))

unfoldable pub is_token : Text → Bool
unfolding is_name
is_token [] = false
is_token (c ∷ t) = all is_ascii_graphic (c ∷ t) && not (is_name (c ∷ t))

abbrev pub IsGraham : Text → Type 0
IsGraham name = to_ascii_lowercase name ≡ text "@grahamcofborg"

abbrev pub IsOfborg : Text → Type 0
IsOfborg name = to_ascii_lowercase name ≡ text "@ofborg"

-- What may stand behind a list of words: nothing, or an instruction to the older name, since the words
-- only end there.
abbrev pub Ends : List (Text × Spoken) → Type 0
Ends [] = Unit
Ends ((name, c) ∷ cs) = IsGraham name

abbrev pub AreWords : List Text → Type 0
AreWords [] = ⊥
AreWords (t ∷ ts) = All (λ w. is_token w ≡ true) (t ∷ ts)

abbrev pub IsClear : Spoken → List (Text × Spoken) → Type 0
IsClear (packages ts) cs = AreWords ts × Ends cs
IsClear (tests ts) cs = AreWords ts × Ends cs
IsClear evaluation cs = Unit

abbrev pub AreClear : List (Text × Spoken) → Type 0
AreClear [] = Unit
AreClear ((name, c) ∷ cs) = (IsGraham name ⊎ IsOfborg name) × IsClear c cs × AreClear cs
