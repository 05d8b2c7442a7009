-- ===== src/Nix/Settings.antt =====
-- How the programs of nix read an argument list: `--option`, `--arg` and `--argstr` take a name and a
-- value, `-A` takes an attribute, and any other word stands for itself. An independent reading, for
-- what ofborg/src/nix.rs writes.
use ofborg.Base.{
  List, [], ◌∷◌, ◌++◌, Text, text, text_eq, if◌then◌else◌, ◌≡◌, ◌∙◌, refl, sym, ap, append_assoc,
}

pub data Kind : Type 0 where
  option arg argstr : Kind

pub data Argument : Type 0 where
  word : Text → Argument
  attribute : Text → Argument
  setting : Kind → (name value : Text) → Argument

-- Where in an argument the reading stands.
pub data Awaits : Type 0 where
  nothing an_attribute : Awaits
  a_name : Kind → Awaits
  a_value : Kind → Text → Awaits

unfoldable pub opened : Text → Awaits
opened s =
    if text_eq s (text "--option")
    then a_name option
    else if text_eq s (text "--arg")
    then a_name arg
    else if text_eq s (text "--argstr")
    then a_name argstr
    else if text_eq s (text "-A")
    then an_attribute
    else nothing

unfoldable pub next : Awaits → Text → Awaits
unfolding opened
next nothing s = opened s
next an_attribute s = nothing
next (a_name k) s = a_value k s
next (a_value k n) s = nothing

abbrev alone : Text → Awaits → List Argument
alone s nothing = word s ∷ []
alone s _ = []

unfoldable pub finished : Awaits → Text → List Argument
unfolding opened
finished nothing s = alone s (opened s)
finished an_attribute s = attribute s ∷ []
finished (a_name k) s = []
finished (a_value k n) s = setting k n s ∷ []

-- The arguments, and what is still awaited behind them.
unfoldable pub read : Awaits → List Text → List Argument
unfolding next finished
read m [] = []
read m (s ∷ rest) = finished m s ++ read (next m s) rest

unfoldable pub awaits : Awaits → List Text → Awaits
unfolding next
awaits m [] = m
awaits m (s ∷ rest) = awaits (next m s) rest

-- The options that hold, the arguments for nix's expressions, and the attributes.
unfoldable pub options : List Argument → List (Text × Text)
options [] = []
options (setting option n v ∷ rest) = (n, v) ∷ options rest
options (setting arg n v ∷ rest) = options rest
options (setting argstr n v ∷ rest) = options rest
options (word s ∷ rest) = options rest
options (attribute s ∷ rest) = options rest

unfoldable pub attributes : List Argument → List Text
attributes [] = []
attributes (attribute s ∷ rest) = s ∷ attributes rest
attributes (word s ∷ rest) = attributes rest
attributes (setting k n v ∷ rest) = attributes rest

pub read-append :
    (m : Awaits) (ss ts : List Text) → read m (ss ++ ts) ≡ read m ss ++ read (awaits m ss) ts
unfolding read awaits
read-append m [] ts = refl
read-append m (s ∷ ss) ts =
    ap (λ r. finished m s ++ r) (read-append (next m s) ss ts)
    ∙ sym (append_assoc (finished m s) (read (next m s) ss) (read (awaits (next m s) ss) ts))

pub awaits-append : (m : Awaits) (ss ts : List Text) → awaits m (ss ++ ts) ≡ awaits (awaits m ss) ts
unfolding awaits
awaits-append m [] ts = refl
awaits-append m (s ∷ ss) ts = awaits-append (next m s) ss ts

pub options-append : (a b : List Argument) → options (a ++ b) ≡ options a ++ options b
unfolding options
options-append [] b = refl
options-append (setting option n v ∷ a) b = ap (λ r. (n, v) ∷ r) (options-append a b)
options-append (setting arg n v ∷ a) b = options-append a b
options-append (setting argstr n v ∷ a) b = options-append a b
options-append (word s ∷ a) b = options-append a b
options-append (attribute s ∷ a) b = options-append a b

pub attributes-append : (a b : List Argument) → attributes (a ++ b) ≡ attributes a ++ attributes b
unfolding attributes
attributes-append [] b = refl
attributes-append (attribute s ∷ a) b = ap (λ r. s ∷ r) (attributes-append a b)
attributes-append (word s ∷ a) b = attributes-append a b
attributes-append (setting k n v ∷ a) b = attributes-append a b

-- An argument list that is complete, with its options and its attributes.
pub record Reads (ss : List Text) (os : List (Text × Text)) (as_ : List Text) : Type 0 where
  pub complete : awaits nothing ss ≡ nothing
  pub with_options : options (read nothing ss) ≡ os
  pub with_attributes : attributes (read nothing ss) ≡ as_

pub Reads-append :
    (ss ts : List Text) {os ps : List (Text × Text)} {xs ys : List Text}
    → Reads ss os xs
    → Reads ts ps ys
    → Reads (ss ++ ts) (os ++ ps) (xs ++ ys)
Reads-append ss ts {os} {ps} {xs} {ys} h k = record {
  complete = awaits-append nothing ss ts ∙ ap (λ m. awaits m ts) h.complete ∙ k.complete;
  with_options =
      ap options whole
      ∙ options-append (read nothing ss) (read nothing ts)
      ∙ ap (λ r. r ++ options (read nothing ts)) h.with_options
      ∙ ap (λ r. os ++ r) k.with_options;
  with_attributes =
      ap attributes whole
      ∙ attributes-append (read nothing ss) (read nothing ts)
      ∙ ap (λ r. r ++ attributes (read nothing ts)) h.with_attributes
      ∙ ap (λ r. xs ++ r) k.with_attributes;
}
  where
    whole : read nothing (ss ++ ts) ≡ read nothing ss ++ read nothing ts
    whole = read-append nothing ss ts ∙ ap (λ m. read nothing ss ++ read m ts) h.complete
