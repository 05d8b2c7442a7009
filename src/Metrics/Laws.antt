-- ===== src/Metrics/Laws.antt =====
-- What the build writes of a name and of a metric: ofborg/build.rs.
use mathlib.Core.List.{append-nil, append_assoc}
use ofborg.Base.{
  ℕ, suc, ◌+◌, ◌⊎◌, Bool, true, false, not, ◌&&◌, List, [], ◌∷◌, ◌++◌, map, length, length-append,
  all, All, Text, text, join, Occurs, ◌≡◌, refl, sym, ap, ◌∙◌, inl, inr, arith, Bool-cases,
  if◌then◌else◌,
}
use ofborg.Metrics.{
  MetricType, ticker, counter, metric_of, enum_index_types, enum_index_names, extra_names,
  extra_types, enum_field_types, enum_field_names, record_value, variant_with, enum_matcher_types,
  parts_from, name_to_parts,
}
use ofborg.Metrics.Generated.{key_names, key_types, ignoring_pattern, binding_pattern}

join_nil : (p : Text) (ps : List Text) → join [] (p ∷ ps) ≡ p ++ join [] ps
unfolding join
join_nil p [] = sym (append-nil p)
join_nil p (q ∷ ps) = refl

-- The first part is the name's beginning; each other one starts with a capital letter, and no part
-- has one behind its start.
module _ (is_uppercase : ℕ → Bool) where
  unfoldable pub is_part : Text → Bool
  is_part [] = false
  is_part (c ∷ cs) = all (λ d. not (is_uppercase d)) cs

  unfoldable pub is_capital : Text → Bool
  is_capital [] = false
  is_capital (c ∷ cs) = is_uppercase c

  unfoldable pub is_cut : List Text → Bool
  unfolding is_part is_capital
  is_cut [] = true
  is_cut (p ∷ ps) = is_part p && all (λ q. is_capital q && is_part q) ps

  -- the loop without its variable for the parts, behind a first character
  cut : Text → Text → List Text
  cut buf [] = buf ∷ []
  cut buf (c ∷ cs) =
      let later = cut (c ∷ []) cs in
      let longer = cut (buf ++ c ∷ []) cs in if is_uppercase c then buf ∷ later else longer

  parts_from-cut :
      (ps : List Text) (b : ℕ) (bs cs : Text)
      → parts_from is_uppercase ps (b ∷ bs) cs ≡ ps ++ cut (b ∷ bs) cs
  unfolding parts_from cut
  parts_from-cut ps b bs [] = refl
  parts_from-cut ps b bs (c ∷ cs) = elim (Bool-cases (is_uppercase c)) [
    | inl h ↦ rw h (
        parts_from-cut (ps ++ (b ∷ bs) ∷ []) c [] cs
        ∙ append_assoc ps ((b ∷ bs) ∷ []) (cut (c ∷ []) cs))
    | inr h ↦ rw h (parts_from-cut ps b (bs ++ c ∷ []) cs)
  ]

  join-cut : (buf cs : Text) → join [] (cut buf cs) ≡ buf ++ cs
  unfolding cut join
  join-cut buf [] = sym (append-nil buf)
  join-cut buf (c ∷ cs) = elim (Bool-cases (is_uppercase c)) [
    | inl h ↦ rw h (join_nil buf (cut (c ∷ []) cs) ∙ ap (λ s. buf ++ s) (join-cut (c ∷ []) cs))
    | inr h ↦ rw h (join-cut (buf ++ c ∷ []) cs ∙ append_assoc buf (c ∷ []) cs)
  ]

  abbrev plain : Text → Bool
  plain = all (λ d. not (is_uppercase d))

  plain-snoc :
      (bs : Text) (c : ℕ) → plain bs ≡ true → is_uppercase c ≡ false → plain (bs ++ c ∷ []) ≡ true
  plain-snoc [] c h k = ground arith
  plain-snoc (b ∷ bs) c h k = ground (arith, plain-snoc bs c)

  abbrev is_rest : List Text → Bool
  is_rest = all (λ q. is_capital q && is_part q)

  -- The first part is the buffer with what follows it, and the other parts are whole.
  cut-is_cut :
      (b : ℕ) (bs cs : Text)
      → plain bs ≡ true
      → (is_cut (cut (b ∷ bs) cs) ≡ true)
        × (is_uppercase b ≡ true → is_rest (cut (b ∷ bs) cs) ≡ true)
  unfolding cut is_cut is_part is_capital
  cut-is_cut b bs [] h = (ground arith, λ k. ground arith)
  cut-is_cut b bs (c ∷ cs) h = elim (Bool-cases (is_uppercase c)) [
    | inl k ↦
        let r : is_rest (cut (c ∷ []) cs) ≡ true = (cut-is_cut c [] cs refl).1 k in
        rw k (ground (arith, h, r), λ u. ground (arith, h, u, r))
    | inr k ↦ rw k (cut-is_cut b (bs ++ c ∷ []) cs (plain-snoc bs c h k))
  ]

  name_to_parts-cut : (c : ℕ) (cs : Text) → name_to_parts is_uppercase (c ∷ cs) ≡ cut (c ∷ []) cs
  unfolding name_to_parts parts_from
  name_to_parts-cut c cs = elim (Bool-cases (is_uppercase c)) [
    | inl h ↦ rw h (parts_from-cut [] c [] cs)
    | inr h ↦ rw h (parts_from-cut [] c [] cs)
  ]

  -- Whatever the name: its parts make up the name again, and each part but the first starts with a
  -- capital letter, no part is empty or has one behind its start.
  pub name_to_parts_lem :
      (name : Text)
      → (join [] (name_to_parts is_uppercase name) ≡ name)
        × (is_cut (name_to_parts is_uppercase name) ≡ true)
  name_to_parts_lem [] = (
    unfold name_to_parts in unfold parts_from in unfold join in refl,
    unfold name_to_parts in unfold parts_from in unfold is_cut in refl,
  )
  name_to_parts_lem (c ∷ cs) = (
    ap (join []) (name_to_parts-cut c cs) ∙ join-cut (c ∷ []) cs,
    ap is_cut (name_to_parts-cut c cs) ∙ (cut-is_cut c [] cs refl).0,
  )

length-map : {A B : Type 0} (f : A → B) (xs : List A) → length (map f xs) ≡ length xs
length-map f [] = refl
length-map f (x ∷ xs) = ap suc (length-map f xs)

Occurs-append : {A : Type 0} (a : A) (xs : List A) → Occurs a (xs ++ a ∷ [])
Occurs-append a [] = inl refl
Occurs-append a (x ∷ xs) = inr (Occurs-append a xs)

-- For every metric: the event that the build declares, and both patterns that it writes for it, are the
-- variant with as many fields: the declaration with their types, the one pattern with a blank for each,
-- the other with a name for each. The parts of the key under which it counts are as many as the
-- columns of the table's type, and each is the worker's name or bound by the pattern. What is added is 1
-- or bound by the pattern.
pub arms_fit :
    (m : MetricType)
    → (types blanks names : List Text) × (enum_matcher_types m ≡ variant_with m types)
      × (ignoring_pattern m ≡ variant_with m blanks)
      × (binding_pattern m ≡ variant_with m names)
      × (length blanks ≡ length types)
      × (length names ≡ length types)
      × All (λ b. b ≡ text "_") blanks
      × (length (key_names m) ≡ length (key_types m))
      × ((name : Text) → Occurs name (key_names m) → (name ≡ text "instance") ⊎ Occurs name names)
      × ((record_value m ≡ text "1") ⊎ Occurs (record_value m) names)
unfolding enum_field_names enum_field_types enum_index_names enum_index_types extra_names
    extra_types key_names key_types record_value enum_matcher_types ignoring_pattern binding_pattern
arms_fit m = (
  enum_field_types m,
  map (λ name. text "_") (enum_field_names m),
  enum_field_names m,
  refl,
  refl,
  refl,
  length-map (λ name. text "_") (enum_field_names m) ∙ names m,
  names m,
  blanks (enum_field_names m),
  keys m,
  bound (enum_index_names m) (extra_names m),
  values m,
)
  where
    indexed : (m : MetricType) → length (enum_index_names m) ≡ length (enum_index_types m)
    indexed m =
        length-map (λ f. f.0) (metric_of m).fields
        ∙ sym (length-map (λ f. f.1) (metric_of m).fields)

    names : (m : MetricType) → length (enum_field_names m) ≡ length (enum_field_types m)
    names (ticker e) =
        length-append (enum_index_names (ticker e)) []
        ∙ ap (λ n. n + 0) (indexed (ticker e))
        ∙ sym (length-append (enum_index_types (ticker e)) [])
    names (counter e) =
        length-append (enum_index_names (counter e)) (extra_names (counter e))
        ∙ ap (λ n. n + 1) (indexed (counter e))
        ∙ sym (length-append (enum_index_types (counter e)) (extra_types (counter e)))

    keys : (m : MetricType) → length (key_names m) ≡ length (key_types m)
    keys m =
        length-append (enum_index_names m) (text "instance" ∷ [])
        ∙ ap (λ n. n + 1) (indexed m)
        ∙ sym (length-append (enum_index_types m) (text "String" ∷ []))

    values :
        (m : MetricType)
        → (record_value m ≡ text "1") ⊎ Occurs (record_value m) (enum_field_names m)
    values (ticker e) = inl refl
    values (counter e) = inr (Occurs-append (text "value") (enum_index_names (counter e)))

    blanks : (ns : List Text) → All (λ b. b ≡ text "_") (map (λ name. text "_") ns)
    blanks [] = tt
    blanks (n ∷ ns) = (refl, blanks ns)

    bound :
        (ns others : List Text) (name : Text)
        → Occurs name (ns ++ text "instance" ∷ [])
        → (name ≡ text "instance") ⊎ Occurs name (ns ++ others)
    bound [] others name (inl e) = inl e
    bound [] others name (inr h) = absurd h
    bound (n ∷ ns) others name (inl e) = inr (inl e)
    bound (n ∷ ns) others name (inr h) = elim (bound ns others name h) [
      | inl e ↦ inl e
      | inr o ↦ inr (inr o)
    ]
