-- ===== src/CommentFilter/Grammar/Sample.antt =====
-- A small library of combinators that does what nom documents, for the tests.
use ofborg.Base.{
  ℕ, zero, suc, ◌<◌, Bool, true, false, ltb, ◌==◌, List, [], ◌∷◌, ◌++◌, all, length, take, drop,
  Text, ascii_lower, to_ascii_lowercase, ◌≡◌, refl, ap, ◌∙◌, inl, inr, arith, Bool-cases,
  if◌then◌else◌,
}
use ofborg.CommentFilter.Grammar.{Outcome, done, error, Parser, Nom}
use ofborg.CommentFilter.Grammar.Documented.{skip, ends, IsNom}
use ofborg.CommentFilter.Grammar.Tokens.{length-skip}

-- the text itself, where it starts with the other one up to `same`
prefix : (ℕ → ℕ → Bool) → Text → Text → Outcome Text
prefix same [] s = done s []
prefix same (c ∷ t) [] = error
prefix same (c ∷ t) (d ∷ s) =
    let later = prefix same t s in
    elim later [ done r u ↦ (if same c d then done r (d ∷ u) else error) | error ↦ error ]

span : (ℕ → Bool) → Text → Text × Text
span p [] = ([], [])
span p (c ∷ s) = let later = span p s in if p c then (c ∷ later.0, later.1) else ([], c ∷ s)

nonempty : Text × Text → Outcome Text
nonempty ([], r) = error
nonempty (c ∷ t, r) = done r (c ∷ t)

more : {A : Type 0} → Text → A → Outcome (List A) → Outcome (List A)
more r a (done t l) = done t (a ∷ l)
more r a error = done (skip r) (a ∷ [])

many : {A : Type 0} → ℕ → Parser A → Text → Outcome (List A)
unfolding more
many zero p s = error
many (suc n) p s = elim (p (skip s)) [
  | error ↦ error
  | done r a ↦
      let later = many n p r in if ltb (length r) (length (skip s)) then more r a later else error
]

till : {A B : Type 0} → ℕ → Parser A → Parser B → Text → Outcome (List A × B)
till zero p q s = error
till (suc n) p q s = elim (q s) [
  | done r b ↦ done r ([], b)
  | error ↦ elim (p s) [
    | error ↦ error
    | done r a ↦
        let later = till n p q r in elim later [ done t l ↦ done t (a ∷ l.0, l.1) | error ↦ error ]
  ]
]

abbrev alike : ℕ → ℕ → Bool
alike c d = ascii_lower c == ascii_lower d

abbrev at_end : Text → Outcome Text
at_end [] = done [] []
at_end (c ∷ s) = error

unfoldable pub sample : Nom
unfolding prefix span nonempty till many
sample = record {
  tag = prefix (λ c d. c == d);
  tag_no_case = prefix alike;
  take_while1 = λ p s. nonempty (span p s);
  take = λ n s. if ltb (length s) n then error else done (drop n s) (take n s);
  eof = at_end;
  alt = λ p q s. elim (p s) [ done r a ↦ done r a | error ↦ q s ];
  verify = λ p f s. elim (p s) [ done r a ↦ (if f a then done r a else error) | error ↦ error ];
  map_result = λ p f s. elim (p s) [ done r a ↦ done r (f a) | error ↦ error ];
  value = λ b p s. elim (p s) [ done r a ↦ done r b | error ↦ error ];
  value_of_nothing = λ b s. done s b;
  many_till = λ p q s. till (suc (length s)) p q s;
  do_parse = λ p q f s. elim (p s) [
    | done r a ↦ elim (q r) [ done t b ↦ done t (f a) | error ↦ error ]
    | error ↦ error
  ];
  ws_do_parse = λ p q f s. elim (p (skip s)) [
    | done r a ↦ elim (q (skip r)) [ done t b ↦ done (skip t) (f b) | error ↦ error ]
    | error ↦ error
  ];
  ws_preceded = λ p q s. elim (p (skip s)) [
    | done r a ↦ elim (q (skip r)) [ done t b ↦ done (skip t) b | error ↦ error ]
    | error ↦ error
  ];
  ws_many1 = λ p s. many (suc (length s)) p s;
}

prefix-alike :
    (t u s : Text)
    → to_ascii_lowercase u ≡ to_ascii_lowercase t
    → prefix alike t (u ++ s) ≡ done s u
unfolding prefix to_ascii_lowercase
prefix-alike [] [] s h = refl
prefix-alike [] (d ∷ u) s h = ground arith
prefix-alike (c ∷ t) [] s h = ground arith
prefix-alike (c ∷ t) (d ∷ u) s h =
    let later : to_ascii_lowercase u ≡ to_ascii_lowercase t = ground (arith, h) in
    let first : ascii_lower d ≡ ascii_lower c = ground (arith, h) in
    rw (prefix-alike t u s later) (ground (arith, first))

prefix-same : (t s : Text) → prefix (λ c d. c == d) t (t ++ s) ≡ done s t
unfolding prefix
prefix-same [] s = refl
prefix-same (c ∷ t) s = rw (prefix-same t s) (ground arith)

prefix_differs :
    (same : ℕ → ℕ → Bool) (c d : ℕ) (t s : Text)
    → same c d ≡ false
    → prefix same (c ∷ t) (d ∷ s) ≡ error
unfolding prefix
prefix_differs same c d t s h = go (prefix same t s)
  where
    go :
        (o : Outcome Text)
        → elim o [ done r u ↦ (if same c d then done r (d ∷ u) else error) | error ↦ error ] ≡ error
    go (done r u) = rw h refl
    go error = refl

span_takes :
    (p : ℕ → Bool) (t s : Text) → all p t ≡ true → ends p s ≡ true → span p (t ++ s) ≡ (t, s)
unfolding span
span_takes p [] [] h e = refl
span_takes p [] (c ∷ s) h e = ground arith
span_takes p (c ∷ t) s h e =
    let first : p c ≡ true = ground (arith, h) in
    let later : all p t ≡ true = ground (arith, h) in rw (first, span_takes p t s later e) refl

many-fuel :
    {A : Type 0} (n m : ℕ) (p : Parser A) (s : Text)
    → length s < n
    → length s < m
    → many n p s ≡ many m p s
unfolding many
many-fuel zero m p s h k = ground arith
many-fuel (suc n) zero p s h k = ground arith
many-fuel {A = A} (suc n) (suc m) p s h k =
    go
      (λ r b.
        many-fuel n m p r (omega (arith, b, length-skip s, h)) (omega (arith, b, length-skip s, k)))
      (p (skip s))
  where
    step : ℕ → Outcome A → Outcome (List A)
    step n o = elim o [
      | error ↦ error
      | done r a ↦
          let later = many n p r in
          if ltb (length r) (length (skip s)) then more r a later else error
    ]

    go :
        ((r : Text) → length r < length (skip s) → many n p r ≡ many m p r)
        → (o : Outcome A) → step n o ≡ step m o
    go same error = refl
    go same (done r a) = elim (Bool-cases (ltb (length r) (length (skip s)))) [
      | inl b ↦ rw b (ap (more r a) (same r (ground (arith, b))))
      | inr b ↦ rw b refl
    ]

many_fails :
    {A : Type 0} (n : ℕ) (p : Parser A) (s : Text) → p (skip s) ≡ error → many n p s ≡ error
unfolding many
many_fails zero p s h = refl
many_fails (suc n) p s h = rw (many, h) refl

many_round :
    {A : Type 0} (n : ℕ) (p : Parser A) (s r : Text) (a : A)
    → p (skip s) ≡ done r a
    → length r < length (skip s)
    → many (suc n) p s ≡ more r a (many n p r)
unfolding many
many_round n p s r a h l =
    let less : ltb (length r) (length (skip s)) ≡ true = ground (arith, l) in
    rw (many, h, less) refl

pub sample-IsNom : IsNom sample
unfolding sample prefix span nonempty till many more
sample-IsNom = record {
  tag_matches = prefix-same;
  tag_differs = λ c d t s h. prefix_differs (λ c d. c == d) c d t s (ground (arith, h));
  tag_no_case_matches = prefix-alike;
  tag_no_case_at_end = λ c t. refl;
  tag_no_case_differs =
      λ b c d e t s k l h. rw (prefix_differs alike c e t s (ground (arith, h))) refl;
  take_while1_takes = λ p c t s h e. rw (span_takes p (c ∷ t) s h e) refl;
  take_while1_refuses = refuses;
  eof_at_end = refl;
  alt_first = λ p q s r a h. rw h refl;
  alt_second = λ p q s h. rw h refl;
  verify_holds = λ p f s r a h k. rw (h, k) refl;
  verify_fails = λ p f s r a h k. rw (h, k) refl;
  verify_error = λ p f s h. rw h refl;
  map_done = λ p f s r a h. rw h refl;
  map_error = λ p f s h. rw h refl;
  value_done = λ b p s r a h. rw h refl;
  do_parse_done = λ p q f s r t a b h k. rw (h, k) refl;
  ws_do_parse_done = λ p q f s r t a b h k. rw (h, k) refl;
  ws_do_parse_error = λ p q f s h. rw h refl;
  ws_preceded_done = λ p q s r t a b h k. rw (h, k) refl;
  ws_preceded_error = λ p q s h. rw h refl;
  ws_many1_once = λ p s r a h l k.
      many_round (length s) p s r a h l ∙ ap (more r a) (many_fails (length s) p r k);
  ws_many1_more = λ p s r t a m h l k.
      many_round (length s) p s r a h l
      ∙ ap (more r a) (
          many-fuel (length s) (suc (length r)) p r (omega (arith, l, length-skip s)) (omega arith)
          ∙ k);
}
  where
    refuses : (p : ℕ → Bool) (s : Text) → ends p s ≡ true → nonempty (span p s) ≡ error
    refuses p [] e = refl
    refuses p (c ∷ s) e = ground arith
