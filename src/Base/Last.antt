-- ===== src/Base/Last.antt =====
-- The last elements of a list.
use Prim.Native.Nat.{ℕ, zero, suc, ◌-◌, ◌≤◌}
use mathlib.Core.Path.{◌≡◌, refl, ap}
use mathlib.Core.List.{List, ◌∷◌}
use native.Mathlib.Omega.{arith}
use ofborg.Base.Lists.{length, drop}

module _ {ℓ} {A : Type ℓ} where
  -- the last `n` elements, or all if there are fewer
  abbrev pub last : ℕ → List A → List A
  last n xs = drop (length xs - n) xs

  pub last_all : (n : ℕ) (xs : List A) → length xs ≤ n → last n xs ≡ xs
  last_all n xs h = go (length xs - n) (omega arith)
    where
      go : (k : ℕ) → k ≡ 0 → drop k xs ≡ xs
      go zero e = refl
      go (suc k) e = absurd (omega arith)

  pub last-cons : (n : ℕ) (x : A) (xs : List A) → n ≤ length xs → last n (x ∷ xs) ≡ last n xs
  last-cons n x xs h =
      let e : suc (length xs) - n ≡ suc (length xs - n) = omega arith in ap (λ k. drop k (x ∷ xs)) e
