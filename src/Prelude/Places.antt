-- ===== src/Prelude/Places.antt =====
-- What stands at a place of a list.
use Prim.Native.Nat.{ℕ, zero, suc, ◌≤◌, ◌<◌}
use Prim.Native.String.{String}
use mathlib.Core.Path.{◌≡◌, refl}
use mathlib.Core.Logic.{◌⊎◌, inl, inr}
use mathlib.Core.Bool.{true}
use mathlib.Core.List.{List, [], ◌∷◌, ◌++◌}
use mathlib.Core.Option.{some}
use native.Mathlib.Omega.{arith}
use dolssh.Prelude.Tests.{◌==◌}
use dolssh.Prelude.Lists.{length, get_elem?, take, drop, includes, index_by}

module _ {ℓ} {A : Type ℓ} where
  pub get_elem?-snoc :
      (xs : List A) (x y : A) (q : ℕ)
      → get_elem? (xs ++ x ∷ []) q ≡ some y
      → (get_elem? xs q ≡ some y) ⊎ (y ≡ x)
  get_elem?-snoc [] x y zero h = inr cc
  get_elem?-snoc [] x y (suc q) h = cc
  get_elem?-snoc (z ∷ xs) x y zero h = inl h
  get_elem?-snoc (z ∷ xs) x y (suc q) h = get_elem?-snoc xs x y q h

  pub get_elem?-more :
      (xs ys : List A) (y : A) (q : ℕ) → get_elem? xs q ≡ some y → get_elem? (xs ++ ys) q ≡ some y
  get_elem?-more [] ys y q h = cc
  get_elem?-more (z ∷ xs) ys y zero h = h
  get_elem?-more (z ∷ xs) ys y (suc q) h = get_elem?-more xs ys y q h

  pub get_elem?-last : (xs : List A) (x : A) → get_elem? (xs ++ x ∷ []) (length xs) ≡ some x
  get_elem?-last [] x = refl
  get_elem?-last (z ∷ xs) x = get_elem?-last xs x

  pub get_elem?-lt : (xs : List A) (n : ℕ) (y : A) → get_elem? xs n ≡ some y → n < length xs
  get_elem?-lt [] n y h = cc
  get_elem?-lt (x ∷ xs) zero y h = omega arith
  get_elem?-lt (x ∷ xs) (suc n) y h = omega (arith, get_elem?-lt xs n y h)

  pub get_elem?-take : (m n : ℕ) (xs : List A) → n < m → get_elem? (take m xs) n ≡ get_elem? xs n
  get_elem?-take zero n xs h = absurd (omega arith)
  get_elem?-take (suc m) n [] h = refl
  get_elem?-take (suc m) zero (x ∷ xs) h = refl
  get_elem?-take (suc m) (suc n) (x ∷ xs) h = get_elem?-take m n xs (omega arith)

-- A text at a place of a slice is in the slice.
pub includes-slice :
    (a b i : ℕ) (s : String) (xs : List String)
    → get_elem? xs i ≡ some s
    → a ≤ i
    → i < b
    → includes s (drop a (take b xs)) ≡ true
includes-slice a b i s [] h k l = cc
includes-slice a zero i s (x ∷ xs) h k l = absurd (omega arith)
includes-slice zero (suc b) zero s (x ∷ xs) h k l = ground arith
includes-slice zero (suc b) (suc i) s (x ∷ xs) h k l =
    ground (arith, includes-slice zero b i s xs h (omega arith) (omega arith))
includes-slice (suc a) (suc b) zero s (x ∷ xs) h k l = absurd (omega arith)
includes-slice (suc a) (suc b) (suc i) s (x ∷ xs) h k l =
    includes-slice a b i s xs h (omega arith) (omega arith)

-- What is in a slice is in the list.
pub includes-drop-take :
    (a b : ℕ) (s : String) (xs : List String)
    → includes s (drop a (take b xs)) ≡ true
    → includes s xs ≡ true
includes-drop-take zero zero s xs h = cc
includes-drop-take (suc a) zero s xs h = cc
includes-drop-take zero (suc b) s [] h = h
includes-drop-take (suc a) (suc b) s [] h = h
includes-drop-take zero (suc b) s (x ∷ xs) h = ground (arith, includes-drop-take zero b s xs)
includes-drop-take (suc a) (suc b) s (x ∷ xs) h = ground (arith, includes-drop-take a b s xs)

pub index_by-place :
    (s : String) (xs : List String) (i : ℕ)
    → index_by (λ x. x == s) xs ≡ some i
    → get_elem? xs i ≡ some s
index_by-place s [] i h = cc
index_by-place s (x ∷ xs) zero h = ground arith
index_by-place s (x ∷ xs) (suc i) h = ground (arith, index_by-place s xs i)
