-- ===== src/Prelude/Fresh.antt =====
-- The search for a name that is not taken: `n = start; while (taken.has(name(n))) n += 1`.
use dolssh.Prelude.Tests.{if◌then◌else◌, ◌==◌, Bool-cases}
use dolssh.Prelude.Lists.{length, includes, filter_by}
use Prim.Native.Nat.{ℕ, zero, suc, ◌+◌, ◌≤◌, ◌<◌}
use Prim.Native.String.{String}
use mathlib.Core.Path.{◌≡◌, refl, ◌∙◌}
use mathlib.Core.Bool.{true, false, not}
use mathlib.Core.List.{List, [], ◌∷◌}
use mathlib.Core.Logic.{◌≢◌, inl, inr}
use native.Mathlib.Decide.{dec_lt}
use native.Mathlib.Omega.{arith}

module _ (name : ℕ → String) where
  -- On fuel: the loop ends before the fuel does where the fuel is above the number of names.
  unfoldable pub first_free : ℕ → ℕ → List String → ℕ
  first_free zero n taken = n
  first_free (suc fuel) n taken =
      let rest = first_free fuel (suc n) taken in if includes (name n) taken then rest else n

  -- Every number that was passed over is taken.
  pub first_free-least :
      (fuel n k : ℕ) (taken : List String)
      → n ≤ k
      → k < first_free fuel n taken
      → includes (name k) taken ≡ true
  unfolding first_free
  first_free-least zero n k taken h l = absurd (omega arith)
  first_free-least (suc fuel) n k taken h l = elim (Bool-cases (includes (name n) taken)) [
    | inr free ↦ ground arith
    | inl used ↦ elim (dec_lt n k) [
      | yes above ↦ ground (arith, first_free-least fuel (suc n) k taken)
      | no at_start ↦ let e : k ≡ n = omega arith in rw e used
    ]
  ]

-- The names other than one.
drop_name : String → List String → List String
drop_name s = filter_by (λ x. not (x == s))

length-drop_name-le : (s : String) (xs : List String) → length (drop_name s xs) ≤ length xs
unfolding drop_name
length-drop_name-le s [] = omega arith
length-drop_name-le s (x ∷ xs) = ground (arith, length-drop_name-le s xs)

length-drop_name :
    (s : String) (xs : List String) → includes s xs ≡ true → length (drop_name s xs) < length xs
unfolding drop_name
length-drop_name s [] h = cc
length-drop_name s (x ∷ xs) h = ground (arith, length-drop_name s xs, length-drop_name-le s xs)

includes-drop_name :
    (s t : String) (xs : List String) → t ≢ s → includes t (drop_name s xs) ≡ includes t xs
unfolding drop_name
includes-drop_name s t [] h = refl
includes-drop_name s t (x ∷ xs) h = ground (arith, includes-drop_name s t xs)

module _ (name : ℕ → String) (injective : (m n : ℕ) → name m ≡ name n → m ≡ n) where
  -- So many different names are taken only if as many are on the list.
  taken_count :
      (fuel n : ℕ) (taken : List String)
      → ((k : ℕ) → n ≤ k → k < n + fuel → includes (name k) taken ≡ true)
      → fuel ≤ length taken
  taken_count zero n taken all = omega arith
  taken_count (suc fuel) n taken all =
      let shorter = length-drop_name (name n) taken (all n (omega arith) (omega arith)) in
      let rest : fuel ≤ length (drop_name (name n) taken) =
        taken_count fuel (suc n) (drop_name (name n) taken) (λ k h l.
          includes-drop_name (name n) (name k) taken
            (λ e. let same = injective k n e in absurd (omega arith))
          ∙ all k (omega arith) (omega arith)) in
      omega arith

  first_free-stops :
      (fuel n : ℕ) (taken : List String)
      → includes (name (first_free name fuel n taken)) taken ≡ true
      → first_free name fuel n taken ≡ n + fuel
  unfolding first_free
  first_free-stops zero n taken h = omega arith
  first_free-stops (suc fuel) n taken h = ground (arith, first_free-stops fuel (suc n) taken)

  -- With more fuel than names on the list the search ends at a name that is not taken.
  pub first_free_lem :
      (fuel n : ℕ) (taken : List String)
      → length taken < fuel
      → includes (name (first_free name fuel n taken)) taken ≡ false
  first_free_lem fuel n taken h =
      elim (Bool-cases (includes (name (first_free name fuel n taken)) taken)) [
        | inr free ↦ free
        | inl used ↦
            let stop = first_free-stops fuel n taken used in
            let many : fuel ≤ length taken =
              taken_count fuel n taken
                (λ k l u. first_free-least name fuel n k taken l (omega arith)) in
            absurd (omega arith)
      ]
