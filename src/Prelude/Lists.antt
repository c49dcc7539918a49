-- ===== src/Prelude/Lists.antt =====
-- Lists measured and indexed by native numbers, and the array methods of the source: `filter`,
-- `find`, `findIndex`, `some`, `includes`, `slice` and the inserting `splice`.
use Prim.Native.Nat.add
use Prim.Native.Nat.{ℕ, zero, suc, ◌+◌, ◌-◌, ◌≤◌, ◌<◌, min}
use Prim.Native.String.{String}
use mathlib.Core.Path.{◌≡◌, refl, ap}
use mathlib.Core.Bool.{Bool, true, false, ◌||◌}
use mathlib.Core.List.{List, [], ◌∷◌, ◌++◌}
use mathlib.Core.Option
use mathlib.Core.Option.{Option, none, some}
use native.Mathlib.Omega.{arith}
use dolssh.Prelude.Tests.{if◌then◌else◌, ◌==◌}

module _ {ℓ} {A : Type ℓ} where
  abbrev pub length : List A → ℕ
  length [] = 0
  length (x ∷ xs) = suc (length xs)

  abbrev pub get_elem? : List A → ℕ → Option A
  get_elem? [] i = none
  get_elem? (x ∷ xs) zero = some x
  get_elem? (x ∷ xs) (suc i) = get_elem? xs i

  abbrev pub take : ℕ → List A → List A
  take zero xs = []
  take (suc n) [] = []
  take (suc n) (x ∷ xs) = x ∷ take n xs

  abbrev pub drop : ℕ → List A → List A
  drop zero xs = xs
  drop (suc n) [] = []
  drop (suc n) (x ∷ xs) = drop n xs

  pub length-append : (xs ys : List A) → length (xs ++ ys) ≡ length xs + length ys
  length-append [] ys = omega arith
  length-append (x ∷ xs) ys = omega (arith, length-append xs ys)

  pub length-take : (n : ℕ) (xs : List A) → length (take n xs) ≡ min n (length xs)
  length-take zero xs = omega arith
  length-take (suc n) [] = omega arith
  length-take (suc n) (x ∷ xs) = omega (arith, length-take n xs)

  pub length-drop : (n : ℕ) (xs : List A) → length (drop n xs) ≡ length xs - n
  length-drop zero xs = omega arith
  length-drop (suc n) [] = omega arith
  length-drop (suc n) (x ∷ xs) = omega (arith, length-drop n xs)

  pub take-append-drop : (n : ℕ) (xs : List A) → take n xs ++ drop n xs ≡ xs
  take-append-drop zero xs = refl
  take-append-drop (suc n) [] = refl
  take-append-drop (suc n) (x ∷ xs) = ap (◌∷◌ x) (take-append-drop n xs)

-- The methods that take a test.
module _ {ℓ} {A : Type ℓ} (test : A → Bool) where
  abbrev pub filter_by : List A → List A
  filter_by [] = []
  filter_by (x ∷ xs) = if test x then x ∷ filter_by xs else filter_by xs

  abbrev pub find_by : List A → Option A
  find_by [] = none
  find_by (x ∷ xs) = if test x then some x else find_by xs

  -- `findIndex`, with `none` for -1.
  abbrev pub index_by : List A → Option ℕ
  index_by [] = none
  index_by (x ∷ xs) = if test x then some 0 else Option.map suc (index_by xs)

  abbrev pub any_by : List A → Bool
  any_by [] = false
  any_by (x ∷ xs) = test x || any_by xs

  -- `map`, with a change at the elements that pass the test.
  abbrev pub map_where : (A → A) → List A → List A
  map_where f [] = []
  map_where f (x ∷ xs) = (if test x then f x else x) ∷ map_where f xs

-- `includes` on texts.
abbrev pub includes : String → List String → Bool
includes s [] = false
includes s (x ∷ xs) = x == s || includes s xs

-- `xs.splice(i, 0, y)`: an index past the end appends.
abbrev pub insert_at {ℓ} : {A : Type ℓ} → ℕ → A → List A → List A
insert_at zero y xs = y ∷ xs
insert_at (suc i) y [] = y ∷ []
insert_at (suc i) y (x ∷ xs) = x ∷ insert_at i y xs

-- How often a text stands in a list.
abbrev pub count : String → List String → ℕ
count s [] = 0
count s (x ∷ xs) = (if x == s then 1 else 0) + count s xs

pub count-append : (s : String) (xs ys : List String) → count s (xs ++ ys) ≡ count s xs + count s ys
count-append s [] ys = omega arith
count-append s (x ∷ xs) ys = omega (arith, count-append s xs ys)

pub includes-append :
    (s : String) (xs ys : List String) → includes s (xs ++ ys) ≡ (includes s xs || includes s ys)
includes-append s [] ys = refl
includes-append s (x ∷ xs) ys = ground (arith, includes-append s xs ys)

pub includes-count : (s : String) (xs : List String) → includes s xs ≡ true → 1 ≤ count s xs
includes-count s [] h = ground arith
includes-count s (x ∷ xs) h = ground (arith, includes-count s xs)

pub not_includes-count : (s : String) (xs : List String) → includes s xs ≡ false → count s xs ≡ 0
not_includes-count s [] h = refl
not_includes-count s (x ∷ xs) h = ground (arith, not_includes-count s xs)

pub count-filter_by :
    (test : String → Bool) (s : String) (xs : List String)
    → count s (filter_by test xs) ≡ (if test s then count s xs else 0)
count-filter_by test s [] = ground arith
count-filter_by test s (x ∷ xs) = ground (arith, count-filter_by test s xs)

module _ {ℓ} {A : Type ℓ} where
  abbrev pub get_or : List A → ℕ → A → A
  get_or [] i d = d
  get_or (x ∷ xs) zero d = x
  get_or (x ∷ xs) (suc i) d = get_or xs i d

  pub get_or-append :
      (xs ys : List A) (i : ℕ) (d : A) → i < length xs → get_or (xs ++ ys) i d ≡ get_or xs i d
  get_or-append [] ys i d h = elim h [ ]
  get_or-append (x ∷ xs) ys zero d h = refl
  get_or-append (x ∷ xs) ys (suc i) d h = get_or-append xs ys i d (omega arith)

  pub take-append_le : (n : ℕ) (xs ys : List A) → n ≤ length xs → take n (xs ++ ys) ≡ take n xs
  take-append_le zero xs ys h = refl
  take-append_le (suc n) [] ys h = elim h [ ]
  take-append_le (suc n) (x ∷ xs) ys h = ap (◌∷◌ x) (take-append_le n xs ys (omega arith))

  pub drop-append_le :
      (n : ℕ) (xs ys : List A) → n ≤ length xs → drop n (xs ++ ys) ≡ drop n xs ++ ys
  drop-append_le zero xs ys h = refl
  drop-append_le (suc n) [] ys h = elim h [ ]
  drop-append_le (suc n) (x ∷ xs) ys h = drop-append_le n xs ys (omega arith)

  pub take-append_self : (xs ys : List A) → take (length xs) (xs ++ ys) ≡ xs
  take-append_self [] ys = refl
  take-append_self (x ∷ xs) ys = ap (◌∷◌ x) (take-append_self xs ys)

  pub drop-append_self : (xs ys : List A) → drop (length xs) (xs ++ ys) ≡ ys
  drop-append_self [] ys = refl
  drop-append_self (x ∷ xs) ys = drop-append_self xs ys

  pub drop-add : (a b : ℕ) (xs : List A) → drop (a + b) xs ≡ drop b (drop a xs)
  drop-add zero b xs = rw add.zero refl
  drop-add (suc a) zero [] = rw (add.suc a zero)
  drop-add (suc a) (suc b) [] = rw (add.suc a (suc b))
  drop-add (suc a) b (x ∷ xs) = rw (add.suc a b) (drop-add a b xs)

  -- `xs.slice(-n)` where xs is longer than n, and xs where it is not.
  abbrev pub last_of : ℕ → List A → List A
  last_of n xs = drop (length xs - n) xs

  pub last_of-short : (n : ℕ) (xs : List A) → length xs ≤ n → last_of n xs ≡ xs
  last_of-short n xs h = let none_left : length xs - n ≡ 0 = omega arith in rw none_left refl

  pub length-last_of : (n : ℕ) (xs : List A) → length (last_of n xs) ≡ min (length xs) n
  length-last_of n xs = omega (arith, length-drop (length xs - n) xs)

  -- What is dropped early would be dropped later as well.
  pub last_of-append :
      (n : ℕ) (xs ys : List A) → last_of n (last_of n xs ++ ys) ≡ last_of n (xs ++ ys)
  last_of-append n xs ys =
      let k = length xs - n in
      let a = length (drop k (xs ++ ys)) - n in
      let whole : k + a ≡ length (xs ++ ys) - n =
        omega (arith, length-drop k (xs ++ ys), length-append xs ys) in
      rw (← drop-append_le k xs ys (omega arith), ← drop-add k a (xs ++ ys), whole) refl
