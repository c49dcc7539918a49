-- ===== src/Prelude/Maps.antt =====
-- `Map`s keyed by texts, in the order in which their keys came. The operations are shut: proofs go by
-- the laws, which say what every key has afterwards.
use Prim.Native.String.{String}
use mathlib.Core.Path.{◌≡◌, refl, ◌∙◌}
use mathlib.Core.Bool.{Bool, true, false}
use mathlib.Core.List.{List, [], ◌∷◌}
use mathlib.Core.Option.{Option, none, some}
use native.Mathlib.Omega.{arith}
use dolssh.Prelude.Tests.{◌==◌, ==_iff, if◌then◌else◌}

abbrev pub Map {ℓ} : Type ℓ → Type ℓ
Map V = List (String × V)

module _ {ℓ} {V : Type ℓ} where
  unfoldable pub get : String → Map V → Option V
  get k [] = none
  get k ((j, v) ∷ m) = if j == k then some v else get k m

  unfoldable pub delete : String → Map V → Map V
  delete k [] = []
  delete k ((j, v) ∷ m) = let rest = delete k m in if j == k then rest else (j, v) ∷ rest

  -- A key that is there keeps its place.
  unfoldable pub set : String → V → Map V → Map V
  set k v [] = (k, v) ∷ []
  set k v ((j, w) ∷ m) = let rest = set k v m in if j == k then (j, v) ∷ m else (j, w) ∷ rest

  unfoldable pub keys : Map V → List String
  keys [] = []
  keys ((k, v) ∷ m) = k ∷ keys m

  unfoldable pub values : Map V → List V
  values [] = []
  values ((k, v) ∷ m) = v ∷ values m

  pub get-nil : (k : String) → get k [] ≡ none
  unfolding get
  get-nil k = refl

  pub get-set :
      (j k : String) (v : V) (m : Map V) → get j (set k v m) ≡ (if k == j then some v else get j m)
  unfolding get set
  get-set j k v [] = refl
  get-set j k v ((i, w) ∷ m) = ground (arith, get-set j k v m)

  pub get-delete :
      (j k : String) (m : Map V) → get j (delete k m) ≡ (if k == j then none else get j m)
  unfolding get delete
  get-delete j k [] = ground arith
  get-delete j k ((i, w) ∷ m) = ground (arith, get-delete j k m)

module _ {ℓ} {V : Type ℓ} where
  pub set-here : (k : String) (v : V) (m : Map V) → get k (set k v m) ≡ some v
  set-here k v m = get-set k k v m ∙ rw ((==_iff k k).1 refl) refl

  pub set-other :
      (j k : String) (v : V) (m : Map V) → (k == j) ≡ false → get j (set k v m) ≡ get j m
  set-other j k v m h = get-set j k v m ∙ rw h refl

  pub delete-here : (k : String) (m : Map V) → get k (delete k m) ≡ none
  delete-here k m = get-delete k k m ∙ rw ((==_iff k k).1 refl) refl

  pub delete-other : (j k : String) (m : Map V) → (k == j) ≡ false → get j (delete k m) ≡ get j m
  delete-other j k m h = get-delete j k m ∙ rw h refl

abbrev pub is_some {ℓ} : {A : Type ℓ} → Option A → Bool
is_some none = false
is_some (some a) = true
