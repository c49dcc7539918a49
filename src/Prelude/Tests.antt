-- ===== src/Prelude/Tests.antt =====
-- Boolean tests on numbers and texts, and the conditional.
use Prim.Native.Nat.{ℕ, compare, Ordering}
use Prim.Native.String.{String}
use mathlib.Core.Path.{◌≡◌, refl}
use mathlib.Core.Logic.{◌↔◌, ◌⊎◌, inl, inr}
use mathlib.Core.Bool.{Bool, true, false}
use mathlib.Core.Option.{Option, none, some}
use native.Mathlib.Omega.{arith}
use text.Mathlib.Text.{◌==◌ as text_eq}
use text.Mathlib.TextEquality.{eq_iff}

-- These compute to `compare`, which `ground` and `grind` read with no lemma listed.
abbrev pub ltb : ℕ → ℕ → Bool
ltb a b = elim (compare a b) [ Ordering.lt ↦ true | _ ↦ false ]

abbrev pub leb : ℕ → ℕ → Bool
leb a b = elim (compare a b) [ Ordering.gt ↦ false | _ ↦ true ]

infix 1 if◌then◌else◌
abbrev pub if◌then◌else◌ {ℓ} : {A : Type ℓ} → Bool → A → A → A
if true then x else y = x
if false then x else y = y

-- To split on a computed value and keep the equation.
pub Bool-cases : (b : Bool) → (b ≡ true) ⊎ (b ≡ false)
Bool-cases true = inl refl
Bool-cases false = inr refl

pub Option-cases {ℓ} : {A : Type ℓ} (o : Option A) → (o ≡ none) ⊎ ((a : A) × (o ≡ some a))
Option-cases none = inl refl
Option-cases (some a) = inr (a, refl)

-- Texts are decided by the library's comparison.
differs : {s t : String} {b : Bool} → b ≡ false → (s ≡ t → b ≡ true) → ¬ (s ≡ t)
differs e f p = cc (f p)

decide_by : (s t : String) (b : Bool) → ((b ≡ true) ↔ (s ≡ t)) → Dec (s ≡ t)
decide_by s t true e = yes (e.0 refl)
decide_by s t false e = no (differs refl e.1)

unfoldable pub String-discrete : Discrete String
unfolding decide_by differs
String-discrete s t = decide_by s t (text_eq s t) (eq_iff s t)

-- `===` on texts: `ground` and `grind` read it with no lemma listed.
infix 50 ◌==◌ ◌=ℕ=◌
abbrev pub ◌==◌ : String → String → Bool
a == b = elim (String-discrete a b) [ yes _ ↦ true | no _ ↦ false ]

abbrev pub ◌=ℕ=◌ : ℕ → ℕ → Bool
a =ℕ= b = elim (compare a b) [ Ordering.eq ↦ true | _ ↦ false ]

pub ==_iff : (a b : String) → ((a == b) ≡ true) ↔ (a ≡ b)
==_iff a b = ground arith

-- A field that may be null compared with a text: `x?.f === b`.
abbrev pub some_is : Option String → String → Bool
some_is none b = false
some_is (some a) b = a == b

-- `a ?? b`.
abbrev pub or_else {ℓ} : {A : Type ℓ} → Option A → Option A → Option A
or_else none b = b
or_else (some a) b = some a

abbrev pub value_or {ℓ} : {A : Type ℓ} → Option A → A → A
value_or none default = default
value_or (some a) default = a
