-- ===== src/Prelude/Decimal.antt =====
-- `${n}`: a number in decimal, and that two numbers are never printed alike.
use Prim.Native.Nat.{ℕ, zero, suc, ◌+◌, ◌-◌, ◌*◌, ◌/◌, ◌%◌, ◌≤◌, ◌<◌}
use Prim.Native.Char.{code}
use Prim.Native.String.{String, [], ◌∷◌, ◌++◌}
use mathlib.Core.Path.{◌≡◌, sym, ap, ◌∙◌}
use mathlib.Core.Logic.{inl, inr}
use native.Mathlib.Omega.{arith}
use text.Mathlib.TextLemmas.{nil-append, cons-append}
use dolssh.Prelude.Tests.{if◌then◌else◌, ltb, Bool-cases}

digit : ℕ → String
digit zero = "0"
digit (suc zero) = "1"
digit (suc (suc zero)) = "2"
digit (suc (suc (suc zero))) = "3"
digit (suc (suc (suc (suc zero)))) = "4"
digit (suc (suc (suc (suc (suc zero))))) = "5"
digit (suc (suc (suc (suc (suc (suc zero)))))) = "6"
digit (suc (suc (suc (suc (suc (suc (suc zero))))))) = "7"
digit (suc (suc (suc (suc (suc (suc (suc (suc zero)))))))) = "8"
digit (suc (suc (suc (suc (suc (suc (suc (suc (suc _))))))))) = "9"

-- Recursion on fuel; `n` itself is enough of it.
decimal_from : ℕ → ℕ → String
decimal_from zero n = digit n
decimal_from (suc fuel) n =
    let rest = decimal_from fuel (n / 10) ++ digit (n % 10) in if ltb n 10 then digit n else rest

unfoldable pub decimal : ℕ → String
unfolding decimal_from digit
decimal n = decimal_from n n

pub value : ℕ → String → ℕ
value acc [] = acc
value acc (c ∷ s) = value (acc * 10 + (code c - 48)) s

value-append : (acc : ℕ) (s t : String) → value acc (s ++ t) ≡ value (value acc s) t
unfolding value
value-append acc [] t = rw nil-append
value-append acc (c ∷ s) t = rw cons-append (value-append (acc * 10 + (code c - 48)) s t)

value-digit : (acc n : ℕ) → n < 10 → value acc (digit n) ≡ acc * 10 + n
unfolding value digit
value-digit acc zero h = omega arith
value-digit acc (suc zero) h = omega arith
value-digit acc (suc (suc zero)) h = omega arith
value-digit acc (suc (suc (suc zero))) h = omega arith
value-digit acc (suc (suc (suc (suc zero)))) h = omega arith
value-digit acc (suc (suc (suc (suc (suc zero))))) h = omega arith
value-digit acc (suc (suc (suc (suc (suc (suc zero)))))) h = omega arith
value-digit acc (suc (suc (suc (suc (suc (suc (suc zero))))))) h = omega arith
value-digit acc (suc (suc (suc (suc (suc (suc (suc (suc zero)))))))) h = omega arith
value-digit acc (suc (suc (suc (suc (suc (suc (suc (suc (suc zero))))))))) h = omega arith
value-digit acc (suc (suc (suc (suc (suc (suc (suc (suc (suc (suc n)))))))))) h =
    absurd (omega arith)

-- A number printed and read again.
value-decimal_from : (fuel n : ℕ) → n ≤ fuel → value 0 (decimal_from fuel n) ≡ n
unfolding decimal_from
value-decimal_from zero n h = omega (arith, value-digit 0 n (omega arith))
value-decimal_from (suc fuel) n h = elim (Bool-cases (ltb n 10)) [
  | inl small ↦ rw small (omega (arith, value-digit 0 n (ground arith)))
  | inr large ↦
      rw
        (
          large,
          value-append 0 (decimal_from fuel (n / 10)) (digit (n % 10)),
          value-decimal_from fuel (n / 10) (ground arith),
        )
        (omega (arith, value-digit (n / 10) (n % 10) (omega arith)))
]

pub value-decimal : (n : ℕ) → value 0 (decimal n) ≡ n
unfolding decimal
value-decimal n = value-decimal_from n n (omega arith)

pub decimal_injective : (m n : ℕ) → decimal m ≡ decimal n → m ≡ n
decimal_injective m n h = sym (value-decimal m) ∙ ap (value 0) h ∙ value-decimal n
