-- ===== src/Prelude/Text/Digits.antt =====
-- Decimal digits can be read back, so no two numbers have the same.
use Prim.Native.Nat.{ℕ, zero, suc, ◌+◌, ◌-◌, ◌*◌, ◌/◌, ◌%◌, ◌<◌}
use Prim.Native.Char.{code}
use Prim.Native.String.{String, ◌++◌}
use mathlib.Core.Bool.{Bool, true, false, ◌&&◌}
use mathlib.Core.Path.{◌≡◌, ap, ◌∙◌}
use mathlib.Core.Logic.{inl, inr}
use native.Mathlib.Omega.{arith}
use text.Mathlib.TextLemmas.{cons-append, nil-append}
use go_mod_edge_utils.Prelude.Tests.{leb, ltb, Bool-cases}
use go_mod_edge_utils.Prelude.Text.{digit, decimal_from, decimal}

-- The number that the digits stand for, behind those that gave `n`.
value : ℕ → String → ℕ
value n String.[] = n
value n (String.◌∷◌ c s) = value (n * 10 + (code c - 48)) s

value-digit : (n d : ℕ) (s : String) → d < 10 → value n (digit d ++ s) ≡ value (n * 10 + d) s
unfolding value
value-digit n zero s h = rw (cons-append, nil-append)
value-digit n (suc zero) s h = rw (cons-append, nil-append)
value-digit n (suc (suc zero)) s h = rw (cons-append, nil-append)
value-digit n (suc (suc (suc zero))) s h = rw (cons-append, nil-append)
value-digit n (suc (suc (suc (suc zero)))) s h = rw (cons-append, nil-append)
value-digit n (suc (suc (suc (suc (suc zero))))) s h = rw (cons-append, nil-append)
value-digit n (suc (suc (suc (suc (suc (suc zero)))))) s h = rw (cons-append, nil-append)
value-digit n (suc (suc (suc (suc (suc (suc (suc zero))))))) s h = rw (cons-append, nil-append)
value-digit n (suc (suc (suc (suc (suc (suc (suc (suc zero)))))))) s h =
    rw (cons-append, nil-append)
value-digit n (suc (suc (suc (suc (suc (suc (suc (suc (suc zero))))))))) s h =
    rw (cons-append, nil-append)
value-digit n (suc (suc (suc (suc (suc (suc (suc (suc (suc (suc d)))))))))) s h =
    absurd (omega arith)

value_of : (s : String) {m n : ℕ} → m ≡ n → value m s ≡ value n s
value_of s e = ap (λ k. value k s) e

value-decimal_from :
    (fuel n : ℕ) (acc : String) → n < fuel → value 0 (decimal_from fuel n acc) ≡ value n acc
unfolding decimal_from
value-decimal_from zero n acc h = absurd (omega arith)
value-decimal_from (suc fuel) n acc h = elim (Bool-cases (ltb n 10)) [
  | inl one ↦ rw one (value-digit 0 n acc (ground arith) ∙ value_of acc (omega arith))
  | inr more ↦ rw more (
      value-decimal_from fuel (n / 10) (digit (n % 10) ++ acc) (ground arith)
      ∙ value-digit (n / 10) (n % 10) acc (omega arith)
      ∙ value_of acc (omega arith))
]

value-decimal : (n : ℕ) → value 0 (decimal n) ≡ n
unfolding decimal value
value-decimal n = value-decimal_from (suc n) n "" (omega arith)

pub decimal-injective : (m n : ℕ) → decimal m ≡ decimal n → m ≡ n
decimal-injective m n e = cc (value-decimal m, value-decimal n)

-- Whether a text begins with a digit.
unfoldable pub is_numeral : String → Bool
is_numeral String.[] = false
is_numeral (String.◌∷◌ c s) = leb 48 (code c) && leb (code c) 57

is_numeral-digit : (d : ℕ) (s : String) → is_numeral (digit d ++ s) ≡ true
unfolding is_numeral
is_numeral-digit zero s = rw cons-append
is_numeral-digit (suc zero) s = rw cons-append
is_numeral-digit (suc (suc zero)) s = rw cons-append
is_numeral-digit (suc (suc (suc zero))) s = rw cons-append
is_numeral-digit (suc (suc (suc (suc zero)))) s = rw cons-append
is_numeral-digit (suc (suc (suc (suc (suc zero))))) s = rw cons-append
is_numeral-digit (suc (suc (suc (suc (suc (suc zero)))))) s = rw cons-append
is_numeral-digit (suc (suc (suc (suc (suc (suc (suc zero))))))) s = rw cons-append
is_numeral-digit (suc (suc (suc (suc (suc (suc (suc (suc zero)))))))) s = rw cons-append
is_numeral-digit (suc (suc (suc (suc (suc (suc (suc (suc (suc d))))))))) s = rw cons-append

is_numeral-decimal_from :
    (fuel n : ℕ) (acc : String) → n < fuel → is_numeral (decimal_from fuel n acc) ≡ true
unfolding decimal_from
is_numeral-decimal_from zero n acc h = absurd (omega arith)
is_numeral-decimal_from (suc fuel) n acc h = elim (Bool-cases (ltb n 10)) [
  | inl one ↦ rw one (is_numeral-digit n acc)
  | inr more ↦
      rw more (is_numeral-decimal_from fuel (n / 10) (digit (n % 10) ++ acc) (ground arith))
]

pub is_numeral-decimal : (n : ℕ) → is_numeral (decimal n) ≡ true
unfolding decimal
is_numeral-decimal n = is_numeral-decimal_from (suc n) n "" (omega arith)
