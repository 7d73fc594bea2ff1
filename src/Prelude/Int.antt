-- ===== src/Prelude/Int.antt =====
-- Go's `int`, where a value may be negative: `negsuc n` is -(n + 1).
use Prim.Native.Nat.{ℕ}
use mathlib.Core.Bool.{Bool, true, false}
use go_mod_edge_utils.Prelude.Tests.{leb, ltb}

pub data ℤ : Type 0 where
  pos : ℕ → ℤ
  negsuc : ℕ → ℤ

-- `z <= n` for a length `n`.
abbrev pub le_length : ℤ → ℕ → Bool
le_length (pos m) n = leb m n
le_length (negsuc m) n = true

-- `a < b` on integers.
abbrev pub int_lt : ℤ → ℤ → Bool
int_lt (pos a) (pos b) = ltb a b
int_lt (pos a) (negsuc b) = false
int_lt (negsuc a) (pos b) = true
int_lt (negsuc a) (negsuc b) = ltb b a
