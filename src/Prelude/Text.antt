-- ===== src/Prelude/Text.antt =====
-- `fmt.Sprintf("%d", n)` for a number that is not negative, and `strings.TrimSpace`.
pub mod Digits
pub mod Split
use Prim.Native.Nat.{ℕ, zero, suc, ◌+◌, ◌/◌, ◌%◌}
use Prim.Native.Char.{Char, char, code, IsScalar}
use Prim.Native.String.{String, ◌++◌}
use mathlib.Core.Bool.{Bool, ◌&&◌, ◌||◌}
use mathlib.Core.Path.{◌≡◌, refl}
use native.Mathlib.Omega.{arith}
use go_mod_edge_utils.Prelude.Tests.{ltb, leb, ◌==◌, nat_eq, string_eq, if◌then◌else◌}

abbrev pub digit : ℕ → String
digit zero = "0"
digit (suc zero) = "1"
digit (suc (suc zero)) = "2"
digit (suc (suc (suc zero))) = "3"
digit (suc (suc (suc (suc zero)))) = "4"
digit (suc (suc (suc (suc (suc zero))))) = "5"
digit (suc (suc (suc (suc (suc (suc zero)))))) = "6"
digit (suc (suc (suc (suc (suc (suc (suc zero))))))) = "7"
digit (suc (suc (suc (suc (suc (suc (suc (suc zero)))))))) = "8"
digit _ = "9"

-- The digits of `n` before `acc`; each round has one digit fewer, so `n + 1` rounds are enough.
pub decimal_from : ℕ → ℕ → String → String
decimal_from zero n acc = acc
decimal_from (suc fuel) n acc =
    let rest = decimal_from fuel (n / 10) (digit (n % 10) ++ acc) in
    if ltb n 10 then digit n ++ acc else rest

unfoldable pub decimal : ℕ → String
unfolding decimal_from
decimal n = decimal_from (suc n) n ""

decimal_503 : decimal 503 ≡ "503"
unfolding decimal
decimal_503 = refl

-- `unicode.IsSpace`
abbrev is_space : ℕ → Bool
is_space c =
    (leb 9 c && leb c 13)
    || c == 32
    || c == 133
    || c == 160
    || c == 5760
    || (leb 8192 c && leb c 8202)
    || c == 8232
    || c == 8233
    || c == 8239
    || c == 8287
    || c == 12288

trim_left : String → String
trim_left String.[] = ""
trim_left (String.◌∷◌ c s) =
    let rest = trim_left s in if is_space (code c) then rest else String.◌∷◌ c s

trim_right : String → String
trim_right String.[] = ""
trim_right (String.◌∷◌ c s) =
    let rest = trim_right s in if rest == "" && is_space (code c) then "" else String.◌∷◌ c rest

-- `strings.TrimSpace`
unfoldable pub trim_space : String → String
unfolding trim_left trim_right
trim_space s = trim_left (trim_right s)

pub lower_code : ℕ → ℕ
lower_code n = if leb 65 n && leb n 90 then n + 32 else n

pub lower_code-IsScalar : (n : ℕ) → IsScalar n → IsScalar (lower_code n)
unfolding lower_code
lower_code-IsScalar n h = ground arith

abbrev lower_char : Char → Char
lower_char (char n h) = char (lower_code n) (lower_code-IsScalar n h)

-- `strings.ToLower` of a text in ASCII.
unfoldable pub to_lower : String → String
unfolding lower_code
to_lower String.[] = ""
to_lower (String.◌∷◌ c s) = String.◌∷◌ (lower_char c) (to_lower s)

-- `strings.ReplaceAll` of one character by another.
unfoldable pub replace_char : Char → Char → String → String
replace_char from to String.[] = ""
replace_char from to (String.◌∷◌ c s) =
    String.◌∷◌ (if code c == code from then to else c) (replace_char from to s)

to_lower_name : to_lower (replace_char " " "_" "Trend Log (3)") ≡ "trend_log_(3)"
unfolding to_lower replace_char
to_lower_name = refl
