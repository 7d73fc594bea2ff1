-- ===== src/Environment/Bounds.antt =====
-- The numbers that are read from the environment lie in the range of their type.
use Prim.Native.Char.{code}
use go_mod_edge_utils.Prelude.{
  ℕ, zero, suc, ◌^◌, ◌<◌, ◌≤◌, ◌+◌, ◌-◌, ◌*◌, ℤ, pos, negsuc, String, Bool, ◌&&◌, ◌==◌, string_eq,
  nat_eq, leb, ltb, Bool-cases, inl, inr, ◌≡◌, refl, sym, arith,
}
use go_mod_edge_utils.Environment.Convert.{
  Number, value, syntax, range, scan_digits, parse_uint, parse_int, negative, positive_within,
  negative_within, converted, convert_to_type, of_number,
}
use go_mod_edge_utils.Environment.Startup.{positive_or, seconds_from, get_startup_info}
use go_mod_edge_utils.Environment.Values.{
  Width, word, w8, w16, w32, w64, bits, Items, Value, null, text, flag, int, uint, float, list,
  array, map, other_map, other,
}

-- What holds of the number, if there is one.
abbrev pub Holds {ℓ κ} : {A : Type ℓ} → (A → Type κ) → Number A → Type κ
Holds P (value a) = P a
Holds P syntax = Unit
Holds P range = Unit

scan_digits_bound : (max n : ℕ) (s : String) → n ≤ max → Holds (λ k. k ≤ max) (scan_digits max n s)
unfolding scan_digits
scan_digits_bound max n String.[] h = h
scan_digits_bound max n (String.◌∷◌ c s) h =
    elim (Bool-cases (leb 48 (code c) && leb (code c) 57)) [
      | inr bad ↦ rw bad tt
      | inl good ↦ rw good (elim (Bool-cases (ltb max (n * 10 + (code c - 48)))) [
        | inl over ↦ rw over tt
        | inr within ↦ rw within (scan_digits_bound max (n * 10 + (code c - 48)) s (ground arith))
      ])
    ]

-- The values of a signed integer of some width.
abbrev pub InSigned : ℕ → ℤ → Type 0
InSigned width (pos n) = n < 2 ^ (width - 1)
InSigned width (negsuc n) = n < 2 ^ (width - 1)

abbrev pub InUnsigned : ℕ → ℕ → Type 0
InUnsigned width n = n ≤ 2 ^ width - 1

pub parse_uint-InUnsigned : (width : ℕ) (s : String) → Holds (InUnsigned width) (parse_uint width s)
unfolding parse_uint
parse_uint-InUnsigned width s = elim (Bool-cases (s == "")) [
  | inl empty ↦ rw empty tt
  | inr some_text ↦ rw some_text (scan_digits_bound (2 ^ width - 1) 0 s (omega arith))
]

positive_within-InSigned :
    (width : ℕ) (n : Number ℕ) → Holds (InSigned width) (positive_within (2 ^ (width - 1)) n)
positive_within-InSigned width (value n) = elim (Bool-cases (leb (2 ^ (width - 1)) n)) [
  | inl over ↦ rw over tt
  | inr within ↦ rw within (ground arith)
]
positive_within-InSigned width syntax = tt
positive_within-InSigned width range = tt

negative-InSigned :
    (width n : ℕ) → 0 < 2 ^ (width - 1) → n ≤ 2 ^ (width - 1) → InSigned width (negative n)
negative-InSigned width zero p h = p
negative-InSigned width (suc n) p h = omega arith

negative_within-InSigned :
    (width : ℕ) (n : Number ℕ)
    → 0 < 2 ^ (width - 1)
    → Holds (InSigned width) (negative_within (2 ^ (width - 1)) n)
negative_within-InSigned width (value n) p = elim (Bool-cases (ltb (2 ^ (width - 1)) n)) [
  | inl over ↦ rw over tt
  | inr within ↦ rw within (negative-InSigned width n p (ground arith))
]
negative_within-InSigned width syntax p = tt
negative_within-InSigned width range p = tt

pub parse_int-InSigned :
    (width : ℕ) (s : String) → 0 < 2 ^ (width - 1) → Holds (InSigned width) (parse_int width s)
unfolding parse_int
parse_int-InSigned width String.[] p = tt
parse_int-InSigned width (String.◌∷◌ c s) p = elim (Bool-cases (code c == 43)) [
  | inl plus ↦ rw plus (positive_within-InSigned width (parse_uint width s))
  | inr no_plus ↦ rw no_plus (elim (Bool-cases (code c == 45)) [
    | inl minus ↦ rw minus (negative_within-InSigned width (parse_uint width s) p)
    | inr no_sign ↦ rw no_sign (positive_within-InSigned width (parse_uint width (String.◌∷◌ c s)))
  ])
]

-- What a converted value is, by the value that it replaces: a slice becomes an `[]any`, and every
-- other value keeps its type.
abbrev pub IsOfType : {F : Type 0} → Value F → Value F → Type 0
IsOfType {F} (list old) v = (l : Items F) × (v ≡ array l)
IsOfType {F} (array old) v = (l : Items F) × (v ≡ array l)
IsOfType (text old) v = (s : String) × (v ≡ text s)
IsOfType (flag old) v = (b : Bool) × (v ≡ flag b)
IsOfType (int w old) v = (z : ℤ) × (v ≡ int w z) × InSigned (bits w) z
IsOfType (uint w old) v = (n : ℕ) × (v ≡ uint w n) × InUnsigned (bits w) n
IsOfType {F} (float w old) v = (x : F) × (v ≡ float w x)
IsOfType null v = ⊥
IsOfType (map old) v = ⊥
IsOfType (other_map name) v = ⊥
IsOfType (other name) v = ⊥

any_number {ℓ} : {A : Type ℓ} (n : Number A) → Holds (λ a. Unit {0}) n
any_number (value a) = tt
any_number syntax = tt
any_number range = tt

half_pos : (w : Width) → 0 < 2 ^ (bits w - 1)
half_pos word = omega arith
half_pos w8 = omega arith
half_pos w16 = omega arith
half_pos w32 = omega arith
half_pos w64 = omega arith

module _ {F : Type 0} where
  converted_inj : {v w : Value F} → converted v ≡ converted w → v ≡ w
  converted_inj p = cc

  number-IsOfType {ℓ} :
      {A : Type ℓ} (P : A → Type 0) (name : String) (make : A → Value F) (n : Number A)
      (v : Value F)
      → Holds P n
      → of_number name make n ≡ converted v
      → (a : A) × (v ≡ make a) × P a
  number-IsOfType P name make (value a) v h e = (a, sym (converted_inj e), h)
  number-IsOfType P name make syntax v h e = absurd (cc)
  number-IsOfType P name make range v h e = absurd (cc)

  -- A value that convertToType gives is of the type of the old value, where a slice becomes a slice
  -- of any, and a signed or unsigned integer lies in the range of its type.
  pub convert_to_type-IsOfType :
      (parse_float : ℕ → String → Number F) (old : Value F) (s : String) (v : Value F)
      → convert_to_type parse_float old s ≡ converted v
      → IsOfType old v
  unfolding convert_to_type
  convert_to_type-IsOfType parse_float (list l) s v e = (_, sym (converted_inj e))
  convert_to_type-IsOfType parse_float (array l) s v e = (_, sym (converted_inj e))
  convert_to_type-IsOfType parse_float (text t) s v e = (_, sym (converted_inj e))
  convert_to_type-IsOfType parse_float (flag b) s v e =
      let (a, p, h) = number-IsOfType (λ a. Unit {0}) _ flag _ v (any_number _) e in (a, p)
  convert_to_type-IsOfType parse_float (int w z) s v e =
      number-IsOfType (InSigned (bits w)) _ (int w) _ v (parse_int-InSigned (bits w) s (half_pos w))
        e
  convert_to_type-IsOfType parse_float (uint w n) s v e =
      number-IsOfType (InUnsigned (bits w)) _ (uint w) _ v (parse_uint-InUnsigned (bits w) s) e
  convert_to_type-IsOfType parse_float (float w x) s v e =
      let (a, p, h) = number-IsOfType (λ a. Unit {0}) _ (float w) _ v (any_number _) e in (a, p)
  convert_to_type-IsOfType parse_float null s v e = absurd (cc)
  convert_to_type-IsOfType parse_float (map m) s v e = absurd (cc)
  convert_to_type-IsOfType parse_float (other_map name) s v e = absurd (cc)
  convert_to_type-IsOfType parse_float (other name) s v e = absurd (cc)

-- A positive number of seconds that an int can hold.
abbrev pub IsSeconds : ℤ → Type 0
IsSeconds z = (n : ℕ) × (z ≡ pos (suc n)) × (suc n < 2 ^ 63)

positive_or-IsSeconds :
    (default : ℤ) (n : Number ℤ)
    → IsSeconds default
    → Holds (InSigned 64) n
    → IsSeconds (positive_or default n)
positive_or-IsSeconds default (value (pos (suc n))) d h = (n, refl, h)
positive_or-IsSeconds default (value (pos zero)) d h = d
positive_or-IsSeconds default (value (negsuc n)) d h = d
positive_or-IsSeconds default syntax d h = d
positive_or-IsSeconds default range d h = d

seconds_from-IsSeconds :
    (getenv : String → String) (key : String) (default : ℤ)
    → IsSeconds default
    → IsSeconds (seconds_from getenv key default)
unfolding seconds_from
seconds_from-IsSeconds getenv key default d = elim (Bool-cases (getenv key == "")) [
  | inl unset ↦ rw unset d
  | inr set ↦ rw set (
      positive_or-IsSeconds default (parse_int 64 (getenv key)) d
        (parse_int-InSigned 64 (getenv key) (omega arith)))
]

-- Whatever the environment holds, GetStartupInfo gives a positive duration and a positive
-- interval, and both are numbers that an int can hold.
pub get_startup_info-IsSeconds :
    (getenv : String → String)
    → IsSeconds (get_startup_info getenv).duration × IsSeconds (get_startup_info getenv).interval
unfolding get_startup_info
get_startup_info-IsSeconds getenv = (
  seconds_from-IsSeconds getenv _ (pos 60) (59, refl, omega arith),
  seconds_from-IsSeconds getenv _ (pos 1) (0, refl, omega arith),
)
