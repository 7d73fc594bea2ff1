-- ===== src/Prts/Ranges.antt =====
-- The object types of BACnet that have a name, and what the names look like.
use Prim.Native.Char.{code}
use go_mod_edge_utils.Prelude.{
  ℕ, zero, suc, ◌+◌, ◌-◌, ◌*◌, ◌<◌, ℤ, pos, negsuc, String, Bool, true, false, not, ◌&&◌, ◌||◌, inl,
  inr, List, [], ◌∷◌, Bool-cases, nat_beq_iff, if◌then◌else◌, ◌==◌, string_eq, nat_eq, leb, ltb,
  to_lower, replace_char, ◌≡◌, refl, sym, ap, ◌∙◌, arith, subst,
}
use go_mod_edge_utils.Errors.{is_nil}
use go_mod_edge_utils.Prts.{get_bacnet_object_type_string}
use go_mod_edge_utils.Prts.Objects.{object_types}

-- 0 to 1023, and the value that stands for no object.
abbrev pub is_object_type : ℤ → Bool
is_object_type (pos n) = ltb n 1024 || n == 65535
is_object_type (negsuc n) = false

-- No upper case and no space.
unfoldable pub is_normal : String → Bool
is_normal String.[] = true
is_normal (String.◌∷◌ c s) =
    (not (leb 65 (code c) && leb (code c) 90) && not (code c == 32)) && is_normal s

all_below : ℕ → (ℕ → Bool) → Bool
all_below zero p = true
all_below (suc n) p = p n && all_below n p

all_below_sound : (n : ℕ) (p : ℕ → Bool) (k : ℕ) → all_below n p ≡ true → k < n → p k ≡ true
unfolding all_below
all_below_sound zero p k h lt = absurd (omega arith)
all_below_sound (suc n) p k h lt = ground (arith, all_below_sound n p k)

is_plain : ℤ → Bool
is_plain z =
    let r = get_bacnet_object_type_string z in (is_nil r.1 && is_normal r.0) && not (r.0 == "")

below_plain : all_below 1024 (λ n. is_plain (pos n)) ≡ true
unfolding all_below is_plain get_bacnet_object_type_string is_normal
below_plain = refl

-- The number behind the first parenthesis.
number_until : ℕ → String → ℕ
number_until n String.[] = n
number_until n (String.◌∷◌ c s) =
    let rest = number_until (n * 10 + (code c - 48)) s in if code c == 41 then n else rest

number_in : String → ℕ
number_in String.[] = 65535
number_in (String.◌∷◌ c s) =
    let rest = number_in s in if code c == 40 then number_until 0 s else rest

-- The type that has the name.
type_in : List (ℕ × String) → String → ℕ
type_in [] s = number_in s
type_in ((i, name) ∷ rest) s =
    let other = type_in rest s in if to_lower (replace_char " " "_" name) == s then i else other

is_undone : ℕ → Bool
is_undone n = type_in object_types (get_bacnet_object_type_string (pos n)).0 == n

below_undone : all_below 1024 is_undone ≡ true
unfolding all_below is_undone type_in number_in number_until get_bacnet_object_type_string
below_undone = refl

none_plain : is_plain (pos 65535) ≡ true
unfolding is_plain get_bacnet_object_type_string is_normal
none_plain = refl

none_undone : is_undone 65535 ≡ true
unfolding is_undone type_in number_in get_bacnet_object_type_string to_lower replace_char
none_undone = refl

-- What holds below the maximum and at the value for no object holds of every object type.
of_object_type :
    (p : ℕ → Bool) (n : ℕ)
    → all_below 1024 p ≡ true
    → p 65535 ≡ true
    → is_object_type (pos n) ≡ true
    → p n ≡ true
of_object_type p n below at_none h = elim (Bool-cases (ltb n 1024)) [
  | inl lt ↦ all_below_sound 1024 p n below (ground arith)
  | inr ge ↦ subst (λ k. p k ≡ true) (sym ((nat_beq_iff n 65535).0 (ground arith))) at_none
]

-- What is outside has an error, and no name.
outside_lem :
    (n : ℕ)
    → is_object_type (pos n) ≡ false
    → (is_nil (get_bacnet_object_type_string (pos n)).1 ≡ false)
      × ((get_bacnet_object_type_string (pos n)).0 ≡ "")
unfolding get_bacnet_object_type_string
outside_lem n h = ground arith

-- GetBACnetObjectTypeString has no error exactly for the numbers from 0 to 1023 and for 65535, and
-- what it returns has no upper case letters and no spaces, and is empty exactly with an error.
pub get_bacnet_object_type_string_lem :
    (z : ℤ)
    → (is_nil (get_bacnet_object_type_string z).1 ≡ is_object_type z)
      × (is_normal (get_bacnet_object_type_string z).0 ≡ true)
      × (((get_bacnet_object_type_string z).0 == "") ≡ not (is_object_type z))
unfolding is_normal is_plain
get_bacnet_object_type_string_lem (negsuc n) =
    unfold get_bacnet_object_type_string in (refl, refl, refl)
get_bacnet_object_type_string_lem (pos n) = elim (Bool-cases (is_object_type (pos n))) [
  | inl inside ↦
      let plain = of_object_type (λ k. is_plain (pos k)) n below_plain none_plain inside in
      (ground (arith, plain), ground (arith, plain), ground (arith, plain))
  | inr out ↦
      let failed = outside_lem n out in (failed.0 ∙ sym out, rw failed.1, rw (failed.1, out))
]

-- Different object types have different names.
pub get_bacnet_object_type_string_distinct :
    (m n : ℕ)
    → is_object_type (pos m) ≡ true
    → is_object_type (pos n) ≡ true
    → (get_bacnet_object_type_string (pos m)).0 ≡ (get_bacnet_object_type_string (pos n)).0
    → m ≡ n
unfolding is_undone
get_bacnet_object_type_string_distinct m n hm hn e =
    let um = of_object_type is_undone m below_undone none_undone hm in
    let un = of_object_type is_undone n below_undone none_undone hn in
    sym ((nat_beq_iff _ m).0 um) ∙ ap (type_in object_types) e ∙ (nat_beq_iff _ n).0 un
