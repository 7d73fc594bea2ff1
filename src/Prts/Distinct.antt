-- ===== src/Prts/Distinct.antt =====
-- Different BACnet properties have different names.
use native.Mathlib.Nat.{suc_inj}
use text.Mathlib.TextLemmas.{nil-append, append-nil}
use go_mod_edge_utils.Prelude.{
  ℕ, suc, pos, String, Bool, true, false, not, ◌&&◌, List, [], ◌∷◌, Option, none, some, decimal,
  is_numeral, is_numeral-decimal, decimal-injective, if◌then◌else◌, ◌==◌, string_eq, nat_eq, ◌≡◌,
  refl, sym, ap, ◌∙◌, arith,
}
use go_mod_edge_utils.Prts.{name_of, with_number, get_bacnet_property_string, string_or}
use go_mod_edge_utils.Prts.Properties.{property_strings}

-- The first row with the name, plus one.
id_of : String → List (ℕ × String) → ℕ
id_of s [] = 0
id_of s ((i, name) ∷ rest) = if name == s then suc i else id_of s rest

undone : List (ℕ × String) → List (ℕ × String) → Bool
undone rows [] = true
undone rows ((i, name) ∷ rest) =
    (not (is_numeral name) && nat_eq.same (id_of name rows) (suc i)) && undone rows rest

property_strings-undone : undone property_strings property_strings ≡ true
unfolding undone id_of is_numeral
property_strings-undone = refl

module _ (table : List (ℕ × String)) where
  -- A name in the table is no numeral, and its row is found by it.
  name_of-undone :
      (n : ℕ) (rows : List (ℕ × String)) (name : String)
      → undone table rows ≡ true
      → name_of n rows ≡ some name
      → (is_numeral name ≡ false) × (id_of name table ≡ suc n)
  unfolding name_of undone
  name_of-undone n [] name u e = absurd (cc)
  name_of-undone n ((i, s) ∷ rest) name u e = ground (arith, name_of-undone n rest name)

with_number_alone : (n : ℕ) → with_number "" n "" ≡ decimal n
unfolding with_number
with_number_alone n = rw (nil-append, append-nil)

string_or-injective :
    (m n : ℕ) (a b : Option String)
    → name_of m property_strings ≡ a
    → name_of n property_strings ≡ b
    → string_or m a ≡ string_or n b
    → m ≡ n
string_or-injective m n (some a) (some b) ha hb e =
    let found = name_of-undone property_strings m property_strings a property_strings-undone ha in
    let other = name_of-undone property_strings n property_strings b property_strings-undone hb in
    suc_inj (sym found.1 ∙ ap (λ s. id_of s property_strings) e ∙ other.1)
string_or-injective m n (some a) none ha hb e =
    let found = name_of-undone property_strings m property_strings a property_strings-undone ha in
    cc (found.0, e, with_number_alone n, is_numeral-decimal n)
string_or-injective m n none (some b) ha hb e =
    let found = name_of-undone property_strings n property_strings b property_strings-undone hb in
    cc (found.0, e, with_number_alone m, is_numeral-decimal m)
string_or-injective m n none none ha hb e =
    decimal-injective m n (sym (with_number_alone m) ∙ e ∙ with_number_alone n)

-- GetBACnetPropertyString gives different names to different properties, those that have no name
-- of their own included, and no error for any that is not negative.
pub get_bacnet_property_string_distinct :
    (m n : ℕ)
    → (get_bacnet_property_string (pos m)).0 ≡ (get_bacnet_property_string (pos n)).0
    → m ≡ n
unfolding get_bacnet_property_string
get_bacnet_property_string_distinct m n e =
    string_or-injective m n (name_of m property_strings) (name_of n property_strings) refl refl e
