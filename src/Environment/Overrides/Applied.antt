-- ===== src/Environment/Overrides/Applied.antt =====
-- What OverrideConfigMapValues leaves in the map.
use go_mod_edge_utils.Prelude.{
  ℕ, String, Option, none, some, ◌∷◌, Dict, lookup, ◌==◌, string_eq, eq_iff, ne_of_test, Bool-cases,
  inl, inr, ◌≡◌, ◌≢◌, refl, sym, ap, subst, ◌∙◌, arith,
}
use go_mod_edge_utils.Environment.Values.{
  Value, null, text, flag, int, uint, float, list, array, map, other_map, other, Fields,
}
use go_mod_edge_utils.Environment.Paths.{
  as_map, get_override_name_for, get_config_map_value, set_config_map_value,
}
use go_mod_edge_utils.Environment.Convert.{
  Number, value, syntax, range, of_number, Converted, converted, convert_to_type,
}
use go_mod_edge_utils.Environment.Settings.{IsFlat}
use go_mod_edge_utils.Environment.Access.{IsSettingPath, get-set_self, get-set_ne}
use go_mod_edge_utils.Environment.Overrides.Chosen.{
  chosen, chosen_skip, chosen_hit, chosen_done, chosen_other,
}

module _ {F : Type 0} where
  of_number-plain {ℓ} :
      {A : Type ℓ} (name : String) (make : A → Value F) (n : Number A) (v : Value F)
      → ((a : A) → as_map (make a) ≡ none)
      → of_number name make n ≡ converted v
      → as_map v ≡ none
  of_number-plain name make (value a) v h e = subst (λ x. as_map x ≡ none) (inj e) (h a)
    where
      inj : {a b : Value F} → converted a ≡ converted b → a ≡ b
      inj p = cc
  of_number-plain name make syntax v h e = absurd (cc)
  of_number-plain name make range v h e = absurd (cc)

  module _ (parse_float : ℕ → String → Number F) where
    -- A converted value is no map.
    pub convert_to_type-plain :
        (old : Value F) (s : String) (v : Value F)
        → convert_to_type parse_float old s ≡ converted v
        → as_map v ≡ none
    unfolding convert_to_type
    convert_to_type-plain (list l) s v e = ground arith
    convert_to_type-plain (array l) s v e = ground arith
    convert_to_type-plain (text t) s v e = ground arith
    convert_to_type-plain (flag b) s v e = of_number-plain _ flag _ v (λ a. refl) e
    convert_to_type-plain (int w z) s v e = of_number-plain _ (int w) _ v (λ a. refl) e
    convert_to_type-plain (uint w n) s v e = of_number-plain _ (uint w) _ v (λ a. refl) e
    convert_to_type-plain (float w x) s v e = of_number-plain _ (float w) _ v (λ a. refl) e
    convert_to_type-plain null s v e = absurd (cc)
    convert_to_type-plain (map m) s v e = absurd (cc)
    convert_to_type-plain (other_map name) s v e = absurd (cc)
    convert_to_type-plain (other name) s v e = absurd (cc)

    -- The value that a setting gets: its own without a variable.
    unfoldable pub new_value : Value F → Option String → Converted F
    new_value old none = converted old
    new_value old (some s) = convert_to_type parse_float old s

    module _ (to_upper : String → String) (names : Dict String) (P : String → Type 0) where
      -- Every setting of P has the value that its variable, if any, gives it.
      abbrev pub IsAppliedTo : Dict String → Fields F → Fields F → Type 0
      IsAppliedTo variables m after =
          (q : String)
          → P q
          → new_value (get_config_map_value q m) (chosen to_upper names variables q)
            ≡ converted (get_config_map_value q after)

      module _ (name s : String) (rest : Dict String) (m after : Fields F) (flat : IsFlat m)
          (fresh : lookup name rest ≡ none) (keeps : (q : String) → P q → IsSettingPath m q) where
        pub applied_skip :
            lookup name names ≡ none
            → IsAppliedTo rest m after
            → IsAppliedTo ((name, s) ∷ rest) m after
        applied_skip e ih q p = rw (chosen_skip to_upper names name s rest q e) (ih q p)

        module _ (path : String) (at : P path) (e : lookup name names ≡ some path)
            (n : get_override_name_for to_upper path ≡ name) (v : Value F)
            (c : convert_to_type parse_float (get_config_map_value path m) s ≡ converted v) where
          pub plain : as_map v ≡ none
          plain = convert_to_type-plain (get_config_map_value path m) s v c

          applied_self :
              IsAppliedTo rest (set_config_map_value path v m) after
              → new_value
                  (get_config_map_value path m)
                  (chosen to_upper names ((name, s) ∷ rest) path)
                ≡ converted (get_config_map_value path after)
          unfolding new_value
          applied_self ih = rw (chosen_hit to_upper names name s rest path e n) (
              c
              ∙ ap converted (sym (get-set_self m flat path (keeps path at) v plain))
              ∙ rw (chosen_done to_upper names name s rest path e n fresh) at (ih path at))

          applied_other :
              (q : String)
              → P q
              → path ≢ q
              → IsAppliedTo rest (set_config_map_value path v m) after
              → new_value (get_config_map_value q m) (chosen to_upper names ((name, s) ∷ rest) q)
                ≡ converted (get_config_map_value q after)
          applied_other q p ne ih =
              rw (chosen_other to_upper names name s rest path e n q ne)
                (rw (get-set_ne m flat path (keeps path at) v plain q (keeps q p) ne) at (ih q p))

          pub applied_step :
              IsAppliedTo rest (set_config_map_value path v m) after
              → IsAppliedTo ((name, s) ∷ rest) m after
          applied_step ih q p = elim (Bool-cases (path == q)) [
            | inl test ↦
                subst
                  (λ x.
                    new_value (get_config_map_value x m)
                      (chosen to_upper names ((name, s) ∷ rest) x)
                    ≡ converted (get_config_map_value x after))
                  ((eq_iff path q).0 test) (applied_self ih)
            | inr test ↦ applied_other q p (ne_of_test path q test) ih
          ]
