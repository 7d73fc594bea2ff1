-- ===== src/Environment/Access.antt =====
-- Reading and writing by the path of a setting, and by its keys, are the same where no key has a
-- slash.
use go_mod_edge_utils.Prelude.{
  String, true, none, some, List, [], ◌∷◌, lacks, split_on, split_on-lacks, split_on-injective,
  ◌==◌, string_eq, eq_iff, Option-cases, Bool-cases, inl, inr, ◌≡◌, ◌≢◌, sym, ◌∙◌, subst,
}
use go_mod_edge_utils.Environment.Values.{Value, map, Fields, lookup_field, insert_field}
use go_mod_edge_utils.Environment.Paths.{
  as_map, walk, write, get_config_map_value, set_config_map_value,
}
use go_mod_edge_utils.Environment.Writes.{
  IsSetting, last, inside, lookup-insert, walk-no_map, write-no_map, write-map, walk-write_self,
  walk-write_ne, IsSetting-write,
}
use go_mod_edge_utils.Environment.Settings.{IsFlat}

module _ {F : Type 0} where
  -- The path leads to a setting.
  abbrev pub IsSettingPath : Fields F → String → Type 0
  IsSettingPath m path = IsSetting (split_on "/" path) m

  at_key :
      (key : String) (m : Fields F) (w : Value F)
      → IsSetting (key ∷ []) m
      → lookup_field key m ≡ some w
      → as_map w ≡ none
  at_key key m w (last e h) f = subst (λ x. as_map x ≡ none) (some_inj (sym e ∙ f)) h
    where
      some_inj : {a b : Value F} → some a ≡ some b → a ≡ b
      some_inj p = cc
  at_key key m w (inside e s) f = absurd (no_keys s)
    where
      no_keys : {n : Fields F} → IsSetting [] n → ⊥
      no_keys s = elim s [ ]

  module _ (m : Fields F) (flat : IsFlat m) (path : String) (s : IsSettingPath m path) where
    -- The keys of a path that is itself a key.
    one_key : (w : Value F) → lookup_field path m ≡ some w → split_on "/" path ≡ path ∷ []
    one_key w e = split_on-lacks "/" path (flat path w e)

    no_map_at : (w : Value F) → lookup_field path m ≡ some w → as_map w ≡ none
    no_map_at w e = at_key path m w (subst (λ keys. IsSetting keys m) (one_key w e) s) e

    get-walk : get_config_map_value path m ≡ walk (split_on "/" path) m
    unfolding get_config_map_value
    get-walk = elim (Option-cases (lookup_field path m)) [
      | inl missing ↦ rw (missing, get_config_map_value)
      | inr (w, e) ↦
          rw (e, get_config_map_value, one_key w e)
            (sym (walk-no_map path [] w m e (no_map_at w e)))
    ]

    set-write : (v : Value F) → set_config_map_value path v m ≡ write (split_on "/" path) v m
    unfolding set_config_map_value
    set-write v = elim (Option-cases (lookup_field path m)) [
      | inl missing ↦ rw (missing, set_config_map_value)
      | inr (w, e) ↦
          rw (e, set_config_map_value, one_key w e)
            (sym (write-no_map path [] v w m e (no_map_at w e)))
    ]

  insert-IsFlat :
      (key : String) (old v : Value F) (m : Fields F)
      → IsFlat m
      → lookup_field key m ≡ some old
      → IsFlat (insert_field key v m)
  insert-IsFlat key old v m flat e k w f = elim (Bool-cases (key == k)) [
    | inl same ↦ subst (λ x. lacks "/" x ≡ true) ((eq_iff key k).0 same) (flat key old e)
    | inr test ↦ flat k w (sym (lookup-insert key k v m ∙ rw test) ∙ f)
  ]

  write-IsFlat :
      (keys : List String) (v : Value F) (m : Fields F)
      → IsFlat m
      → IsSetting keys m
      → IsFlat (write keys v m)
  write-IsFlat keys v m flat (last {key} {v = old} e h) =
      rw (write-no_map key [] v old m e h) (insert-IsFlat key old v m flat e)
  write-IsFlat keys v m flat (inside {key} {keys = ks} {sub} e s) =
      rw (write-map key ks v sub m e) (insert-IsFlat key (map sub) _ m flat e)

  module _ (m : Fields F) (flat : IsFlat m) (path : String) (s : IsSettingPath m path) (v : Value F)
      (plain : as_map v ≡ none) where
    pub set-IsFlat : IsFlat (set_config_map_value path v m)
    set-IsFlat = rw (set-write m flat path s v) (write-IsFlat (split_on "/" path) v m flat s)

    pub set-IsSettingPath :
        (q : String) → IsSettingPath m q → IsSettingPath (set_config_map_value path v m) q
    set-IsSettingPath q t = rw (set-write m flat path s v) (IsSetting-write v plain s t)

    -- Setting a setting makes its value the new one,
    pub get-set_self : get_config_map_value path (set_config_map_value path v m) ≡ v
    get-set_self =
        get-walk (set_config_map_value path v m) set-IsFlat path (set-IsSettingPath path s)
        ∙ rw (set-write m flat path s v) (walk-write_self v plain s)

    -- and leaves those at other paths.
    pub get-set_ne :
        (q : String)
        → IsSettingPath m q
        → path ≢ q
        → get_config_map_value q (set_config_map_value path v m) ≡ get_config_map_value q m
    get-set_ne q t ne =
        get-walk (set_config_map_value path v m) set-IsFlat q (set-IsSettingPath q t)
        ∙ rw (set-write m flat path s v)
            (walk-write_ne v plain s t (λ e. ne (split_on-injective "/" path q e)))
        ∙ sym (get-walk m flat q t)
