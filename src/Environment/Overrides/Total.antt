-- ===== src/Environment/Overrides/Total.antt =====
-- OverrideConfigMapValues succeeds where every conversion does, and then overrides the settings.
use go_mod_edge_utils.Prelude.{
  ℕ, suc, String, none, some, List, [], ◌∷◌, Dict, lookup, All, All-weaken, ◌==◌, string_eq, eq_iff,
  ne_of_test, Bool-cases, Option-cases, inl, inr, ◌≡◌, refl, sym, subst, ◌∙◌, arith,
}
use go_mod_edge_utils.Environment.Values.{Value, Fields}
use go_mod_edge_utils.Environment.Paths.{
  as_map, build_override_names, build_paths, get_config_map_value, set_config_map_value,
}
use go_mod_edge_utils.Environment.Convert.{Number, converted, convert_to_type}
use go_mod_edge_utils.Environment.Settings.{IsTree, IsFlat, IsTree-IsFlat, Lead, build_paths-Lead}
use go_mod_edge_utils.Environment.Access.{IsSettingPath, set-IsFlat, set-IsSettingPath, get-set_ne}
use go_mod_edge_utils.Environment.Overrides.{
  Overridden, no_err, override_loop, override_config_map_values,
}
use go_mod_edge_utils.Environment.Overrides.Chosen.{
  IsNodup, IsSound, build_override_names-IsSound, chosen, chosen_hit, chosen_done, chosen_other,
  chosen_skip, count_named,
}
use go_mod_edge_utils.Environment.Overrides.Applied.{new_value, convert_to_type-plain}
use go_mod_edge_utils.Environment.Overrides.Runs.{loop_skip, loop_step, loop-IsEnd}

module _ {F : Type 0} (parse_float : ℕ → String → Number F) (to_upper : String → String) where
  -- The conversion of a setting by its variable, if it has one, succeeds.
  abbrev pub IsConvertible : Dict String → Dict String → Fields F → String → Type 0
  IsConvertible names variables m q =
      (v : Value F) × (new_value parse_float (get_config_map_value q m)
          (chosen to_upper names variables q)
        ≡ converted v)

  module _ (names : Dict String) (P : String → Type 0) (sound : IsSound to_upper P names) where
    IsConvertible-step :
        (name s : String) (rest : Dict String) (m : Fields F)
        → IsFlat m
        → lookup name rest ≡ none
        → ((q : String) → P q → IsSettingPath m q)
        → (path : String) → lookup name names ≡ some path
        → (v : Value F) → as_map v ≡ none
        → ((q : String) → P q → IsConvertible names ((name, s) ∷ rest) m q)
        → (q : String) → P q
        → IsConvertible names rest (set_config_map_value path v m) q
    IsConvertible-step name s rest m flat fresh keeps path e v w can q p =
        let (at, n) = sound name path e in
        elim (Bool-cases (path == q)) [
          | inl test ↦
              subst (IsConvertible names rest (set_config_map_value path v m))
                ((eq_iff path q).0 test)
                (
                  get_config_map_value path (set_config_map_value path v m),
                  unfold new_value in rw (chosen_done to_upper names name s rest path e n fresh),
                )
          | inr test ↦
              let ne = ne_of_test path q test in
              (
                (can q p).0,
                rw (get-set_ne m flat path (keeps path at) v w q (keeps q p) ne)
                    (rw (chosen_other to_upper names name s rest path e n q ne) at ((can q p).1)),
              )
        ]

    loop_succeeds :
        (variables : Dict String) (count : ℕ) (m : Fields F)
        → IsFlat m
        → IsNodup variables
        → ((q : String) → P q → IsSettingPath m q)
        → ((q : String) → P q → IsConvertible names variables m q)
        → (r : Overridden F) × (override_loop parse_float to_upper names variables count m ≡ some r)
          × (r.err ≡ no_err)
    loop_succeeds [] count m flat u keeps can =
        unfold override_loop in (record { count = count; err = no_err; config_map = m }, refl, refl)
    loop_succeeds ((name, s) ∷ rest) count m flat u keeps can =
        elim (Option-cases (lookup name names)) [
          | inl e ↦
              let (r, h, ok) = loop_succeeds rest count m flat u.1 keeps (λ q p.
                ((can q p).0, rw (chosen_skip to_upper names name s rest q e) at ((can q p).1))) in
              (r, loop_skip parse_float to_upper names name s rest count m e ∙ h, ok)
          | inr (path, e) ↦
              let at = (sound name path e).0 in
              let (v, c) = can path at in
              let c' : convert_to_type parse_float (get_config_map_value path m) s ≡ converted v =
                unfold new_value in
                (rw (chosen_hit to_upper names name s rest path e (sound name path e).1) at c) in
              let w = convert_to_type-plain parse_float (get_config_map_value path m) s v c' in
              let (r, h, ok) =
                loop_succeeds rest (suc count) (set_config_map_value path v m)
                  (set-IsFlat m flat path (keeps path at) v w) u.1
                  (λ q p. set-IsSettingPath m flat path (keeps path at) v w q (keeps q p))
                  (IsConvertible-step name s rest m flat u.0 keeps path e v w can) in
              (r, loop_step parse_float to_upper names name s rest count m path e v c' ∙ h, ok)
        ]

  -- The paths of a tree are settings, and what else holds of them.
  both_All :
      (P Q : String → Type 0) (paths : List String)
      → All P paths
      → All Q paths
      → All (λ q. P q × Q q) paths
  both_All P Q [] a b = tt
  both_All P Q (path ∷ paths) a b = ((a.0, b.0), both_All P Q paths a.1 b.1)

  tree-Lead :
      (m : Fields F) (paths : List String) → IsTree m → build_paths m ≡ some paths → Lead m paths
  tree-Lead m paths t e =
      let (ps, f, lead) = build_paths-Lead m t in subst (Lead m) (some_inj (sym f ∙ e)) lead
    where
      some_inj : {a b : List String} → some a ≡ some b → a ≡ b
      some_inj p = cc

  -- What OverrideConfigMapValues has done when it returns: it counts the variables that have the
  -- name of a setting, and each setting has the value of its variable converted, if it has one.
  abbrev pub IsOverridden : List String → Dict String → Fields F → Overridden F → Type 0
  IsOverridden paths variables m r =
      let names = build_override_names to_upper paths in
      (r.count ≡ count_named names variables)
      × All
          (λ q.
            new_value parse_float (get_config_map_value q m) (chosen to_upper names variables q)
            ≡ converted (get_config_map_value q r.config_map))
          paths

  module _ (variables : Dict String) (m : Fields F) (paths : List String) (t : IsTree m)
      (u : IsNodup variables) (e : build_paths m ≡ some paths) where
    loop_eq :
        override_config_map_values parse_float to_upper variables m
        ≡ override_loop parse_float to_upper (build_override_names to_upper paths) variables 0 m
    unfolding override_config_map_values
    loop_eq = rw (e, override_config_map_values)

    -- When OverrideConfigMapValues returns without an error, of a configuration in which no key has
    -- a slash and no map is of another type than map[string]any, it has counted the variables that
    -- have the name of a setting. A setting has the value of its variable converted to its type. It
    -- keeps its old value if there is no such variable, or if its name is also that of another
    -- setting to which the table of names leads.
    pub override_config_map_values-IsOverridden :
        (r : Overridden F)
        → override_config_map_values parse_float to_upper variables m ≡ some r
        → r.err ≡ no_err
        → IsOverridden paths variables m r
    override_config_map_values-IsOverridden r h ok =
        let names = build_override_names to_upper paths in
        let lead = tree-Lead m paths t e in
        let (count, applied) =
          loop-IsEnd parse_float to_upper names (IsSettingPath m)
            (build_override_names-IsSound to_upper (IsSettingPath m) paths lead) variables 0 m r
            (IsTree-IsFlat m t) u (λ q p. p) (sym loop_eq ∙ h) ok in
        (omega (arith, count), All-weaken _ _ paths applied lead)

    -- If no key of the configuration has a slash and no map in it is of another type than
    -- map[string]any, and the values of all variables that have the name of a setting can be
    -- converted to the type of the setting to which the table of names leads,
    -- OverrideConfigMapValues returns without an error.
    pub override_config_map_values_succeeds :
        All (IsConvertible (build_override_names to_upper paths) variables m) paths
        → (r : Overridden F) × (override_config_map_values parse_float to_upper variables m
            ≡ some r)
          × (r.err ≡ no_err)
    override_config_map_values_succeeds can =
        let names = build_override_names to_upper paths in
        let P : String → Type 0 = λ q. IsSettingPath m q × IsConvertible names variables m q in
        let (r, h, ok) =
          loop_succeeds names P
            (build_override_names-IsSound to_upper P paths
              (both_All _ _ paths (tree-Lead m paths t e) can))
            variables 0 m (IsTree-IsFlat m t) u (λ q p. p.0) (λ q p. p.1) in
        (r, loop_eq ∙ h, ok)
