-- ===== src/Environment/Overrides/Runs.antt =====
-- The loop of OverrideConfigMapValues, to its end.
use go_mod_edge_utils.Prelude.{
  ℕ, suc, ◌+◌, String, none, some, [], ◌∷◌, Dict, lookup, string_eq, Option-cases, inl, inr, ◌⊎◌,
  ◌≡◌, ◌≢◌, refl, sym, ap, subst, ◌∙◌, arith,
}
use go_mod_edge_utils.Environment.Values.{Value, Fields}
use go_mod_edge_utils.Environment.Paths.{get_config_map_value, set_config_map_value}
use go_mod_edge_utils.Environment.Convert.{
  Number, ConvertErr, Converted, converted, failed, panicked, convert_to_type,
}
use go_mod_edge_utils.Environment.Settings.{IsFlat}
use go_mod_edge_utils.Environment.Access.{IsSettingPath, set-IsFlat, set-IsSettingPath}
use go_mod_edge_utils.Environment.Overrides.{Overridden, no_err, override_failed, override_loop}
use go_mod_edge_utils.Environment.Overrides.Chosen.{IsNodup, IsSound, chosen, count_named}
use go_mod_edge_utils.Environment.Overrides.Applied.{
  new_value, IsAppliedTo, applied_skip, applied_step, plain,
}

Converted-cases :
    {F : Type 0} (c : Converted F)
    → ((v : Value F) × (c ≡ converted v)) ⊎ (((e : ConvertErr) × (c ≡ failed e)) ⊎ (c ≡ panicked))
Converted-cases (converted v) = inl (v, refl)
Converted-cases (failed e) = inr (inl (e, refl))
Converted-cases panicked = inr (inr refl)

overridden_inj : {F : Type 0} {r t : Overridden F} → some r ≡ some t → r ≡ t
overridden_inj p = cc

none_or_some : {F : Type 0} {r : Overridden F} → none ≢ some r
none_or_some p = cc

ok_or_failed : (name s : String) (e : ConvertErr) → override_failed name s e ≢ no_err
ok_or_failed name s e p = cc

module _ {F : Type 0} (parse_float : ℕ → String → Number F) (to_upper : String → String) where
  module _ (names : Dict String) where
    module _ (name s : String) (rest : Dict String) (count : ℕ) (m : Fields F) where
      pub loop_skip :
          lookup name names ≡ none
          → override_loop parse_float to_upper names ((name, s) ∷ rest) count m
            ≡ override_loop parse_float to_upper names rest count m
      unfolding override_loop
      loop_skip e = rw (e, override_loop)

      module _ (path : String) (e : lookup name names ≡ some path) where
        pub loop_step :
            (v : Value F)
            → convert_to_type parse_float (get_config_map_value path m) s ≡ converted v
            → override_loop parse_float to_upper names ((name, s) ∷ rest) count m
              ≡ override_loop parse_float to_upper names rest
                  (suc count)
                  (set_config_map_value path v m)
        unfolding override_loop
        loop_step v c = rw (e, override_loop, c)

        loop_failed :
            (err : ConvertErr)
            → convert_to_type parse_float (get_config_map_value path m) s ≡ failed err
            → override_loop parse_float to_upper names ((name, s) ∷ rest) count m
              ≡ some (record { count = 0; err = override_failed name s err; config_map = m })
        unfolding override_loop
        loop_failed err c = rw (e, override_loop, c)

        loop_panicked :
            convert_to_type parse_float (get_config_map_value path m) s ≡ panicked
            → override_loop parse_float to_upper names ((name, s) ∷ rest) count m ≡ none
        unfolding override_loop
        loop_panicked c = rw (e, override_loop, c)

    module _ (P : String → Type 0) (sound : IsSound to_upper P names) where
      chosen_nil : (q : String) → chosen to_upper names [] q ≡ none
      unfolding chosen lookup
      chosen_nil q = ground arith

      -- What holds at the end of the loop, if there was no error.
      abbrev pub IsEnd : Dict String → ℕ → Fields F → Overridden F → Type 0
      IsEnd variables count m r =
          (r.count ≡ count + count_named names variables)
          × IsAppliedTo parse_float to_upper names P variables m r.config_map

      IsEnd-skip :
          (name s : String) (rest : Dict String) (count : ℕ) (m : Fields F) (r : Overridden F)
          → IsFlat m
          → lookup name rest ≡ none
          → ((q : String) → P q → IsSettingPath m q)
          → lookup name names ≡ none
          → IsEnd rest count m r
          → IsEnd ((name, s) ∷ rest) count m r
      unfolding count_named
      IsEnd-skip name s rest count m r flat fresh keeps e (c, a) = (
        c ∙ rw (e, count_named),
        applied_skip parse_float to_upper names P name s rest m r.config_map flat fresh keeps e a,
      )

      IsEnd-step :
          (name s : String) (rest : Dict String) (count : ℕ) (m : Fields F) (r : Overridden F)
          → IsFlat m
          → lookup name rest ≡ none
          → ((q : String) → P q → IsSettingPath m q)
          → (path : String) → lookup name names ≡ some path
          → (v : Value F)
          → convert_to_type parse_float (get_config_map_value path m) s ≡ converted v
          → IsEnd rest (suc count) (set_config_map_value path v m) r
          → IsEnd ((name, s) ∷ rest) count m r
      unfolding count_named
      IsEnd-step name s rest count m r flat fresh keeps path e v c (k, a) = (
        k ∙ rw (e, count_named) (omega arith),
        applied_step parse_float to_upper names P name s rest m r.config_map flat fresh keeps path
            (sound name path e).0 e (sound name path e).1 v c a,
      )

      pub loop-IsEnd :
          (variables : Dict String) (count : ℕ) (m : Fields F) (r : Overridden F)
          → IsFlat m
          → IsNodup variables
          → ((q : String) → P q → IsSettingPath m q)
          → override_loop parse_float to_upper names variables count m ≡ some r
          → r.err ≡ no_err
          → IsEnd variables count m r
      unfolding override_loop count_named
      loop-IsEnd [] count m r flat u keeps h ok =
          subst (IsEnd [] count m) (overridden_inj h)
            (omega arith, (λ q p. unfold new_value in rw (chosen_nil q)))
      loop-IsEnd ((name, s) ∷ rest) count m r flat u keeps h ok =
          elim (Option-cases (lookup name names)) [
            | inl e ↦ IsEnd-skip name s rest count m r flat u.0 keeps e (
                loop-IsEnd rest count m r flat u.1 keeps (sym (loop_skip name s rest count m e) ∙ h)
                  ok)
            | inr (path, e) ↦
                elim (Converted-cases
                  (convert_to_type parse_float (get_config_map_value path m) s)) [
                    | inl (v, c) ↦
                        let at = (sound name path e).0 in
                        let w =
                          plain parse_float to_upper names P name s rest m r.config_map flat u.0
                            keeps path at e (sound name path e).1 v c in
                        IsEnd-step name s rest count m r flat u.0 keeps path e v c (
                          loop-IsEnd rest (suc count) (set_config_map_value path v m) r
                            (set-IsFlat m flat path (keeps path at) v w) u.1
                            (λ q p. set-IsSettingPath m flat path (keeps path at) v w q (keeps q p))
                            (sym (loop_step name s rest count m path e v c) ∙ h) ok)
                    | inr (inl (err, c)) ↦
                        let r_failed =
                          overridden_inj (sym (loop_failed name s rest count m path e err c) ∙ h) in
                        absurd
                          (ok_or_failed name s err (ap (λ (x : Overridden F). x.err) r_failed ∙ ok))
                    | inr (inr c) ↦
                        absurd (none_or_some (sym (loop_panicked name s rest count m path e c) ∙ h))
                  ]
          ]
