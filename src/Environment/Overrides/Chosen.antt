-- ===== src/Environment/Overrides/Chosen.antt =====
-- The variable that overrides a setting, if there is one.
use go_mod_edge_utils.Prelude.{
  ℕ, suc, String, Option, none, some, List, [], ◌∷◌, Dict, lookup, insert, lookup-insert, All,
  if◌then◌else◌, ◌==◌, string_eq, eq_iff, Bool-cases, inl, inr, ◌≡◌, ◌≢◌, sym, subst, ◌∙◌, arith,
}
use go_mod_edge_utils.Environment.Paths.{get_override_name_for, add_names, build_override_names}

-- The names of the variables are different.
abbrev pub IsNodup : Dict String → Type 0
IsNodup [] = Unit
IsNodup ((name, v) ∷ variables) = (lookup name variables ≡ none) × IsNodup variables

-- How many variables have the name of a setting.
unfoldable pub count_named : Dict String → Dict String → ℕ
count_named names [] = 0
count_named names ((name, v) ∷ variables) = elim (lookup name names) [
  | none ↦ count_named names variables
  | some path ↦ suc (count_named names variables)
]

module _ (to_upper : String → String) (names : Dict String) where
  -- The value of the variable with the name of the path, unless the name stands for another path.
  unfoldable pub chosen : Dict String → String → Option String
  chosen variables q = elim (lookup (get_override_name_for to_upper q) names) [
    | none ↦ none
    | some path ↦ if path == q then lookup (get_override_name_for to_upper q) variables else none
  ]

  module _ (name v : String) (rest : Dict String) where
    pub chosen_skip :
        (q : String) → lookup name names ≡ none → chosen ((name, v) ∷ rest) q ≡ chosen rest q
    unfolding chosen lookup
    chosen_skip q e = ground (arith, eq_iff name (get_override_name_for to_upper q))

    module _ (path : String) (e : lookup name names ≡ some path)
        (n : get_override_name_for to_upper path ≡ name) where
      pub chosen_hit : chosen ((name, v) ∷ rest) path ≡ some v
      unfolding chosen lookup
      chosen_hit =
          ground (arith, eq_iff path path, eq_iff name (get_override_name_for to_upper path))

      pub chosen_done : lookup name rest ≡ none → chosen rest path ≡ none
      unfolding chosen
      chosen_done fresh = ground arith

      pub chosen_other : (q : String) → path ≢ q → chosen ((name, v) ∷ rest) q ≡ chosen rest q
      unfolding chosen lookup
      chosen_other q ne =
          ground (arith, eq_iff name (get_override_name_for to_upper q), eq_iff path q)

module _ (to_upper : String → String) where
  -- Every name stands for a path that has it, and of which P holds.
  abbrev pub IsSound : (String → Type 0) → Dict String → Type 0
  IsSound P names =
      (name path : String)
      → lookup name names ≡ some path
      → P path × (get_override_name_for to_upper path ≡ name)

  insert-IsSound :
      (P : String → Type 0) (path : String) (names : Dict String)
      → P path
      → IsSound P names
      → IsSound P (insert (get_override_name_for to_upper path) path names)
  insert-IsSound P path names p sound name found e =
      elim (Bool-cases (get_override_name_for to_upper path == name)) [
        | inl test ↦
            let same = (eq_iff (get_override_name_for to_upper path) name).0 test in
            let paths : some path ≡ some found =
              sym (lookup-insert (get_override_name_for to_upper path) name path names ∙ rw test)
              ∙ e in
            subst (λ x. P x × (get_override_name_for to_upper x ≡ name)) (some_inj paths) (p, same)
        | inr test ↦ sound name found (
            sym (lookup-insert (get_override_name_for to_upper path) name path names ∙ rw test) ∙ e)
      ]
    where
      some_inj : {a b : String} → some a ≡ some b → a ≡ b
      some_inj p = cc

  add_names-IsSound :
      (P : String → Type 0) (paths : List String) (names : Dict String)
      → All P paths
      → IsSound P names
      → IsSound P (add_names to_upper paths names)
  unfolding add_names
  add_names-IsSound P [] names a sound = sound
  add_names-IsSound P (path ∷ paths) names a sound =
      add_names-IsSound P paths _ a.1 (insert-IsSound P path names a.0 sound)

  pub build_override_names-IsSound :
      (P : String → Type 0) (paths : List String)
      → All P paths
      → IsSound P (build_override_names to_upper paths)
  unfolding build_override_names lookup
  build_override_names-IsSound P paths a =
      add_names-IsSound P paths [] a (λ name path e. absurd (cc))
