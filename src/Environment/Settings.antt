-- ===== src/Environment/Settings.antt =====
-- The paths of a configuration lead to its settings.
use go_mod_edge_utils.Prelude.{
  String, Bool, true, false, Option, none, some, List, [], ◌∷◌, ◌++◌, lacks, split_on,
  split_on-lacks, split_on-join, All, All-append, All-weaken, if◌then◌else◌, ◌==◌, string_eq,
  eq_self, eq_ne, eq_iff, Bool-cases, inl, inr, ◌≡◌, ◌≢◌, refl, sym, ap, ◌∙◌, subst, arith,
}
use go_mod_edge_utils.Prelude as P
use go_mod_edge_utils.Environment.Values.{
  Value, null, text, flag, int, uint, float, list, array, map, other_map, other, Fields, end, field,
  lookup_field,
}
use go_mod_edge_utils.Environment.Paths.{under, build_paths, paths_of, as_map}
use go_mod_edge_utils.Environment.Writes.{IsSetting, last, inside}

-- A configuration as it is decoded from JSON: a key occurs once in its map, and no map is of
-- another type than map[string]any. Moreover no key has a slash.
unfoldable mutual
  pub IsTree : {F : Type 0} → Fields F → Type 0
  IsTree end = Unit
  IsTree (field key v m) =
      (lacks "/" key ≡ true) × (lookup_field key m ≡ none) × IsBranch v × IsTree m

  pub IsBranch : {F : Type 0} → Value F → Type 0
  IsBranch (map m) = IsTree m
  IsBranch (other_map name) = ⊥
  IsBranch _ = Unit

module _ {F : Type 0} where
  -- Paths that lead to settings from a value at a key, or from a whole map.
  abbrev LeadFrom : String → Value F → List String → Type 0
  LeadFrom key v =
      All λ path. (m : Fields F) → lookup_field key m ≡ some v → IsSetting (split_on "/" path) m

  abbrev pub Lead : Fields F → List String → Type 0
  Lead m = All λ path. IsSetting (split_on "/" path) m

  -- A path to a setting starts with a key of the map.
  lookup-IsSetting :
      (path : String) (m n : Fields F)
      → ((key : String) (v : Value F) → lookup_field key m ≡ some v → lookup_field key n ≡ some v)
      → IsSetting (split_on "/" path) m
      → IsSetting (split_on "/" path) n
  lookup-IsSetting path m n more s = keep (split_on "/" path) s
    where
      keep : (keys : List String) → IsSetting keys m → IsSetting keys n
      keep _ (last e h) = last (more _ _ e) h
      keep _ (inside e t) = inside (more _ _ e) t

  single :
      (key : String) (v : Value F)
      → lacks "/" key ≡ true
      → as_map v ≡ none
      → LeadFrom key v (key ∷ [])
  single key v h n = ((λ m e. rw (split_on-lacks "/" key h) (last e n)), tt)

  all_under-LeadFrom :
      (key : String) (sub : Fields F) (paths : List String)
      → lacks "/" key ≡ true
      → Lead sub paths
      → LeadFrom key (map sub) (P.map (under key) paths)
  all_under-LeadFrom key sub [] h l = tt
  all_under-LeadFrom key sub (path ∷ paths) h l = (
    (λ m e. rw (split_on-join "/" key path h) (inside e l.0)),
    all_under-LeadFrom key sub paths h l.1,
  )

  lookup-later :
      (key wanted : String) (v w : Value F) (m : Fields F)
      → lookup_field key m ≡ none
      → lookup_field wanted m ≡ some w
      → lookup_field wanted (field key v m) ≡ some w
  unfolding lookup_field
  lookup-later key wanted v w m fresh e = ground (arith, eq_iff key wanted)

  -- The paths of a map, and that all of them lead to settings.
  abbrev Paths : Fields F → Type 0
  Paths m = (paths : List String) × (build_paths m ≡ some paths) × Lead m paths

  abbrev PathsOf : String → Value F → Type 0
  PathsOf key v = (paths : List String) × (paths_of key v ≡ some paths) × LeadFrom key v paths

  Paths-first :
      (key : String) (v : Value F) (m : Fields F)
      → lookup_field key m ≡ none
      → PathsOf key v
      → Paths m
      → Paths (field key v m)
  unfolding build_paths lookup_field
  Paths-first key v m fresh (ps, e, l) (qs, f, k) = (
    ps ++ qs,
    rw (e, f),
    All-append _ ps qs (All-weaken _ _ ps (λ p lead. lead (field key v m) (rw eq_self)) l) (
        All-weaken _ _ qs
          (λ q s. lookup-IsSetting q m _ (λ k w e. lookup-later key k v w m fresh e) s) k),
  )

  Paths-map :
      (key : String) (sub : Fields F) → lacks "/" key ≡ true → Paths sub → PathsOf key (map sub)
  unfolding paths_of
  Paths-map key sub h (ps, e, l) = (P.map (under key) ps, rw e, all_under-LeadFrom key sub ps h l)

mutual
  unfolding IsTree build_paths

  tree-Paths : {F : Type 0} (m : Fields F) → IsTree m → Paths m
  tree-Paths end t = ([], refl, tt)
  tree-Paths (field key v m) (h, fresh, b, t) =
      Paths-first key v m fresh (branch-PathsOf key v h b) (tree-Paths m t)

  branch-PathsOf :
      {F : Type 0} (key : String) (v : Value F) → lacks "/" key ≡ true → IsBranch v → PathsOf key v
  branch-PathsOf key (map sub) h t = Paths-map key sub h (tree-Paths sub t)
  branch-PathsOf key (other_map name) h t = absurd t
  branch-PathsOf key null h t = (key ∷ [], refl, single key null h refl)
  branch-PathsOf key (text s) h t = (key ∷ [], refl, single key (text s) h refl)
  branch-PathsOf key (flag b) h t = (key ∷ [], refl, single key (flag b) h refl)
  branch-PathsOf key (int w z) h t = (key ∷ [], refl, single key (int w z) h refl)
  branch-PathsOf key (uint w n) h t = (key ∷ [], refl, single key (uint w n) h refl)
  branch-PathsOf key (float w x) h t = (key ∷ [], refl, single key (float w x) h refl)
  branch-PathsOf key (list l) h t = (key ∷ [], refl, single key (list l) h refl)
  branch-PathsOf key (array l) h t = (key ∷ [], refl, single key (array l) h refl)
  branch-PathsOf key (other name) h t = (key ∷ [], refl, single key (other name) h refl)

module _ {F : Type 0} where
  -- The paths of a tree are built, and every one of them leads to a setting.
  pub build_paths-Lead :
      (m : Fields F)
      → IsTree m
      → (paths : List String) × (build_paths m ≡ some paths) × Lead m paths
  build_paths-Lead m t = tree-Paths m t

  -- No key of the map has a slash.
  abbrev pub IsFlat : Fields F → Type 0
  IsFlat m = (key : String) (v : Value F) → lookup_field key m ≡ some v → lacks "/" key ≡ true

  pub IsTree-IsFlat : (m : Fields F) → IsTree m → IsFlat m
  unfolding lookup_field IsTree
  IsTree-IsFlat end t key v e = absurd (cc)
  IsTree-IsFlat (field name w m) (h, fresh, b, t) key v e =
      ground (arith, eq_iff name key, IsTree-IsFlat m t key v)

  setting_at :
      (path : String) (m : Fields F)
      → IsSetting (path ∷ []) m
      → (v : Value F) × (lookup_field path m ≡ some v) × (as_map v ≡ none)
  setting_at path m (last {v} e h) = (v, e, h)
  setting_at path m (inside e s) = absurd (no_keys s)
    where
      no_keys : {n : Fields F} → IsSetting [] n → ⊥
      no_keys s = elim s [ ]
