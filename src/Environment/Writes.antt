-- ===== src/Environment/Writes.antt =====
-- What is read behind a write, when both paths end at a setting.
use go_mod_edge_utils.Prelude.{
  String, none, some, List, [], ◌∷◌, if◌then◌else◌, ◌==◌, string_eq, eq_iff, ◌≡◌, ◌≢◌, refl, sym,
  subst, Bool-cases, arith, inl, inr, ap, eq_self, eq_ne, ne_of_test, ◌∙◌,
}
use go_mod_edge_utils.Environment.Values.{
  Value, map, Fields, end, field, lookup_field, insert_field,
}
use go_mod_edge_utils.Environment.Paths.{or_null, as_map, walk, write}

module _ {F : Type 0} where
  pub lookup-insert :
      (key wanted : String) (v : Value F) (m : Fields F)
      → lookup_field wanted (insert_field key v m)
        ≡ (if key == wanted then some v else lookup_field wanted m)
  unfolding lookup_field insert_field
  lookup-insert key wanted v end = refl
  lookup-insert key wanted v (field name old m) =
      ground (
        arith,
        lookup-insert key wanted v m,
        eq_iff name wanted,
        eq_iff name key,
        eq_iff key wanted,
      )

  -- The keys lead through maps to a setting, which is no map.
  pub data IsSetting : List String → Fields F → Type 0 where
    last :
        {key : String} {v : Value F} {m : Fields F}
        → lookup_field key m ≡ some v
        → as_map v ≡ none
        → IsSetting (key ∷ []) m
    inside :
        {key : String} {keys : List String} {sub m : Fields F}
        → lookup_field key m ≡ some (map sub)
        → IsSetting keys sub
        → IsSetting (key ∷ keys) m

  walk-map :
      (key : String) (keys : List String) (sub m : Fields F)
      → lookup_field key m ≡ some (map sub)
      → walk (key ∷ keys) m ≡ walk keys sub
  unfolding walk
  walk-map key keys sub m e = rw (e, walk)

  pub walk-no_map :
      (key : String) (keys : List String) (v : Value F) (m : Fields F)
      → lookup_field key m ≡ some v
      → as_map v ≡ none
      → walk (key ∷ keys) m ≡ v
  unfolding walk
  walk-no_map key keys v m e h = rw (e, walk, h) (rw e)

  pub write-map :
      (key : String) (keys : List String) (v : Value F) (sub m : Fields F)
      → lookup_field key m ≡ some (map sub)
      → write (key ∷ keys) v m ≡ insert_field key (map (write keys v sub)) m
  unfolding write
  write-map key keys v sub m e = rw (e, write)

  pub write-no_map :
      (key : String) (keys : List String) (v old : Value F) (m : Fields F)
      → lookup_field key m ≡ some old
      → as_map old ≡ none
      → write (key ∷ keys) v m ≡ insert_field key v m
  unfolding write
  write-no_map key keys v old m e h = rw (e, write, h)

  lookup-insert_self :
      (key : String) (v : Value F) (m : Fields F) → lookup_field key (insert_field key v m) ≡ some v
  lookup-insert_self key v m = lookup-insert key key v m ∙ rw eq_self

  lookup-insert_ne :
      (key wanted : String) (v : Value F) (m : Fields F)
      → key ≢ wanted
      → lookup_field wanted (insert_field key v m) ≡ lookup_field wanted m
  lookup-insert_ne key wanted v m n = lookup-insert key wanted v m ∙ rw (eq_ne key wanted n)

  -- The value that was written is read at its path.
  pub walk-write_self :
      (v : Value F) {keys : List String} {m : Fields F}
      → as_map v ≡ none
      → IsSetting keys m
      → walk keys (write keys v m) ≡ v
  walk-write_self v {m} h (last {key} {v = old} e n) =
      rw (write-no_map key [] v old m e n)
        (walk-no_map key [] v (insert_field key v m) (lookup-insert_self key v m) h)
  walk-write_self v {m} h (inside {key} {keys} {sub} e s) =
      rw (write-map key keys v sub m e) (
        walk-map key keys (write keys v sub) _ (lookup-insert_self key _ m) ∙ walk-write_self v h s)

  -- What the step at the first key reads decides what is read.
  walk_step :
      (key : String) (keys : List String) (m n : Fields F)
      → lookup_field key m ≡ lookup_field key n
      → walk (key ∷ keys) m ≡ walk (key ∷ keys) n
  unfolding walk
  walk_step key keys m n e =
      ap (λ o. elim (as_map (or_null o)) [ some sub ↦ walk keys sub | none ↦ or_null o ]) e

  IsSetting_step :
      (key : String) {keys : List String} (m n : Fields F)
      → lookup_field key m ≡ lookup_field key n
      → IsSetting (key ∷ keys) m
      → IsSetting (key ∷ keys) n
  IsSetting_step key m n e (last f h) = last (sym e ∙ f) h
  IsSetting_step key m n e (inside f s) = inside (sym e ∙ f) s

  -- A setting and a map do not stand at one key.
  clash :
      (key : String) (sub m : Fields F) (v : Value F)
      → lookup_field key m ≡ some (map sub)
      → lookup_field key m ≡ some v
      → as_map v ≢ none
  clash key sub m v e f n = cc (e, f, n)

  away :
      (key k : String) (keys : List String) (v : Value F) (m : Fields F)
      → key ≢ k
      → walk (k ∷ keys) (insert_field key v m) ≡ walk (k ∷ keys) m
  away key k keys v m n = walk_step k keys (insert_field key v m) m (lookup-insert_ne key k v m n)

  -- Writing and reading below one key.
  below :
      (key : String) (keys ks : List String) (v : Value F) (sub m : Fields F)
      → lookup_field key m ≡ some (map sub)
      → walk ks (write keys v sub) ≡ walk ks sub
      → walk (key ∷ ks) (write (key ∷ keys) v m) ≡ walk (key ∷ ks) m
  below key keys ks v sub m e ih = rw (write-map key keys v sub m e) (
      walk-map key ks (write keys v sub) _ (lookup-insert_self key _ m)
      ∙ ih
      ∙ sym (walk-map key ks sub m e))

  sub_unique :
      (key : String) (sub t m : Fields F)
      → lookup_field key m ≡ some (map sub)
      → lookup_field key m ≡ some (map t)
      → t ≡ sub
  sub_unique key sub t m e f = cc (e, f)

  -- A write leaves what is read at every other path to a setting.
  pub walk-write_ne :
      (v : Value F) {p q : List String} {m : Fields F}
      → as_map v ≡ none
      → IsSetting p m
      → IsSetting q m
      → p ≢ q
      → walk q (write p v m) ≡ walk q m
  walk-write_ne v {m} h (last {key} {v = old} e n) (last {key = k} f o) ne =
      rw (write-no_map key [] v old m e n) (away key k [] v m (λ same. ne (ap (λ x. x ∷ []) same)))
  walk-write_ne v {m} h (last {key} {v = old} e n) (inside {key = k} {keys} {sub} f s) ne =
      rw (write-no_map key [] v old m e n) (
        away key k keys v m
          (λ same. clash k sub m old f (subst (λ x. lookup_field x m ≡ some old) same e) n))
  walk-write_ne v {m} h (inside {key} {keys} {sub} e s) (last {key = k} {v = old} f n) ne =
      rw (write-map key keys v sub m e) (
        away key k [] _ m
          (λ same. clash k sub m old (subst (λ x. lookup_field x m ≡ some (map sub)) same e) f n))
  walk-write_ne v {m} h (inside {key} {keys} {sub} e s) (inside {key = k} {keys = ks} {sub = t} f u)
        ne =
      elim (Bool-cases (key == k)) [
        | inl test ↦
            let same = (eq_iff key k).0 test in
            let t_sub =
              sub_unique key sub t m e
                (subst (λ x. lookup_field x m ≡ some (map t)) (sym same) f) in
            let ih =
              walk-write_ne v h s (subst (IsSetting ks) t_sub u)
                (λ e. ne (ap (λ l. key ∷ l) e ∙ ap (λ x. x ∷ ks) same)) in
            subst (λ x. walk (x ∷ ks) (write (key ∷ keys) v m) ≡ walk (x ∷ ks) m) same
              (below key keys ks v sub m e ih)
        | inr test ↦ rw (write-map key keys v sub m e) (away key k ks _ m (ne_of_test key k test))
      ]

  -- A write leaves every setting a setting.
  pub IsSetting-write :
      (v : Value F) {p q : List String} {m : Fields F}
      → as_map v ≡ none
      → IsSetting p m
      → IsSetting q m
      → IsSetting q (write p v m)
  IsSetting-write v {m} h (last {key} {v = old} e n) (last {key = k} f o) =
      rw (write-no_map key [] v old m e n) (elim (Bool-cases (key == k)) [
        | inl test ↦
            subst (λ x. IsSetting (x ∷ []) (insert_field key v m)) ((eq_iff key k).0 test)
              (last (lookup-insert_self key v m) h)
        | inr test ↦
            IsSetting_step k m _ (sym (lookup-insert_ne key k v m (ne_of_test key k test)))
              (last f o)
      ])
  IsSetting-write v {m} h (last {key} {v = old} e n) (inside {key = k} {keys} {sub} f s) =
      rw (write-no_map key [] v old m e n) (
        IsSetting_step k m _
          (sym (
            lookup-insert_ne key k v m
              (λ same. clash k sub m old f (subst (λ x. lookup_field x m ≡ some old) same e) n)))
          (inside f s))
  IsSetting-write v {m} h (inside {key} {keys} {sub} e s) (last {key = k} {v = old} f n) =
      rw (write-map key keys v sub m e) (
        IsSetting_step k m _
          (sym (
            lookup-insert_ne key k _ m (λ same.
              clash k sub m old (subst (λ x. lookup_field x m ≡ some (map sub)) same e) f n)))
          (last f n))
  IsSetting-write v {m} h (inside {key} {keys} {sub} e s)
        (inside {key = k} {keys = ks} {sub = t} f u) =
      rw (write-map key keys v sub m e) (elim (Bool-cases (key == k)) [
        | inl test ↦
            let same = (eq_iff key k).0 test in
            let t_sub =
              sub_unique key sub t m e
                (subst (λ x. lookup_field x m ≡ some (map t)) (sym same) f) in
            subst (λ x. IsSetting (x ∷ ks) (insert_field key (map (write keys v sub)) m)) same
              (inside (lookup-insert_self key _ m)
                (IsSetting-write v h s (subst (IsSetting ks) t_sub u)))
        | inr test ↦
            IsSetting_step k m _ (sym (lookup-insert_ne key k _ m (ne_of_test key k test)))
              (inside f u)
      ])
