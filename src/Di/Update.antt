-- ===== src/Di/Update.antt =====
-- `Update` replaces services.
use go_mod_edge_utils.Prelude.{
  ◌≡◌, refl, ◌∙◌, inl, inr, String, Option, none, some, [], ◌∷◌, Dict, lookup, insert,
  lookup-insert, ◌==◌, string_eq, eq_iff, Bool-cases,
}
use go_mod_edge_utils.Di.{Constructor, Service, Container, update}

module _ {V : Type 0} where
  -- A map has a key once.
  abbrev pub HasDistinctKeys : Dict (Constructor V) → Type 0
  HasDistinctKeys [] = Unit
  HasDistinctKeys ((name, k) ∷ ks) = (lookup name ks ≡ none) × HasDistinctKeys ks

  abbrev pub fresh_or : Option (Constructor V) → Option (Service V) → Option (Service V)
  fresh_or none old = old
  fresh_or (some k) old = some (record { constructor = k; instance_ = none })

  -- After `Update` each service named in the map has the map's constructor and no instance, and the
  -- others are as before, in whatever order the map is ranged over.
  pub lookup-update :
      (ks : Dict (Constructor V)) (c : Container V) (name : String)
      → HasDistinctKeys ks
      → lookup name (update ks c) ≡ fresh_or (lookup name ks) (lookup name c)
  unfolding update
  lookup-update [] c name h = unfold lookup in refl
  lookup-update ((n, k) ∷ ks) c name h =
      let new : Service V = record { constructor = k; instance_ = none } in
      let rest = lookup-update ks (insert n new c) name h.1 in
      elim (Bool-cases (n == name)) [
        | inl same ↦
            let absent : lookup name ks ≡ none = rw (← (eq_iff n name).0 same) (h.0) in
            rest ∙ rw (absent, lookup-insert n name new c, same) (unfold lookup in rw same)
        | inr differs ↦
            rest ∙ rw (lookup-insert n name new c, differs) (unfold lookup in rw differs)
      ]
