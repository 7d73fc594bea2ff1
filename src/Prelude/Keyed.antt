-- ===== src/Prelude/Keyed.antt =====
-- Go's `map[string]V`. The order of an association list stands for the order in which `range`
-- happens to visit the keys, so a statement over every dictionary holds for every such order.
use Prim.Native.String.{String}
use mathlib.Core.Path.{◌≡◌, refl}
use mathlib.Core.Option.{Option, none, some}
use mathlib.Core.List.{List, [], ◌∷◌}
use native.Mathlib.Omega.{arith}
use text.Mathlib.TextEquality.{eq_iff}
use go_mod_edge_utils.Prelude.Tests.{◌==◌, string_eq, if◌then◌else◌}

abbrev pub Dict {ℓ} : Type ℓ → Type ℓ
Dict V = List (String × V)

module _ {ℓ} {V : Type ℓ} where
  -- `v, ok := m[key]`
  unfoldable pub lookup : String → Dict V → Option V
  lookup key [] = none
  lookup key ((name, v) ∷ rest) = if name == key then some v else lookup key rest

  -- `delete(m, key)`
  unfoldable pub delete : String → Dict V → Dict V
  delete key [] = []
  delete key ((name, v) ∷ rest) =
      if name == key then delete key rest else (name, v) ∷ delete key rest

  pub lookup-delete :
      (key other : String) (m : Dict V)
      → lookup other (delete key m) ≡ (if key == other then none else lookup other m)
  unfolding lookup delete
  lookup-delete key other [] = ground arith
  lookup-delete key other ((name, v) ∷ rest) =
      ground
        (arith, lookup-delete key other rest, eq_iff name other, eq_iff name key, eq_iff key other)

  -- `m[key] = v`
  unfoldable pub insert : String → V → Dict V → Dict V
  insert key v [] = (key, v) ∷ []
  insert key v ((name, old) ∷ rest) =
      if name == key then (key, v) ∷ rest else (name, old) ∷ insert key v rest

  pub lookup-insert :
      (key other : String) (v : V) (m : Dict V)
      → lookup other (insert key v m) ≡ (if key == other then some v else lookup other m)
  unfolding lookup insert
  lookup-insert key other v [] = refl
  lookup-insert key other v ((name, old) ∷ rest) =
      ground (
        arith,
        lookup-insert key other v rest,
        eq_iff name other,
        eq_iff name key,
        eq_iff key other,
      )
