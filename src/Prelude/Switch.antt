-- ===== src/Prelude/Switch.antt =====
-- A Go `switch` whose cases return constants: a case with several values is several rows.
use mathlib.Core.Path.{◌≡◌, refl}
use mathlib.Core.Bool.{Bool, false, ◌||◌}
use mathlib.Core.Logic.{inl, inr}
use mathlib.Core.List.{List, [], ◌∷◌}
use go_mod_edge_utils.Prelude.Tests.{Eq, ◌==◌, if◌then◌else◌, Bool-cases}
use go_mod_edge_utils.Prelude.Lists.{All}

module _ {ℓ κ} {A : Type ℓ} {B : Type κ} ⦃e : Eq A⦄ where
  unfoldable pub switch : List (A × B) → B → A → B
  switch [] d a = d
  switch ((c, b) ∷ rows) d a = if a == c then b else switch rows d a

  -- Whether some case takes the value.
  unfoldable pub has_case : List (A × B) → A → Bool
  has_case [] a = false
  has_case ((c, b) ∷ rows) a = a == c || has_case rows a

  pub switch-All {μ} :
      (P : B → Type μ) (rows : List (A × B)) (d : B) (a : A)
      → All (λ r. P r.1) rows
      → P d
      → P (switch rows d a)
  unfolding switch
  switch-All P [] d a h p = p
  switch-All P ((c, b) ∷ rows) d a h p = elim (Bool-cases (a == c)) [
    | inl hit ↦ rw hit h.0
    | inr miss ↦ rw miss (switch-All P rows d a h.1 p)
  ]

  -- A function that undoes every row undoes the switch on the values that have a case.
  pub switch_undone :
      (g : B → A) (rows : List (A × B)) (d : B) (a : A)
      → All (λ r. g r.1 ≡ r.0) rows
      → g (switch rows d a) ≡ (if has_case rows a then a else g d)
  unfolding switch has_case
  switch_undone g [] d a h = refl
  switch_undone g ((c, b) ∷ rows) d a h = elim (Bool-cases (a == c)) [
    | inl hit ↦ rw (hit, h.0) (rw ((e.same_iff a c).0 hit))
    | inr miss ↦ rw miss (switch_undone g rows d a h.1)
  ]
