-- ===== src/Prelude/Text/Split.antt =====
-- `strings.Split` by one character, and joining again.
use Prim.Native.Char.{Char, code}
use Prim.Native.String.{String, ◌++◌}
use mathlib.Core.Path.{◌≡◌, refl, sym, ap, ◌∙◌}
use mathlib.Core.Logic.{inl, inr}
use mathlib.Core.List.{List, [], ◌∷◌}
use mathlib.Core.Bool.{Bool, true, false, not, ◌&&◌}
use native.Mathlib.Omega.{arith}
use text.Mathlib.TextLemmas.{cons-append, nil-append}
use text.Mathlib.TextEquality.{Char-path}
use go_mod_edge_utils.Prelude.Tests.{◌==◌, nat_eq, nat_beq_iff, Bool-cases, if◌then◌else◌}

abbrev pub cons_first : Char → List String → List String
cons_first c [] = String.◌∷◌ c "" ∷ []
cons_first c (s ∷ ss) = String.◌∷◌ c s ∷ ss

-- `strings.Split(s, sep)`
unfoldable pub split_on : Char → String → List String
split_on sep String.[] = "" ∷ []
split_on sep (String.◌∷◌ c s) =
    let rest = split_on sep s in if code c == code sep then "" ∷ rest else cons_first c rest

split_on_runs : split_on "/" "a//b" ≡ "a" ∷ "" ∷ "b" ∷ []
unfolding split_on
split_on_runs = refl

-- Whether the character does not occur in the text.
unfoldable pub lacks : Char → String → Bool
lacks sep String.[] = true
lacks sep (String.◌∷◌ c s) = not (code c == code sep) && lacks sep s

pub split_on-lacks : (sep : Char) (s : String) → lacks sep s ≡ true → split_on sep s ≡ s ∷ []
unfolding split_on lacks
split_on-lacks sep String.[] h = refl
split_on-lacks sep (String.◌∷◌ c s) h = ground (arith, split_on-lacks sep s)

-- A first part without the separator is split off whole.
pub split_on-join :
    (sep : Char) (s rest : String)
    → lacks sep s ≡ true
    → split_on sep (s ++ (String.◌∷◌ sep "" ++ rest)) ≡ s ∷ split_on sep rest
unfolding split_on lacks
split_on-join sep String.[] rest h = rw (nil-append, cons-append, nil-append) (ground arith)
split_on-join sep (String.◌∷◌ c s) rest h =
    rw cons-append (ground (arith, split_on-join sep s rest))

module _ (sep : Char) where
  join_rest : List String → String
  join_rest [] = ""
  join_rest (s ∷ ss) = String.◌∷◌ sep (s ++ join_rest ss)

  join_on : List String → String
  join_on [] = ""
  join_on (s ∷ ss) = s ++ join_rest ss

  join_on-cons_first :
      (c : Char) (ss : List String) → join_on (cons_first c ss) ≡ String.◌∷◌ c (join_on ss)
  unfolding join_on join_rest
  join_on-cons_first c [] = rw (cons-append, nil-append)
  join_on-cons_first c (s ∷ ss) = rw cons-append

  split_on_nonempty :
      (s : String) → (first : String) × (rest : List String) × (split_on sep s ≡ first ∷ rest)
  unfolding split_on
  split_on_nonempty String.[] = ("", [], refl)
  split_on_nonempty (String.◌∷◌ c s) = elim (Bool-cases (code c == code sep)) [
    | inl here ↦ ("", split_on sep s, rw here)
    | inr there ↦ first_of c (split_on sep s) there (split_on_nonempty s)
  ]
    where
      first_of :
          (c : Char) (ss : List String)
          → (code c == code sep) ≡ false
          → (f : String) × (r : List String) × (ss ≡ f ∷ r)
          → (f : String) × (r : List String) × ((if code c == code sep
                then "" ∷ ss
                else cons_first c ss)
              ≡ f ∷ r)
      first_of c ss h (f, r, e) = (String.◌∷◌ c f, r, rw (h, e))

  join_on-empty_first :
      (s : String) → join_on ("" ∷ split_on sep s) ≡ String.◌∷◌ sep (join_on (split_on sep s))
  unfolding join_on join_rest
  join_on-empty_first s = let (f, r, e) = split_on_nonempty s in rw e (nil-append _)

  join_on-split_on : (s : String) → join_on (split_on sep s) ≡ s
  unfolding split_on
  join_on-split_on String.[] = unfold join_on join_rest in rw nil-append
  join_on-split_on (String.◌∷◌ c s) = elim (Bool-cases (code c == code sep)) [
    | inl here ↦ rw here (
        join_on-empty_first s
        ∙ ap (String.◌∷◌ sep) (join_on-split_on s)
        ∙ ap (λ d. String.◌∷◌ d s) (sym (Char-path c sep ((nat_beq_iff _ _).0 here))))
    | inr there ↦
        rw there (join_on-cons_first c (split_on sep s) ∙ ap (String.◌∷◌ c) (join_on-split_on s))
  ]

  -- Different texts are split differently.
  pub split_on-injective : (s t : String) → split_on sep s ≡ split_on sep t → s ≡ t
  split_on-injective s t e = sym (join_on-split_on s) ∙ ap join_on e ∙ join_on-split_on t
