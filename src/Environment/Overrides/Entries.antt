-- ===== src/Environment/Overrides/Entries.antt =====
-- What NewVariables reads from the entries of the environment.
use Prim.Native.String
use text.Mathlib.TextLemmas.{cons-append, nil-append}
use go_mod_edge_utils.Prelude.{
  String, true, Option, none, some, [], ◌∷◌, map, Dict, lookup, insert, lookup-insert, lacks, All,
  string_eq, nat_eq, eq_iff, ◌≡◌, refl, ap, ◌∙◌, arith,
}
use go_mod_edge_utils.Environment.Overrides.{cut, add_variable, add_variables, new_variables}
use go_mod_edge_utils.Environment.Overrides.Chosen.{IsNodup}

-- An entry of `os.Environ()`
abbrev pub entry : String × String → String
entry (name, v) = String.◌++◌ name (String.◌++◌ "=" v)

cut-entry : (name v : String) → lacks "=" name ≡ true → cut (entry (name, v)) ≡ some (name, v)
unfolding cut lacks
cut-entry String.[] v h = rw (nil-append, cons-append, nil-append)
cut-entry (String.◌∷◌ c s) v h = rw cons-append (ground (arith, cut-entry s v))

abbrev or_found : Option String → Option String → Option String
or_found (some v) old = some v
or_found none old = old

later :
    (name v : String) (rest old : Dict String) (key : String)
    → lookup name rest ≡ none
    → or_found (lookup key rest) (lookup key (insert name v old))
      ≡ or_found (lookup key ((name, v) ∷ rest)) (lookup key old)
unfolding lookup
later name v rest old key u = rw lookup-insert (ground (arith, eq_iff name key))

lookup-add_variables :
    (variables old : Dict String) (key : String)
    → IsNodup variables
    → All (λ x. lacks "=" x.0 ≡ true) variables
    → lookup key (add_variables (map entry variables) old)
      ≡ or_found (lookup key variables) (lookup key old)
unfolding add_variables lookup
lookup-add_variables [] old key u h = refl
lookup-add_variables ((name, v) ∷ rest) old key u h =
    ap (λ o. lookup key (add_variables (map entry rest) (add_variable old o)))
      (cut-entry name v h.0)
    ∙ lookup-add_variables rest (insert name v old) key u.1 h.1
    ∙ later name v rest old key u.0

-- NewVariables finds of each entry NAME=VALUE the whole value, equals signs in it included, if the
-- names are different and have no equals sign.
pub lookup-new_variables :
    (variables : Dict String) (key : String)
    → IsNodup variables
    → All (λ x. lacks "=" x.0 ≡ true) variables
    → lookup key (new_variables (map entry variables)) ≡ lookup key variables
unfolding new_variables lookup
lookup-new_variables variables key u h =
    lookup-add_variables variables [] key u h ∙ same_or (lookup key variables)
  where
    same_or : (o : Option String) → or_found o none ≡ o
    same_or none = refl
    same_or (some v) = refl
