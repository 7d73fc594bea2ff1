-- ===== src/Secret/Callbacks.antt =====
-- Which callback an updated secret has: RegisterSecretUpdatedCallback and
-- DeregisterSecretUpdatedCallback of secure.go and of insecure.go.
use go_mod_edge_utils.Prelude.{
  ◌≡◌, refl, ◌∙◌, sym, inl, inr, String, Option, none, some, Dict, lookup, lookup-insert,
  lookup-delete, ◌==◌, string_eq, if◌then◌else◌, eq_iff, Bool-cases,
}
use go_mod_edge_utils.Secret.{
  register, deregister, callback_for, or_wildcard, wildcard_name, already_registered,
}

module _ {K : Type 0} where
  lookup-register :
      (name other : String) (k : K) (registered : Dict K)
      → lookup name registered ≡ none
      → lookup other (register name k registered).1
        ≡ (if name == other then some k else lookup other registered)
  unfolding register
  lookup-register name other k registered new = rw new (lookup-insert name other k registered)

  abbrev pub first_of : Option K → Option K → Option K
  first_of (some k) later = some k
  first_of none later = later

  callback_for-first_of :
      (name : String) (registered : Dict K)
      → callback_for name registered
        ≡ first_of (lookup name registered) (lookup wildcard_name registered)
  unfolding callback_for
  callback_for-first_of name registered = by_cases (lookup name registered)
    where
      by_cases :
          (o : Option K) → or_wildcard o registered ≡ first_of o (lookup wildcard_name registered)
      by_cases none = refl
      by_cases (some k) = refl

  lookup-deregister :
      (name other : String) (k : K) (registered : Dict K)
      → lookup name registered ≡ none
      → lookup other (deregister name (register name k registered).1) ≡ lookup other registered
  unfolding deregister
  lookup-deregister name other k registered new = elim (Bool-cases (name == other)) [
    | inl same ↦
        rw (lookup-delete name other (register name k registered).1, same)
          (rw (← (eq_iff name other).0 same) (sym new))
    | inr differs ↦
        rw
          (
            lookup-delete name other (register name k registered).1,
            differs,
            lookup-register name other k registered new,
            differs,
          )
          refl
  ]

  -- A callback for a name that has none yet is accepted. An updated name then has its own callback
  -- if there is one, and the wildcard's otherwise, where the new one is what its name has; and when
  -- it is removed again every name has the callback it had before.
  pub register-deregister :
      (name other : String) (k : K) (registered : Dict K)
      → lookup name registered ≡ none
      → ((register name k registered).0 ≡ none)
        × (callback_for other (register name k registered).1
            ≡ first_of
                (if name == other then some k else lookup other registered)
                (if name == wildcard_name then some k else lookup wildcard_name registered))
        × (callback_for other (deregister name (register name k registered).1)
            ≡ callback_for other registered)
  register-deregister name other k registered new =
      let added : Dict K = (register name k registered).1 in
      (
        unfold register in rw new refl,
        callback_for-first_of other added
            ∙ rw
                (
                  lookup-register name other k registered new,
                  lookup-register name wildcard_name k registered new,
                )
                refl,
        callback_for-first_of other (deregister name added)
            ∙ rw
                (
                  lookup-deregister name other k registered new,
                  lookup-deregister name wildcard_name k registered new,
                )
                (sym (callback_for-first_of other registered)),
      )

  -- A name that has a callback keeps it: another one is refused.
  pub register_twice :
      (name : String) (k old : K) (registered : Dict K)
      → lookup name registered ≡ some old
      → register name k registered ≡ (some (already_registered name), registered)
  unfolding register
  register_twice name k old registered found = rw found refl
