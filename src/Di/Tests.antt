-- ===== src/Di/Tests.antt =====
-- The container of the package's comment: "bar" is constructed with "foo".
use go_mod_edge_utils.Prelude.{
  ℕ, ◌≡◌, refl, ◌+◌, inl, inr, String, Option, none, some, [], ◌∷◌, lookup, insert, arith, eq_iff,
  ◌==◌, string_eq, if◌then◌else◌, Bool-cases, subst,
}
use go_mod_edge_utils.Di.{Constructor, gives, asks, Container, update, new_container, get}
use go_mod_edge_utils.Di.Singleton.{get_singleton, get_all}
use go_mod_edge_utils.Di.Termination.{IsRanked, AsksBelow, get_ends}

abbrev bar_of : Option ℕ → Constructor ℕ
bar_of none = gives none
bar_of (some n) = gives (some (n + 10))

abbrev services : Container ℕ
services = new_container (("foo", gives (some 1)) ∷ ("bar", asks "foo" bar_of) ∷ [])

bar_answer : (c : Container ℕ) × (get 2 "bar" services ≡ some (some 11, c))
unfolding get new_container lookup insert
bar_answer = (_, refl)

get_singleton_example : get 2 "foo" (bar_answer).0 ≡ some (some 1, (bar_answer).0)
unfolding bar_answer get new_container lookup insert get_all
get_singleton_example =
    get_singleton 2 1 "foo" ("bar" ∷ []) services
      (("foo", record { constructor = gives (some 1); instance_ = some 1 })
        ∷ ("bar", record { constructor = asks "foo" bar_of; instance_ = none })
        ∷ [])
      (bar_answer).0 1 refl refl

abbrev rank_of : String → ℕ
rank_of name = if name == "bar" then 1 else 0

services-IsRanked : IsRanked rank_of services
unfolding IsRanked new_container update insert lookup
services-IsRanked name s found = elim (Bool-cases ("foo" == name)) [
  | inl foo ↦
      let first : some (record { constructor = gives (some 1); instance_ = none }) ≡ some s =
        rw foo at found in
      let made_by : gives (some 1) ≡ s.constructor = cc in
      subst (AsksBelow rank_of (rank_of name)) made_by tt
  | inr later ↦ elim (Bool-cases ("bar" == name)) [
    | inl bar ↦
        let second : some (record { constructor = asks "foo" bar_of; instance_ = none }) ≡ some s =
          rw (later, bar) at found in
        let made_by : asks "foo" bar_of ≡ s.constructor = cc in
        let named : "bar" ≡ name = (eq_iff "bar" name).0 bar in
        subst (AsksBelow rank_of (rank_of name)) made_by
          (subst (λ n. AsksBelow rank_of (rank_of n) (asks "foo" bar_of)) named bar_asks)
    | inr missing ↦ absurd (none_missing (rw (later, missing) at found))
  ]
]
  where
    bar_asks : AsksBelow rank_of (rank_of "bar") (asks "foo" bar_of)
    bar_asks = (omega arith, λ r. bar_gives r)
      where
        bar_gives : (r : Option ℕ) → AsksBelow rank_of 1 (bar_of r)
        bar_gives none = tt
        bar_gives (some n) = tt

    none_missing : none ≡ some s → ⊥
    none_missing h = ground arith

get_ends_example :
    (r : Option ℕ) × (d : Container ℕ) × (get 9 "bar" services ≡ some (r, d))
    × (get 9 "bar" services ≡ get 2 "bar" services)
get_ends_example = get_ends rank_of "bar" services 9 services-IsRanked (omega arith)
