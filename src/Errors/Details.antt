-- ===== src/Errors/Details.antt =====
-- `AddDetail` on maps that several errors share.
use Prim.Native.Nat.{suc}
use go_mod_edge_utils.Prelude.{
  ℕ, zero, ◌≡◌, refl, ◌<◌, String, Option, none, some, [], ◌∷◌, ◌++◌, length, Dict, lookup, insert,
  lookup-insert, ◌==◌, string_eq, if◌then◌else◌, arith, Option-cases, inl, inr, ap,
}
use go_mod_edge_utils.Errors.{
  BaseError, GoError, base, as_base, details, base_error_wrapper, Maps, modify, add_detail,
}
use go_mod_edge_utils.Errors.Wrapping.{base_error_wrapper-Keeps}

module _ {V : Type 0} where
  unfoldable pub map_at : Maps V → ℕ → Dict V
  map_at [] r = []
  map_at (m ∷ ms) zero = m
  map_at (m ∷ ms) (suc r) = map_at ms r

  -- `Details(err)[key]`.
  unfoldable pub detail : String → GoError → Maps V → Option V
  detail key e ms = elim (details e) [ none ↦ none | some r ↦ lookup key (map_at ms r) ]

  map_at-modify :
      (r : ℕ) (g : Dict V → Dict V) (ms : Maps V)
      → r < length ms
      → map_at (modify r g ms) r ≡ g (map_at ms r)
  unfolding map_at modify
  map_at-modify r g [] h = elim h [ ]
  map_at-modify zero g (m ∷ ms) h = refl
  map_at-modify (suc r) g (m ∷ ms) h = map_at-modify r g ms (omega arith)

  map_at-append :
      (r : ℕ) (ms : Maps V) (m : Dict V) → r < length ms → map_at (ms ++ m ∷ []) r ≡ map_at ms r
  unfolding map_at
  map_at-append r [] m h = elim h [ ]
  map_at-append zero (n ∷ ms) m h = refl
  map_at-append (suc r) (n ∷ ms) m h = map_at-append r ms m (omega arith)

  -- A detail that is added to an error with a map is found in every error that has the same map,
  -- and no other key of that map changes.
  pub detail-add_detail :
      (f : BaseError) (w e : GoError) (r : ℕ) (k j : String) (v : V) (ms : Maps V)
      → f.details ≡ some r
      → details e ≡ some r
      → r < length ms
      → detail j e (add_detail (base f w) k v ms) ≡ (if k == j then some v else detail j e ms)
  unfolding detail add_detail
  detail-add_detail f w e r k j v ms hf he h =
      rw (he, hf, add_detail, detail)
        (rw (map_at-modify r (insert k v) ms h) (lookup-insert k j v (map_at ms r)))

  -- So a detail added to the inner error shows through `BaseErrorWrapper`.
  pub detail-base_error_wrapper :
      (frame : String) (f : BaseError) (w : GoError) (r : ℕ) (k j : String) (v : V) (ms : Maps V)
      → f.details ≡ some r
      → r < length ms
      → detail j (base_error_wrapper frame (base f w)) (add_detail (base f w) k v ms)
        ≡ (if k == j then some v else detail j (base f w) ms)
  unfolding detail details base_error_wrapper
  detail-base_error_wrapper frame f w r k j v ms hf h =
      let kept = (base_error_wrapper-Keeps frame (base f w)).same_details in
      rw kept (detail-add_detail f w (base f w) r k j v ms hf (unfold details as_base in hf) h)

  -- A detail that is added to an error without a map is lost: no error, the receiver included,
  -- shows any change.
  pub add_detail_lost :
      (f : BaseError) (w e : GoError) (k j : String) (v : V) (ms : Maps V)
      → f.details ≡ none
      → ((r : ℕ) → details e ≡ some r → r < length ms)
      → detail j e (add_detail (base f w) k v ms) ≡ detail j e ms
  unfolding detail add_detail
  add_detail_lost f w e k j v ms hf h = elim (Option-cases (details e)) [
    | inl nothing ↦ rw (nothing, detail)
    | inr (r, here) ↦
        rw (here, detail)
          (rw (hf, add_detail) (ap (lookup j) (map_at-append r ms ((k, v) ∷ []) (h r here))))
  ]
