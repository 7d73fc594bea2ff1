-- ===== src/Rest/Query/Ranges.antt =====
-- What ParseGetAllObjectsRequestQueryString promises about its results.
use go_mod_edge_utils.Prelude.{
  ℕ, suc, ℤ, pos, negsuc, int_lt, ◌≡◌, refl, sym, subst, ◌⊎◌, inl, inr, String, Bool, true, false,
  ◌||◌, List, [], arith, Bool-cases, ◌==◌, string_eq, trim_space,
}
use go_mod_edge_utils.Errors.{GoError, nil, base, BaseError, new_base_error}
use go_mod_edge_utils.Errors.Kinds.{kind_contract_invalid}
use go_mod_edge_utils.Rest.Query.{
  Parsed, number, syntax_error, contract_invalid, check_value_range, WithErr, of_parsed,
  parse_query_string_to_int, parse_query_string_to_strings, checked, crossed, outside, unparsed,
  AllObjects, with_labels, with_limit, with_offset, from_offset, parse_get_all_objects,
}

-- Neither below the least nor above the greatest value.
abbrev pub InRange : ℤ → ℤ → ℤ → Type 0
InRange min max n = (int_lt n min ≡ false) × (int_lt max n ≡ false)

-- A `BaseError` of the kind `KindContractInvalid`.
abbrev pub IsInvalid : GoError → Type 0
IsInvalid e = (f : BaseError) × (w : GoError) × (e ≡ base f w) × (f.kind ≡ kind_contract_invalid)

pub contract_invalid-IsInvalid :
    (frame : String) (text : List String) → IsInvalid (contract_invalid frame text)
unfolding contract_invalid new_base_error
contract_invalid-IsInvalid frame text = (_, _, refl, refl)

positive : (n : ℕ) → int_lt (pos 0) (pos (suc n)) ≡ true
positive n = ground arith

module _ (frame : String) where
  value_checked :
      (name : String) (value min max : ℤ)
      → ((check_value_range frame name value min max ≡ nil) × InRange min max value)
        ⊎ IsInvalid (check_value_range frame name value min max)
  unfolding check_value_range
  value_checked name value min max = elim (Bool-cases (int_lt max min)) [
    | inl empty ↦ inr (rw empty (contract_invalid-IsInvalid frame (crossed min max)))
    | inr ordered ↦ elim (Bool-cases (int_lt value min || int_lt max value)) [
      | inl beyond ↦
          inr (rw (ordered, beyond) (contract_invalid-IsInvalid frame (outside name value min max)))
      | inr inside ↦
          inl (rw (ordered, inside) refl, within (int_lt value min) (int_lt max value) inside)
    ]
  ]
    where
      within : (b c : Bool) → (b || c) ≡ false → (b ≡ false) × (c ≡ false)
      within true c h = absurd (ground arith)
      within false c h = (refl, h)

  -- With positive maxima, what comes out is in range or is an error.
  module _ (atoi : String → Parsed) (query : String → String)
      (max_offset max_result_count : ℕ) where
    abbrev pub Objects : Type 0
    Objects = AllObjects frame atoi query

    abbrev pub IsParsed : Objects → Type 0
    IsParsed r =
        ((r.err ≡ nil)
          × InRange (pos 0) (pos (suc max_offset)) r.offset
          × InRange (negsuc 0) (pos (suc max_result_count)) r.limit
          × (r.labels ≡ parse_query_string_to_strings frame atoi query "labels"))
        ⊎ (IsInvalid r.err × (r.labels ≡ []))

    with_labels-IsParsed :
        (offset limit : ℤ) (e : GoError)
        → InRange (pos 0) (pos (suc max_offset)) offset
        → ((e ≡ nil) × InRange (negsuc 0) (pos (suc max_result_count)) limit) ⊎ IsInvalid e
        → IsParsed (with_labels frame atoi query offset limit e)
    with_labels-IsParsed offset limit e ranged (inl (none, limited)) =
        subst (λ x. IsParsed (with_labels frame atoi query offset limit x)) (sym none)
          (inl (refl, ranged, limited, refl))
    with_labels-IsParsed offset limit e ranged (inr (f, w, is_base, invalid)) =
        subst (λ x. IsParsed (with_labels frame atoi query offset limit x)) (sym is_base)
          (inr ((f, w, refl, invalid), refl))

    with_limit-IsParsed :
        (offset : ℤ) (r : WithErr ℤ)
        → InRange (pos 0) (pos (suc max_offset)) offset
        → (r.1 ≡ nil) ⊎ IsInvalid r.1
        → IsParsed (with_limit frame atoi query (pos (suc max_result_count)) offset r)
    with_limit-IsParsed offset (limit, e) ranged (inl none) =
        subst
          (λ x.
            IsParsed (with_limit frame atoi query (pos (suc max_result_count)) offset (limit, x)))
          (sym none)
          (subst
            (λ b. IsParsed (
              with_labels frame atoi query offset limit (
                checked frame atoi query b
                  (check_value_range frame "limit" limit (negsuc 0) (pos (suc max_result_count))))))
            (sym (positive max_result_count))
            (with_labels-IsParsed offset limit
              (check_value_range frame "limit" limit (negsuc 0) (pos (suc max_result_count))) ranged
              (value_checked "limit" limit (negsuc 0) (pos (suc max_result_count)))))
    with_limit-IsParsed offset (limit, e) ranged (inr (f, w, is_base, invalid)) =
        subst
          (λ x.
            IsParsed (with_limit frame atoi query (pos (suc max_result_count)) offset (limit, x)))
          (sym is_base) (inr ((f, w, refl, invalid), refl))

    parsed_or_IsInvalid :
        (key : String) (default : ℤ)
        → ((parse_query_string_to_int frame atoi query key default).1 ≡ nil)
          ⊎ IsInvalid (parse_query_string_to_int frame atoi query key default).1
    unfolding parse_query_string_to_int
    parsed_or_IsInvalid key default = elim (Bool-cases (query key == "")) [
      | inl empty ↦ inl (rw empty refl)
      | inr given ↦ rw given (of_parsed_or_IsInvalid (atoi (trim_space (query key))))
    ]
      where
        of_parsed_or_IsInvalid :
            (p : Parsed)
            → ((of_parsed frame atoi query key p).1 ≡ nil)
              ⊎ IsInvalid (of_parsed frame atoi query key p).1
        of_parsed_or_IsInvalid (number n) = inl refl
        of_parsed_or_IsInvalid (syntax_error text) =
            inr (contract_invalid-IsInvalid frame (unparsed key (query key) text))

    with_offset-IsParsed :
        (offset : ℤ) (e : GoError)
        → ((e ≡ nil) × InRange (pos 0) (pos (suc max_offset)) offset) ⊎ IsInvalid e
        → IsParsed (with_offset frame atoi query (pos (suc max_result_count)) offset e)
    with_offset-IsParsed offset e (inl (none, ranged)) =
        subst (λ x. IsParsed (with_offset frame atoi query (pos (suc max_result_count)) offset x))
          (sym none)
          (with_limit-IsParsed offset (parse_query_string_to_int frame atoi query "limit" (pos 20))
            ranged (parsed_or_IsInvalid "limit" (pos 20)))
    with_offset-IsParsed offset e (inr (f, w, is_base, invalid)) =
        subst (λ x. IsParsed (with_offset frame atoi query (pos (suc max_result_count)) offset x))
          (sym is_base) (inr ((f, w, refl, invalid), refl))

    from_offset-IsParsed :
        (r : WithErr ℤ)
        → (r.1 ≡ nil) ⊎ IsInvalid r.1
        → IsParsed
            (from_offset frame atoi query (pos (suc max_offset)) (pos (suc max_result_count)) r)
    from_offset-IsParsed (offset, e) (inl none) =
        subst
          (λ x. IsParsed (
            from_offset frame atoi query (pos (suc max_offset)) (pos (suc max_result_count))
              (offset, x)))
          (sym none)
          (subst
            (λ b. IsParsed (
              with_offset frame atoi query (pos (suc max_result_count)) offset (
                checked frame atoi query b
                  (check_value_range frame "offset" offset (pos 0) (pos (suc max_offset))))))
            (sym (positive max_offset))
            (with_offset-IsParsed offset
              (check_value_range frame "offset" offset (pos 0) (pos (suc max_offset)))
              (value_checked "offset" offset (pos 0) (pos (suc max_offset)))))
    from_offset-IsParsed (offset, e) (inr (f, w, is_base, invalid)) =
        subst
          (λ x. IsParsed (
            from_offset frame atoi query (pos (suc max_offset)) (pos (suc max_result_count))
              (offset, x)))
          (sym is_base) (inr ((f, w, refl, invalid), refl))

    -- For every query, with positive maxima, ParseGetAllObjectsRequestQueryString gives an offset
    -- from 0 to its maximum, a limit from -1 to its maximum and the labels of the query, or else an
    -- error of the kind KindContractInvalid and no labels.
    pub parse_get_all_objects-IsParsed :
        IsParsed (
          parse_get_all_objects frame atoi query
            (pos (suc max_offset))
            (pos (suc max_result_count)))
    unfolding parse_get_all_objects
    parse_get_all_objects-IsParsed =
        from_offset-IsParsed (parse_query_string_to_int frame atoi query "offset" (pos 0))
          (parsed_or_IsInvalid "offset" (pos 0))
