-- ===== src/Rest/Query/Times.antt =====
-- pkg/rest/utils.go: the other parameters of a query, of logs and of a span of time.
use go_mod_edge_utils.Prelude.{
  ◌≡◌, refl, sym, subst, ◌⊎◌, inl, inr, ℤ, pos, String, Bool, false, List, [], ◌∷◌, trim_space,
  ◌==◌, string_eq, eq_iff, Bool-cases, if◌then◌else◌,
}
use go_mod_edge_utils.Errors.{GoError, BaseError, nil, base, new_base_error}
use go_mod_edge_utils.Errors.Kinds.{kind_contract_invalid}
use go_mod_edge_utils.Rest.Query.{
  Parsed, number, syntax_error, contract_invalid, WithErr, of_parsed, unparsed,
  parse_query_string_to_int,
}
use go_mod_edge_utils.Rest.Query.Ranges.{IsInvalid, contract_invalid-IsInvalid}
use go_mod_edge_utils.Rest.Requests.{Try, done, raised}

abbrev pub unparsed64 : String → String → String → List String
unparsed64 key found message =
    "failed to parse querystring " ∷ key ∷ "'s value " ∷ found ∷ " into int64. Error:" ∷ message
    ∷ []

abbrev pub unparsed_bool : String → String → List String
unparsed_bool key message =
    "failed to parse querystring " ∷ key ∷ " into bool. Error:" ∷ message ∷ []

-- What `ParseGetLogsRequestQueryString` gives.
pub record Logs : Type 0 where
  pub since : ℤ
  pub until : ℤ
  pub tail : ℤ
  pub timestamps : Bool
  pub err : GoError

-- What `ParseStartEndRequestQueryString` gives.
pub record StartEnd : Type 0 where
  pub start : ℤ
  pub stop : ℤ
  pub err : GoError

-- `strconv.Atoi`, `strconv.ParseInt` and `strconv.ParseBool`, and the query by key.
module _ (frame : String) (atoi parse_int : String → Parsed) (parse_bool : String → Try String Bool)
    (query : String → String) where
  -- `ParseQueryStringToString`
  unfoldable pub parse_query_string_to_string : String → String → String
  parse_query_string_to_string key default = if query key == "" then default else query key

  abbrev pub of_int64 : String → Parsed → WithErr ℤ
  of_int64 key (number n) = (n, nil)
  of_int64 key (syntax_error t) = (pos 0, contract_invalid frame (unparsed64 key (query key) t))

  -- `parseQueryStringToInt64`
  unfoldable pub parse_query_string_to_int64 : String → ℤ → WithErr ℤ
  unfolding contract_invalid trim_space
  parse_query_string_to_int64 key default =
      if query key == "" then (default, nil) else of_int64 key (parse_int (trim_space (query key)))

  abbrev pub of_bool : String → Try String Bool → WithErr Bool
  of_bool key (done b) = (b, nil)
  of_bool key (raised t) = (false, contract_invalid frame (unparsed_bool key t))

  -- `parseQueryStringToBool`
  unfoldable pub parse_query_string_to_bool : String → WithErr Bool
  unfolding contract_invalid trim_space
  parse_query_string_to_bool key =
      if query key == "" then (false, nil) else of_bool key (parse_bool (trim_space (query key)))

  -- `err` after the test of one of the two parsing errors.
  abbrev pub converted : String → GoError → GoError → GoError
  converted message before nil = before
  converted message before e = new_base_error frame kind_contract_invalid message e

  -- `ParseStartEndRequestQueryString` at the time `now`; the second error replaces the first.
  unfoldable pub parse_start_end : ℤ → StartEnd
  unfolding parse_query_string_to_int64 new_base_error
  parse_start_end now =
      let (start, start_err) = parse_query_string_to_int64 "start" (pos 0) in
      let (stop, stop_err) = parse_query_string_to_int64 "end" now in
      record {
        start = start;
        stop = stop;
        err =
            converted "unable to convert 'end' value to int"
              (converted "unable to convert 'start' value to int" nil start_err) stop_err;
      }

  abbrev pub with_timestamps : ℤ → ℤ → ℤ → WithErr Bool → Logs
  with_timestamps since until tail (b, e) = record {
    since = since;
    until = until;
    tail = tail;
    timestamps = b;
    err = e;
  }

  abbrev pub with_tail : ℤ → ℤ → WithErr ℤ → Logs
  with_tail since until (tail, nil) =
      with_timestamps since until tail (parse_query_string_to_bool "timestamps")
  with_tail since until (tail, e) = with_timestamps since until tail (false, e)

  abbrev pub with_until : ℤ → WithErr ℤ → Logs
  with_until since (until, nil) =
      with_tail since until (parse_query_string_to_int frame atoi query "tail" (pos 200))
  with_until since (until, e) = with_timestamps since until (pos 0) (false, e)

  abbrev pub with_since : WithErr ℤ → Logs
  with_since (since, nil) =
      with_until since (parse_query_string_to_int frame atoi query "until" (pos 0))
  with_since (since, e) = with_timestamps since (pos 0) (pos 0) (false, e)

  -- `ParseGetLogsRequestQueryString`
  unfoldable pub parse_get_logs : Logs
  unfolding parse_query_string_to_int parse_query_string_to_bool
  parse_get_logs = with_since (parse_query_string_to_int frame atoi query "since" (pos 0))

  -- A number out of the query, or the default for a key that it does not have.
  abbrev pub IsTaken : String → ℤ → ℤ → Type 0
  IsTaken key default n =
      ((query key ≡ "") × (n ≡ default)) ⊎ (atoi (trim_space (query key)) ≡ number n)

  abbrev pub IsTakenBool : String → Bool → Type 0
  IsTakenBool key b =
      ((query key ≡ "") × (b ≡ false)) ⊎ (parse_bool (trim_space (query key)) ≡ done b)

  abbrev IsTakenOr : {A : Type 0} → (A → Type 0) → WithErr A → Type 0
  IsTakenOr P (a, e) = (P a × (e ≡ nil)) ⊎ IsInvalid e

  parse_int-IsTakenOr :
      (key : String) (default : ℤ)
      → IsTakenOr (IsTaken key default) (parse_query_string_to_int frame atoi query key default)
  unfolding parse_query_string_to_int
  parse_int-IsTakenOr key default = elim (Bool-cases (query key == "")) [
    | inl lacking ↦ rw lacking (inl (inl ((eq_iff _ _).0 lacking, refl), refl))
    | inr given ↦ rw given (of (atoi (trim_space (query key))) refl)
  ]
    where
      of :
          (p : Parsed)
          → atoi (trim_space (query key)) ≡ p
          → IsTakenOr (IsTaken key default) (of_parsed frame atoi query key p)
      of (number n) h = inl (inr h, refl)
      of (syntax_error t) h = inr (contract_invalid-IsInvalid frame (unparsed key (query key) t))

  parse_bool-IsTakenOr :
      (key : String) → IsTakenOr (IsTakenBool key) (parse_query_string_to_bool key)
  unfolding parse_query_string_to_bool
  parse_bool-IsTakenOr key = elim (Bool-cases (query key == "")) [
    | inl lacking ↦ rw lacking (inl (inl ((eq_iff _ _).0 lacking, refl), refl))
    | inr given ↦ rw given (of (parse_bool (trim_space (query key))) refl)
  ]
    where
      of :
          (p : Try String Bool)
          → parse_bool (trim_space (query key)) ≡ p
          → IsTakenOr (IsTakenBool key) (of_bool key p)
      of (done b) h = inl (inr h, refl)
      of (raised t) h = inr (contract_invalid-IsInvalid frame (unparsed_bool key t))

  -- Without an error, the four values are those of the query or the defaults.
  abbrev pub IsLogs : Logs → Type 0
  IsLogs r =
      ((r.err ≡ nil)
        × IsTaken "since" (pos 0) r.since
        × IsTaken "until" (pos 0) r.until
        × IsTaken "tail" (pos 200) r.tail
        × IsTakenBool "timestamps" r.timestamps)
      ⊎ IsInvalid r.err

  -- A test of an error that is nil or invalid.
  tested :
      {A : Type 0} (P : A → Type 0) (a : A) (e : GoError) (next : GoError → Logs)
      → (P a → IsLogs (next nil))
      → ((f : BaseError) (w : GoError) → IsInvalid (base f w) → IsLogs (next (base f w)))
      → IsTakenOr P (a, e)
      → IsLogs (next e)
  tested P a e next good bad (inl (taken, none)) =
      subst (λ x. IsLogs (next x)) (sym none) (good taken)
  tested P a e next good bad (inr (f, w, is_base, invalid)) =
      subst (λ x. IsLogs (next x)) (sym is_base) (bad f w (f, w, refl, invalid))

  -- ParseGetLogsRequestQueryString gives since, until, tail and timestamps of the query, with 0, 0,
  -- 200 and false for those that the query does not have, or else an error of the kind
  -- KindContractInvalid.
  pub parse_get_logs-IsLogs : IsLogs parse_get_logs
  unfolding parse_get_logs
  parse_get_logs-IsLogs =
      let since = parse_query_string_to_int frame atoi query "since" (pos 0) in
      let until = parse_query_string_to_int frame atoi query "until" (pos 0) in
      let tail = parse_query_string_to_int frame atoi query "tail" (pos 200) in
      let stamps = parse_query_string_to_bool "timestamps" in
      tested (IsTaken "since" (pos 0)) since.0 since.1 (λ e. with_since (since.0, e))
        (λ s.
          tested (IsTaken "until" (pos 0)) until.0 until.1 (λ e. with_until since.0 (until.0, e))
            (λ u.
              tested (IsTaken "tail" (pos 200)) tail.0 tail.1
                (λ e. with_tail since.0 until.0 (tail.0, e))
                (λ t.
                  tested (IsTakenBool "timestamps") stamps.0 stamps.1
                    (λ e. with_timestamps since.0 until.0 tail.0 (stamps.0, e))
                    (λ b. inl (refl, s, u, t, b)) (λ f w h. inr h)
                    (parse_bool-IsTakenOr "timestamps"))
                (λ f w h. inr h) (parse_int-IsTakenOr "tail" (pos 200)))
            (λ f w h. inr h) (parse_int-IsTakenOr "until" (pos 0)))
        (λ f w h. inr h) (parse_int-IsTakenOr "since" (pos 0))
