-- ===== src/Log/Written.antt =====
-- Which calls of a logger write a line.
use go_mod_edge_utils.Prelude.{
  ℕ, suc, ◌%◌, String, Bool, true, false, Option, none, some, List, [], ◌∷◌, ◌++◌, append_assoc,
  append-nil, length, length-append, map, All, All-append, ltb, if◌then◌else◌, ◌==◌, string_eq,
  nat_eq, Bool-cases, inl, inr, ◌≡◌, refl, ◌∙◌, arith,
}
use go_mod_edge_utils.Log.{
  log_levels, is_valid_log_level, is_below, Arg, given, Line, Logger, padded, with_msg, fields_of,
  emit, log, set_log_level, Call, set_level, call_info, call_trace, call_debug, call_warn,
  call_error, call_infof, call_tracef, call_debugf, call_warnf, call_errorf, step, run, info_log,
  trace_log, debug_log, warn_log, error_log,
}

-- The place of a level among the levels, which go from the most to the least verbose.
place : List String → String → ℕ
place [] l = 0
place (name ∷ names) l = if name == l then 0 else suc (place names l)

unfoldable pub severity : String → ℕ
unfolding place
severity l = place log_levels l

is_below-place :
    (names : List String) (minimum level : String)
    → is_below names minimum level ≡ ltb (place names level) (place names minimum)
unfolding is_below place
is_below-place [] minimum level = refl
is_below-place (name ∷ names) minimum level = ground (arith, is_below-place names minimum level)

-- A key for each value.
abbrev pub IsPaired {ℓ} : {A : Type ℓ} → Line A → Type 0
IsPaired line = length line.fields % 2 ≡ 0

-- What a call that logs asks for: the level, whether the message is a format, the message and the
-- arguments.
pub record Wanted {ℓ} (A : Type ℓ) : Type ℓ where
  pub level : String
  pub formatted : Bool
  pub msg : String
  pub args : List A

module _ {ℓ} {A : Type ℓ} where
  abbrev wants : String → Bool → String → List A → Option (Wanted A)
  wants level formatted msg args =
      some (record { level = level; formatted = formatted; msg = msg; args = args })

  unfoldable pub wanted : Call A → Option (Wanted A)
  wanted (set_level level) = none
  wanted (call_info msg args) = wants info_log false msg args
  wanted (call_trace msg args) = wants trace_log false msg args
  wanted (call_debug msg args) = wants debug_log false msg args
  wanted (call_warn msg args) = wants warn_log false msg args
  wanted (call_error msg args) = wants error_log false msg args
  wanted (call_infof msg args) = wants info_log true msg args
  wanted (call_tracef msg args) = wants trace_log true msg args
  wanted (call_debugf msg args) = wants debug_log true msg args
  wanted (call_warnf msg args) = wants warn_log true msg args
  wanted (call_errorf msg args) = wants error_log true msg args

  -- The minimum level behind a call: a level that is not valid changes nothing.
  unfoldable pub minimum_after : String → Call A → String
  minimum_after minimum (set_level level) = if is_valid_log_level level then level else minimum
  minimum_after minimum _ = minimum

  module _ (sprintf : String → List A → String) where
    abbrev line_of : Wanted A → Line A
    line_of w = record { level = w.level; fields = fields_of sprintf w.formatted w.msg w.args }

    -- The line that a call writes at a minimum level, if any.
    unfoldable pub lines_at : String → Option (Wanted A) → List (Line A)
    lines_at minimum none = []
    lines_at minimum (some w) =
        if ltb (severity w.level) (severity minimum) then [] else line_of w ∷ []

    -- The lines of a sequence of calls.
    unfoldable pub expected : String → List (Call A) → List (Line A)
    unfolding lines_at wanted minimum_after
    expected minimum [] = []
    expected minimum (c ∷ cs) = lines_at minimum (wanted c) ++ expected (minimum_after minimum c) cs

    padded_even : (args : List (Arg A)) → length (padded args) % 2 ≡ 0
    padded_even args = elim (Bool-cases (length args % 2 == 1)) [
      | inl odd ↦ rw odd (rw length-append (ground arith))
      | inr even ↦ rw even (ground arith)
    ]

    with_msg_even :
        (msg : String) (args : List (Arg A))
        → length args % 2 ≡ 0
        → length (with_msg msg args) % 2 ≡ 0
    with_msg_even msg args h = elim (Bool-cases (msg == "")) [
      | inl empty ↦ rw empty h
      | inr full ↦ rw full (rw length-append (omega (arith, h)))
    ]

    fields_of_even :
        (formatted : Bool) (msg : String) (args : List A)
        → length (fields_of sprintf formatted msg args) % 2 ≡ 0
    fields_of_even formatted msg [] = refl
    fields_of_even true msg (a ∷ args) = refl
    fields_of_even false msg (a ∷ args) = with_msg_even msg _ (padded_even (map given (a ∷ args)))

    lines_at-IsPaired :
        (minimum : String) (w : Option (Wanted A)) → All IsPaired (lines_at minimum w)
    unfolding lines_at
    lines_at-IsPaired minimum none = tt
    lines_at-IsPaired minimum (some w) =
        elim (Bool-cases (ltb (severity w.level) (severity minimum))) [
          | inl low ↦ rw low tt
          | inr high ↦ rw high (fields_of_even w.formatted w.msg w.args, tt)
        ]

    expected-IsPaired : (minimum : String) (cs : List (Call A)) → All IsPaired (expected minimum cs)
    unfolding expected
    expected-IsPaired minimum [] = tt
    expected-IsPaired minimum (c ∷ cs) =
        All-append IsPaired _ _ (lines_at-IsPaired minimum (wanted c))
          (expected-IsPaired (minimum_after minimum c) cs)

    module _ (takes : Line A → Bool) (all : (line : Line A) → takes line ≡ true) where
      emit-written :
          (line : Line A) (l : Logger A)
          → emit sprintf takes line l ≡ some (record l { written = l.written ++ line ∷ [] })
      emit-written line l = rw (all line)

      log-written :
          (level : String) (formatted : Bool) (msg : String) (args : List A) (l : Logger A)
          → log sprintf takes level formatted msg args l
            ≡ some (record l {
              written = l.written ++ lines_at l.log_level (wants level formatted msg args);
            })
      unfolding log lines_at severity
      log-written level formatted msg args l =
          rw (is_below-place log_levels l.log_level level)
            (elim (Bool-cases (ltb (severity level) (severity l.log_level))) [
              | inl low ↦ rw low (rw append-nil)
              | inr high ↦ rw high (emit-written _ l)
            ])

      set-written :
          (level : String) (l : Logger A)
          → ◌≡◌ {A = Option (Logger A)} (some (set_log_level level l).0) (
              some (record l {
                log_level = if is_valid_log_level level then level else l.log_level;
                written = l.written ++ [];
              }))
      unfolding set_log_level
      set-written level l = elim (Bool-cases (is_valid_log_level level)) [
        | inl valid ↦ rw valid (rw append-nil)
        | inr bad ↦ rw bad (rw append-nil)
      ]

      step-written :
          (c : Call A) (l : Logger A)
          → step sprintf takes c l
            ≡ some (record l {
              log_level = minimum_after l.log_level c;
              written = l.written ++ lines_at l.log_level (wanted c);
            })
      unfolding step wanted minimum_after lines_at
      step-written (set_level level) l = set-written level l
      step-written (call_info msg args) l = log-written info_log false msg args l
      step-written (call_trace msg args) l = log-written trace_log false msg args l
      step-written (call_debug msg args) l = log-written debug_log false msg args l
      step-written (call_warn msg args) l = log-written warn_log false msg args l
      step-written (call_error msg args) l = log-written error_log false msg args l
      step-written (call_infof msg args) l = log-written info_log true msg args l
      step-written (call_tracef msg args) l = log-written trace_log true msg args l
      step-written (call_debugf msg args) l = log-written debug_log true msg args l
      step-written (call_warnf msg args) l = log-written warn_log true msg args l
      step-written (call_errorf msg args) l = log-written error_log true msg args l

      run_written :
          (cs : List (Call A)) (l : Logger A)
          → (r : Logger A) × (run sprintf takes cs l ≡ some r)
            × (r.written ≡ l.written ++ expected l.log_level cs)
      unfolding run expected
      run_written [] l = (l, refl, rw append-nil)
      run_written (c ∷ cs) l =
          let next : Logger A = record l {
            log_level = minimum_after l.log_level c;
            written = l.written ++ lines_at l.log_level (wanted c);
          } in
          let (r, e, w) = run_written cs next in
          (r, rw (step-written c l, run) e, w ∙ append_assoc l.written _ _)

      -- If the writer takes every line, a sequence of calls writes, in order, one line for each call
      -- whose level is at least as severe as the last valid level that was set before it, and none
      -- for any other call; and in every line each value has a key.
      pub run-IsPaired :
          (cs : List (Call A)) (l : Logger A)
          → (r : Logger A) × (run sprintf takes cs l ≡ some r)
            × (r.written ≡ l.written ++ expected l.log_level cs)
            × All IsPaired (expected l.log_level cs)
      run-IsPaired cs l =
          let (r, e, w) = run_written cs l in (r, e, w, expected-IsPaired l.log_level cs)
