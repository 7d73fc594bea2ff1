-- ===== src/Errors/Tests.antt =====
-- Runs of pkg/errors on concrete errors.
use go_mod_edge_utils.Prelude.{ℕ, ◌≡◌, refl, none, some, [], ◌∷◌, arith, decimal, ◌≢◌}
use go_mod_edge_utils.Errors.{
  kind_unknown, GoError, nil, foreign, base, http, error, message, kind, debug_messages, Maps,
}
use go_mod_edge_utils.Errors.Kinds.{kind_status_conflict}
use go_mod_edge_utils.Errors.Http.{new_http_error, code_mapping}
use go_mod_edge_utils.Errors.Chain.{first_known, bases, texts, join, kind-first_known, error-texts}

abbrev conflict : GoError
conflict =
    base
      (record {
        kind = kind_status_conflict;
        message = "busy";
        caller_info = "a";
        details = some 0;
      })
      (foreign "EOF" nil)

abbrev outer : GoError
outer =
    base (record { kind = kind_unknown; message = "save"; caller_info = "b"; details = none })
      (http (record { kind = "X"; message = ""; caller_info = "c"; details = none }) conflict 409)

error-outer : error outer ≡ "save -> busy -> EOF"
unfolding error
error-outer = refl

message_http : message (new_http_error "f" conflict) ≡ "busy(status code:409)"
unfolding message new_http_error kind code_mapping decimal
message_http = refl

debug_outer : debug_messages outer ≡ "b: save -> busy -> EOF"
unfolding debug_messages error
debug_outer = refl

kind-first_known_example : kind outer ≡ first_known (bases outer)
kind-first_known_example = kind-first_known outer

error-texts_example : error outer ≡ join (texts outer)
error-texts_example = error-texts outer

outer_ne_nil : outer ≢ nil
outer_ne_nil h = ground arith

abbrev one_map : Maps ℕ
one_map = [] ∷ []
