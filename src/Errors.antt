-- ===== src/Errors.antt =====
-- pkg/errors/base.go and types.go: error values and the chain that `Unwrap` walks.
pub mod Kinds
pub mod Http
pub mod Chain
pub mod Wrapping
pub mod Details
mod Tests
use Prim.Native.String.{◌++◌}
use mathlib.Core.List
use go_mod_edge_utils.Prelude.{
  ℕ, zero, suc, ◌+◌, String, Bool, true, false, not, ◌&&◌, Option, none, some, List, [], ◌∷◌, ◌==◌,
  string_eq, if◌then◌else◌, Dict, insert, decimal, length,
}

-- `ErrKind` is a Go string type.
abbrev pub ErrKind : Type 0
ErrKind = String

abbrev pub kind_unknown : ErrKind
kind_unknown = "Unknown"

-- `details` is a Go map, so a reference that copies of the error share: an address in the store,
-- or `none` for a nil map.
pub record BaseError : Type 0 where
  pub kind : ErrKind
  pub message : String
  pub caller_info : String
  pub details : Option ℕ

-- A value of the interface `error`. `foreign` is any other error: its text, and what its `Unwrap`
-- gives. An `http` error embeds a `BaseError`, and `base` and `http` hold the `wrappedErr` last
-- but for the status code.
pub data GoError : Type 0 where
  nil : GoError
  foreign : String → GoError → GoError
  base : BaseError → GoError → GoError
  http : BaseError → GoError → ℕ → GoError

abbrev pub is_nil : GoError → Bool
is_nil nil = true
is_nil _ = false

abbrev pub is_base : GoError → Bool
is_base (base f w) = true
is_base _ = false

-- `BaseError.Error`, given the text of what it wraps.
unfoldable pub base_text : BaseError → GoError → String → String
base_text f w inner =
    if is_nil w then f.message else if f.message == "" then inner else f.message ++ " -> " ++ inner

-- `Error()`, which `HTTPError` inherits. It is never called on nil.
unfoldable pub error : GoError → String
unfolding base_text
error nil = ""
error (foreign text w) = text
error (base f w) = base_text f w (error w)
error (http f w code) = base_text f w (error w)

-- `Message()` of the embedded or outermost `BaseError`, given the message of what it wraps.
unfoldable pub base_message : BaseError → GoError → String → String
base_message f w inner =
    if f.message == "" && not (is_nil w) then (if is_base w then inner else error w) else f.message

-- `Message()`. Only the types of this package have the method.
unfoldable pub message : GoError → String
unfolding base_message
message nil = ""
message (foreign text w) = ""
message (base f w) = base_message f w (message w)
message (http f w code) = base_message f w (message w) ++ "(status code:" ++ decimal code ++ ")"

-- `BaseError.DebugMessages`, given those of what it wraps.
unfoldable pub base_debug : BaseError → GoError → String → String
base_debug f w inner =
    if is_nil w
    then f.caller_info ++ ": " ++ f.message
    else f.caller_info ++ ": " ++ f.message ++ " -> " ++ (if is_base w then inner else error w)

-- `DebugMessages()`, which `HTTPError` inherits.
unfoldable pub debug_messages : GoError → String
unfolding base_debug
debug_messages nil = ""
debug_messages (foreign text w) = ""
debug_messages (base f w) = base_debug f w (debug_messages w)
debug_messages (http f w code) = base_debug f w (debug_messages w)

-- `Code()`; `none` for a type that has no such method.
unfoldable pub code : GoError → Option ℕ
code (base f w) = some 1
code (http f w c) = some c
code _ = none

-- `Unwrap()`.
unfoldable pub unwrap : GoError → GoError
unwrap nil = nil
unwrap (foreign text w) = w
unwrap (base f w) = w
unwrap (http f w c) = w

-- `errors.As(err, &baseError)`: the first `BaseError` in the chain, with what it wraps.
unfoldable pub as_base : GoError → Option (BaseError × GoError)
as_base nil = none
as_base (foreign text w) = as_base w
as_base (base f w) = some (f, w)
as_base (http f w c) = as_base w

-- `errors.As(err, &e)` at the interface `Error`: the first error of this package, or nil.
unfoldable pub as_error : GoError → GoError
as_error nil = nil
as_error (foreign text w) = as_error w
as_error (base f w) = base f w
as_error (http f w c) = http f w c

-- `BaseError.Is`.
unfoldable pub is : GoError → Bool
is err = elim (as_base err) [ none ↦ false | some e ↦ true ]

-- `Kind`: an error that `errors.As` passes over is passed over here too.
unfoldable pub kind : GoError → ErrKind
kind nil = kind_unknown
kind (foreign text w) = kind w
kind (base f w) =
    let inner = kind w in
    if not (f.kind == kind_unknown) then f.kind else if is_nil w then f.kind else inner
kind (http f w c) = kind w

-- `Details`.
unfoldable pub details : GoError → Option ℕ
unfolding as_base
details err = elim (as_base err) [ none ↦ none | some (f, w) ↦ f.details ]

-- `NewBaseErrorWithDetails`; the caller's frame is an argument.
unfoldable pub new_base_error_with_details :
    String → ErrKind → String → GoError → Option ℕ → GoError
new_base_error_with_details frame k text err detail =
    base (record { kind = k; message = text; caller_info = frame; details = detail }) err

-- `NewBaseError`.
unfoldable pub new_base_error : String → ErrKind → String → GoError → GoError
new_base_error frame k text err =
    base (record { kind = k; message = text; caller_info = frame; details = none }) err

-- `BaseErrorWrapper`.
unfoldable pub base_error_wrapper : String → GoError → GoError
unfolding new_base_error_with_details
base_error_wrapper frame err = new_base_error_with_details frame (kind err) "" err (details err)

-- `ToBaseError`.
unfoldable pub to_base_error : String → GoError → GoError
unfolding new_base_error_with_details
to_base_error frame err =
    new_base_error_with_details frame (kind err) "" err
      (if is_nil (as_error err) then none else details (as_error err))

-- The maps that errors refer to; a new map takes the next address.
abbrev pub Maps : Type 0 → Type 0
Maps V = List (Dict V)

module _ {V : Type 0} where
  unfoldable pub modify : ℕ → (Dict V → Dict V) → Maps V → Maps V
  modify r g [] = []
  modify zero g (m ∷ ms) = g m ∷ ms
  modify (suc r) g (m ∷ ms) = m ∷ modify r g ms

  -- `AddDetail`. The receiver is a copy, so the map that it makes for a nil field is dropped
  -- with the copy.
  unfoldable pub add_detail : GoError → String → V → Maps V → Maps V
  unfolding modify
  add_detail (base f w) key detail ms = elim f.details [
    | none ↦ List.◌++◌ ms (((key, detail) ∷ []) ∷ [])
    | some r ↦ modify r (insert key detail) ms
  ]
  add_detail (http f w c) key detail ms = elim f.details [
    | none ↦ List.◌++◌ ms (((key, detail) ∷ []) ∷ [])
    | some r ↦ modify r (insert key detail) ms
  ]
  add_detail _ key detail ms = ms
