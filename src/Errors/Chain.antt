-- ===== src/Errors/Chain.antt =====
-- Reading a chain of errors: `Kind`, `Details` and `Error` against the list of what `Unwrap` gives.
use Prim.Native.String
use go_mod_edge_utils.Prelude.{
  ◌≡◌, refl, ◌≢◌, inl, inr, String, not, none, some, List, [], ◌∷◌, ◌==◌, string_eq, if◌then◌else◌,
  arith, eq_iff, Bool-cases,
}
use go_mod_edge_utils.Errors.{
  BaseError, ErrKind, kind_unknown, GoError, nil, foreign, base, http, is_nil, base_text, error,
  as_base, kind,
}

-- The `BaseError` values of the chain, outermost first.
unfoldable pub bases : GoError → List BaseError
bases nil = []
bases (foreign text w) = bases w
bases (base f w) = f ∷ bases w
bases (http f w c) = bases w

unfoldable pub first_known : List BaseError → ErrKind
first_known [] = kind_unknown
first_known (f ∷ fs) = if f.kind == kind_unknown then first_known fs else f.kind

-- `Kind` gives the kind of the outermost `BaseError` of the chain whose kind is not `KindUnknown`,
-- or `KindUnknown` if there is none. The kind that an `HTTPError` embeds does not count.
pub kind-first_known : (e : GoError) → kind e ≡ first_known (bases e)
unfolding kind first_known bases
kind-first_known nil = refl
kind-first_known (foreign text w) = kind-first_known w
kind-first_known (base f nil) = ground (arith, eq_iff f.kind kind_unknown)
kind-first_known (base f w) = ground (arith, kind-first_known w)
kind-first_known (http f w c) = kind-first_known w

-- `Kind` is the recursion that the code writes: through `errors.As` and then the wrapped error.
pub kind-as_base :
    (e : GoError)
    → kind e ≡ elim (as_base e) [
      | none ↦ kind_unknown
      | some (f, w) ↦
          if not (f.kind == kind_unknown) then f.kind else if is_nil w then f.kind else kind w
    ]
unfolding kind as_base
kind-as_base nil = refl
kind-as_base (foreign text w) = kind-as_base w
kind-as_base (base f w) = refl
kind-as_base (http f w c) = kind-as_base w

-- What one error of this package adds in front of the texts of the error that it wraps.
unfoldable pub shown : BaseError → GoError → List String → List String
shown f w inner =
    if is_nil w then f.message ∷ [] else if f.message == "" then inner else f.message ∷ inner

-- The texts of a chain: every message that is not empty, down to the first error that is not of
-- this package, or to the last error whatever its message.
unfoldable pub texts : GoError → List String
texts nil = []
texts (foreign text w) = text ∷ []
texts (base f w) = shown f w (texts w)
texts (http f w c) = shown f w (texts w)

unfoldable pub join : List String → String
join [] = ""
join (s ∷ []) = s
join (s ∷ t ∷ ts) = String.◌++◌ s (String.◌++◌ " -> " (join (t ∷ ts)))

abbrev IsNonempty : List String → Type 0
IsNonempty ts = (s : String) × (rest : List String) × (ts ≡ s ∷ rest)

shown-IsNonempty :
    (f : BaseError) (w : GoError) (inner : List String)
    → (w ≢ nil → IsNonempty inner)
    → IsNonempty (shown f w inner)
unfolding shown
shown-IsNonempty f nil inner h = (f.message, [], refl)
shown-IsNonempty f w inner h = elim (Bool-cases (f.message == "")) [
  | inl e ↦ rw e (h (λ p. cc))
  | inr e ↦ rw e (f.message, inner, refl)
]

texts-IsNonempty : (e : GoError) → e ≢ nil → IsNonempty (texts e)
unfolding texts
texts-IsNonempty nil h = absurd (h refl)
texts-IsNonempty (foreign text w) h = (text, [], refl)
texts-IsNonempty (base f w) h = shown-IsNonempty f w (texts w) (texts-IsNonempty w)
texts-IsNonempty (http f w c) h = shown-IsNonempty f w (texts w) (texts-IsNonempty w)

join-shown :
    (f : BaseError) (w : GoError) (inner : List String)
    → (w ≢ nil → IsNonempty inner)
    → base_text f w (join inner) ≡ join (shown f w inner)
unfolding shown base_text join
join-shown f nil inner h = refl
join-shown f w inner h =
    let (t, ts, e) = h (λ p. cc) in
    elim (Bool-cases (f.message == "")) [ inl p ↦ rw p | inr p ↦ rw (p, e) ]

-- Error is the messages of the chain that are not empty, down to the first error that is not of
-- this package, whose text comes last, joined by arrows; if every error of the chain is of this
-- package, the message of the last one comes last even if it is empty.
pub error-texts : (e : GoError) → error e ≡ join (texts e)
unfolding error texts join
error-texts nil = refl
error-texts (foreign text w) = refl
error-texts (base f w) = rw (error-texts w) (join-shown f w (texts w) (texts-IsNonempty w))
error-texts (http f w c) = rw (error-texts w) (join-shown f w (texts w) (texts-IsNonempty w))
