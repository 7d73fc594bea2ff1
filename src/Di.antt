-- ===== src/Di.antt =====
-- pkg/di/container.go: services that are constructed when they are first asked for.
pub mod Kept
pub mod Singleton
pub mod Termination
pub mod Update
mod Tests
use go_mod_edge_utils.Prelude.{
  ℕ, zero, suc, ◌≡◌, String, Bool, Option, none, some, List, [], ◌∷◌, Dict, lookup, insert,
}

-- `ServiceConstructor`: a function of the container's `get` and of nothing else. It asks for services
-- one after another, each by a name that may depend on the answers, and gives an instance or nil.
pub data Constructor (V : Type 0) : Type 0 where
  gives : Option V → Constructor V
  asks : String → (Option V → Constructor V) → Constructor V

-- `service`
pub record Service (V : Type 0) : Type 0 where
  pub constructor : Constructor V
  pub instance_ : Option V

-- `serviceMap`
abbrev pub Container : Type 0 → Type 0
Container V = Dict (Service V)

-- The answer and the container after it; `none` where the recursion does not end.
abbrev pub Outcome : Type 0 → Type 0
Outcome V = Option (Option V × Container V)

module _ {V : Type 0} where
  -- `Update`, in the order in which `range` visits the constructors.
  unfoldable pub update : Dict (Constructor V) → Container V → Container V
  update [] c = c
  update ((name, k) ∷ ks) c =
      update ks (insert name (record { constructor = k; instance_ = none }) c)

  -- `NewContainer`; a nil map is an empty one.
  unfoldable pub new_container : Dict (Constructor V) → Container V
  unfolding update
  new_container ks = update ks []

  abbrev pub and_then : Outcome V → (Option V → Container V → Outcome V) → Outcome V
  and_then none k = none
  and_then (some (r, c)) k = k r c

  -- A run of a constructor over a `get`.
  unfoldable pub construct :
      (String → Container V → Outcome V) → Constructor V → Container V → Outcome V
  construct get (gives r) c = some (r, c)
  construct get (asks name k) c = and_then (get name c) (λ r. construct get (k r))

  abbrev pub store : String → Service V → Outcome V → Outcome V
  store name s o = and_then o (λ r c. some (r, insert name (record s { instance_ = r }) c))

  -- What `get` does with the service that it found: give its instance, or construct it and keep it.
  unfoldable pub serve :
      (Constructor V → Container V → Outcome V)
      → String
      → Service V
      → Option V
      → Container V
      → Outcome V
  serve run name s (some v) c = some (some v, c)
  serve run name s none c = store name s (run s.constructor c)

  unfoldable pub answer :
      (Constructor V → Container V → Outcome V)
      → String
      → Option (Service V)
      → Container V
      → Outcome V
  unfolding serve
  answer run name none c = some (none, c)
  answer run name (some s) c = serve run name s s.instance_ c

  -- `get`, with a bound on the depth of the recursion, called while no other call is under way: `Get`
  -- takes a read lock only, so calls that are under way together could interleave in `get`.
  unfoldable pub get : ℕ → String → Container V → Outcome V
  unfolding construct answer
  get zero name c = none
  get (suc depth) name c = answer (construct (get depth)) name (lookup name c) c
