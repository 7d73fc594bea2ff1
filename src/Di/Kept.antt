-- ===== src/Di/Kept.antt =====
-- What holds between the containers before and after a `get`, whatever the constructors do.
use go_mod_edge_utils.Prelude.{
  ℕ, zero, suc, ◌≡◌, refl, String, Option, none, some, lookup, insert, string_eq, subst,
}
use go_mod_edge_utils.Di.{
  Constructor, gives, asks, Service, Container, Outcome, construct, get, and_then, serve, answer,
}

module _ {V : Type 0} where
  pub and_then-eq-some :
      (o : Outcome V) (k : Option V → Container V → Outcome V) {r : Option V} {c : Container V}
      → and_then o k ≡ some (r, c)
      → (r' : Option V) × (c' : Container V) × (o ≡ some (r', c')) × (k r' c' ≡ some (r, c))
  and_then-eq-some none k h = absurd (cc)
  and_then-eq-some (some (r', c')) k h = (r', c', refl, h)

  pub outcome-eq :
      {r s : Option V} {c d : Container V}
      → ◌≡◌ {A = Outcome V} (some (r, c)) (some (s, d))
      → (r ≡ s) × (c ≡ d)
  outcome-eq h = (cc, cc)

  -- A relation between containers that `get` keeps to: it is a preorder, and holds when the
  -- instance of a service that has none is stored.
  pub record IsKept (R : Container V → Container V → Type 0) : Type 0 where
    pub same : (c : Container V) → R c c
    pub chain : (a b c : Container V) → R a b → R b c → R a c
    pub stores :
        (name : String) (s : Service V) (r : Option V) (c c' : Container V)
        → lookup name c ≡ some s
        → s.instance_ ≡ none
        → R c c'
        → R c (insert name (record s { instance_ = r }) c')

  module _ (R : Container V → Container V → Type 0) (kept : IsKept R) where
    abbrev Respects : (Container V → Outcome V) → Type 0
    Respects run = (c c' : Container V) (r : Option V) → run c ≡ some (r, c') → R c c'

    construct-Respects :
        (g : String → Container V → Outcome V)
        → ((name : String) → Respects (g name))
        → (k : Constructor V) → Respects (construct g k)
    unfolding construct
    construct-Respects g h (gives r) c c' r' e = subst (R c) (outcome-eq e).1 (kept.same c)
    construct-Respects g h (asks name k) c c' r e =
        let (r', d, first, later) = and_then-eq-some (g name c) (λ r. construct g (k r)) e in
        kept.chain c d c' (h name c d r' first) (construct-Respects g h (k r') d c' r later)

    serve-Respects :
        (run : Constructor V → Container V → Outcome V)
        → ((k : Constructor V) → Respects (run k))
        → (name : String) (s : Service V) (o : Option V) (c c' : Container V) (r : Option V)
        → lookup name c ≡ some s
        → s.instance_ ≡ o
        → serve run name s o c ≡ some (r, c')
        → R c c'
    unfolding serve
    serve-Respects run h name s (some v) c c' r found made e =
        subst (R c) (outcome-eq e).1 (kept.same c)
    serve-Respects run h name s none c c' r found made e =
        let (r', d, first, later) = and_then-eq-some (run s.constructor c) _ e in
        subst (R c) (outcome-eq later).1
          (kept.stores name s r' c d found made (h s.constructor c d r' first))

    answer-Respects :
        (run : Constructor V → Container V → Outcome V)
        → ((k : Constructor V) → Respects (run k))
        → (name : String) (o : Option (Service V)) (c c' : Container V) (r : Option V)
        → lookup name c ≡ o
        → answer run name o c ≡ some (r, c')
        → R c c'
    unfolding answer
    answer-Respects run h name none c c' r found e = subst (R c) (outcome-eq e).1 (kept.same c)
    answer-Respects run h name (some s) c c' r found e =
        serve-Respects run h name s s.instance_ c c' r found refl e

    pub get-Respects : (depth : ℕ) (name : String) → Respects (get depth name)
    unfolding get
    get-Respects zero name c c' r e = absurd (cc)
    get-Respects (suc depth) name c c' r e =
        answer-Respects (construct (get depth))
          (construct-Respects (get depth) (get-Respects depth)) name (lookup name c) c c' r refl e
