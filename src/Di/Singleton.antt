-- ===== src/Di/Singleton.antt =====
-- An instance is made once, and every later `get` gives the same.
use go_mod_edge_utils.Prelude.{
  ℕ, zero, suc, ◌≡◌, refl, ◌∙◌, inl, inr, String, Option, none, some, List, [], ◌∷◌, lookup,
  lookup-insert, ◌==◌, string_eq, eq_iff, eq_self, arith, Bool-cases, Option-cases,
}
use go_mod_edge_utils.Di.{Constructor, Service, Container, Outcome, construct, serve, answer, get}
use go_mod_edge_utils.Di.Kept.{IsKept, get-Respects, and_then-eq-some, outcome-eq}

module _ {V : Type 0} where
  abbrev pub instance_in : Option (Service V) → Option V
  instance_in none = none
  instance_in (some s) = s.instance_

  unfoldable pub instance_of : String → Container V → Option V
  instance_of name c = instance_in (lookup name c)

  -- What has an instance keeps it.
  pub Keeps : Container V → Container V → Type 0
  Keeps c d = (name : String) (v : V) → instance_of name c ≡ some v → instance_of name d ≡ some v

  Keeps-IsKept : IsKept Keeps
  unfolding Keeps instance_of
  Keeps-IsKept = record {
    same = λ c name v h. h;
    chain = λ a b c k l name v h. l name v (k name v h);
    stores = λ name s r c d found fresh k other v h. elim (Bool-cases (name == other)) [
      | inl same ↦
          let name_eq : name ≡ other = (eq_iff name other).0 same in
          absurd (no_instance name s c found fresh v (rw name_eq h))
      | inr differs ↦
          rw (lookup-insert name other (record s { instance_ = r }) d, differs) (k other v h)
    ];
  }
    where
      no_instance :
          (name : String) (s : Service V) (c : Container V)
          → lookup name c ≡ some s
          → s.instance_ ≡ none
          → (v : V) → instance_in (lookup name c) ≡ some v
          → ⊥
      no_instance name s c found fresh v h = ground arith

  -- The service that was asked for has its instance in the container after.
  serve-instance :
      (run : Constructor V → Container V → Outcome V) (name : String) (s : Service V) (o : Option V)
      (c c' : Container V) (v : V)
      → lookup name c ≡ some s
      → s.instance_ ≡ o
      → serve run name s o c ≡ some (some v, c')
      → instance_of name c' ≡ some v
  unfolding serve instance_of
  serve-instance run name s (some w) c c' v found made e =
      let (same, kept) = outcome-eq e in rw (← kept, found) (made ∙ same)
  serve-instance run name s none c c' v found made e =
      let (r, d, first, later) = and_then-eq-some (run s.constructor c) _ e in
      let (same, kept) = outcome-eq later in
      rw (← kept, lookup-insert name name (record s { instance_ = r }) d, eq_self name) same

  answer-instance :
      (run : Constructor V → Container V → Outcome V) (name : String) (o : Option (Service V))
      (c c' : Container V) (v : V)
      → lookup name c ≡ o
      → answer run name o c ≡ some (some v, c')
      → instance_of name c' ≡ some v
  unfolding answer
  answer-instance run name none c c' v found e = absurd (nothing (outcome-eq e).0)
    where
      nothing : none ≡ some v → ⊥
      nothing p = cc
  answer-instance run name (some s) c c' v found e =
      serve-instance run name s s.instance_ c c' v found refl e

  get-instance :
      (depth : ℕ) (name : String) (c c' : Container V) (v : V)
      → get depth name c ≡ some (some v, c')
      → instance_of name c' ≡ some v
  unfolding get
  get-instance zero name c c' v e = absurd (cc)
  get-instance (suc depth) name c c' v e =
      answer-instance (construct (get depth)) name (lookup name c) c c' v refl e

  answer_of_instance :
      (run : Constructor V → Container V → Outcome V) (name : String) (o : Option (Service V))
      (c : Container V) (v : V)
      → instance_in o ≡ some v
      → answer run name o c ≡ some (some v, c)
  unfolding answer
  answer_of_instance run name none c v h = absurd (cc)
  answer_of_instance run name (some s) c v h = rw (h, serve)

  -- A service with an instance is answered at once.
  get_of_instance :
      (depth : ℕ) (name : String) (c : Container V) (v : V)
      → instance_of name c ≡ some v
      → get (suc depth) name c ≡ some (some v, c)
  unfolding get instance_of
  get_of_instance depth name c v h =
      answer_of_instance (construct (get depth)) name (lookup name c) c v h

  -- One `Get` after another, whatever they answer.
  unfoldable pub get_all : ℕ → List String → Container V → Option (Container V)
  get_all depth [] c = some c
  get_all depth (name ∷ names) c = elim (get depth name c) [
    | none ↦ none
    | some (r, c') ↦ get_all depth names c'
  ]

  get_all-Keeps :
      (depth : ℕ) (names : List String) (c c' : Container V)
      → get_all depth names c ≡ some c'
      → Keeps c c'
  unfolding get_all Keeps
  get_all-Keeps depth [] c c' e name v h = rw (← same) h
    where
      same : c ≡ c'
      same = cc
  get_all-Keeps depth (n ∷ names) c c' e name v h = elim (Option-cases (get depth n c)) [
    | inl fails ↦ absurd (never (rw (fails, get_all) at e))
    | inr ((r, d), found) ↦
        get_all-Keeps depth names d c' (rw (found, get_all) at e) name v
          (unfold Keeps in get-Respects Keeps Keeps-IsKept depth n c d r found name v h)
  ]
    where
      never : none ≡ some c' → ⊥
      never p = cc

  -- When Get has answered with an instance, it answers with that same instance and constructs
  -- nothing, however many services were asked for in between, if each call of Get is made while no
  -- other is under way.
  pub get_singleton :
      (depth later : ℕ) (name : String) (names : List String) (c d e : Container V) (v : V)
      → get depth name c ≡ some (some v, d)
      → get_all depth names d ≡ some e
      → get (suc later) name e ≡ some (some v, e)
  unfolding Keeps
  get_singleton depth later name names c d e v first between =
      get_of_instance later name e v
        (get_all-Keeps depth names d e between name v (get-instance depth name c d v first))
