-- ===== src/Di/Termination.antt =====
-- `get` ends if the services can be ranked so that each constructor asks for lower ranks only.
use go_mod_edge_utils.Prelude.{
  ℕ, zero, suc, ◌≤◌, ◌<◌, ◌≡◌, refl, inl, inr, String, Option, none, some, lookup, insert,
  lookup-insert, ◌==◌, string_eq, eq_iff, arith, Bool-cases, Option-cases, sym, ◌∙◌,
}
use go_mod_edge_utils.Di.{
  Constructor, gives, asks, Service, Container, Outcome, construct, serve, answer, get,
}
use go_mod_edge_utils.Di.Kept.{IsKept, get-Respects, and_then-eq-some}

module _ {V : Type 0} (rank : String → ℕ) where
  -- Whatever it is answered, the constructor asks for services below the rank only.
  abbrev pub AsksBelow : ℕ → Constructor V → Type 0
  AsksBelow n (gives r) = Unit
  AsksBelow n (asks name k) = (rank name < n) × ((r : Option V) → AsksBelow n (k r))

  unfoldable pub IsRanked : Container V → Type 0
  IsRanked c =
      (name : String) (s : Service V) → lookup name c ≡ some s → AsksBelow (rank name) s.constructor

  abbrev KeepsRanks : Container V → Container V → Type 0
  KeepsRanks c d = IsRanked c → IsRanked d

  KeepsRanks-IsKept : IsKept KeepsRanks
  unfolding IsRanked
  KeepsRanks-IsKept = record {
    same = λ c h. h;
    chain = λ a b c k l h. l (k h);
    stores = λ name s r c d found fresh k h other t looked. elim (Bool-cases (name == other)) [
      | inl same ↦
          let stored : some (record s { instance_ = r }) ≡ some t =
            rw (lookup-insert name other (record s { instance_ = r }) d, same) at looked in
          let made_by : s.constructor ≡ t.constructor = cc in
          let called : name ≡ other = (eq_iff name other).0 same in
          rw (← made_by, ← called) (h name s found)
      | inr differs ↦
          k h other t
            (rw (lookup-insert name other (record s { instance_ = r }) d, differs) at looked)
    ];
  }

  Total : (Container V → Outcome V) → Container V → Type 0
  Total run c = (r : Option V) × (d : Container V) × (run c ≡ some (r, d)) × IsRanked d

  construct-Total :
      (n : ℕ) (g : String → Container V → Outcome V)
      → ((name : String) (c : Container V) → rank name < n → IsRanked c → Total (g name) c)
      → (k : Constructor V) (c : Container V) → AsksBelow n k
      → IsRanked c
      → Total (construct g k) c
  unfolding construct Total
  construct-Total n g h (gives r) c below ranked = (r, c, refl, ranked)
  construct-Total n g h (asks name k) c (low, below) ranked =
      let (r, d, found, ranked') = h name c low ranked in
      let (r', e, rest, ranked'') = construct-Total n g h (k r) d (below r) ranked' in
      (r', e, rw found rest, ranked'')

  answer-Total :
      (run : Constructor V → Container V → Outcome V) (name : String) (o : Option (Service V))
      (c : Container V)
      → ((s : Service V) → o ≡ some s → Total (run s.constructor) c)
      → (r : Option V) × (d : Container V) × (answer run name o c ≡ some (r, d))
  unfolding answer Total
  answer-Total run name none c h = (none, c, refl)
  answer-Total run name (some s) c h = elim (Option-cases s.instance_) [
    | inl fresh ↦
        let (r, d, built, _) = h s refl in
        (r, insert name (record s { instance_ = r }) d, rw (fresh, serve) (rw built))
    | inr (v, made) ↦ (some v, c, rw (made, serve))
  ]

  get-Total :
      (depth : ℕ) (name : String) (c : Container V)
      → rank name < depth
      → IsRanked c
      → Total (get depth name) c
  unfolding get Total
  get-Total zero name c h ranked = absurd (omega arith)
  get-Total (suc depth) name c h ranked =
      let (r, d, found) = answer-Total (construct (get depth)) name (lookup name c) c (λ s looked.
        construct-Total (rank name) (get depth)
          (λ other c' low. get-Total depth other c' (omega arith)) s.constructor c
          (unfold IsRanked in ranked name s looked) ranked) in
      (r, d, found, get-Respects KeepsRanks KeepsRanks-IsKept (suc depth) name c d r found ranked)

module _ {V : Type 0} where
  abbrev Extends : (Container V → Outcome V) → (Container V → Outcome V) → Type 0
  Extends run run' = (c d : Container V) (r : Option V) → run c ≡ some (r, d) → run' c ≡ some (r, d)

  construct-Extends :
      (g g' : String → Container V → Outcome V)
      → ((name : String) → Extends (g name) (g' name))
      → (k : Constructor V) → Extends (construct g k) (construct g' k)
  unfolding construct
  construct-Extends g g' h (gives r) c d r' e = e
  construct-Extends g g' h (asks name k) c d r e =
      let (r', c', first, later) = and_then-eq-some (g name c) (λ r. construct g (k r)) e in
      rw (h name c c' r' first) (construct-Extends g g' h (k r') c' d r later)

  serve-Extends :
      (run run' : Constructor V → Container V → Outcome V)
      → ((k : Constructor V) → Extends (run k) (run' k))
      → (name : String) (s : Service V) (o : Option V)
      → Extends (serve run name s o) (serve run' name s o)
  unfolding serve
  serve-Extends run run' h name s (some v) c d r e = e
  serve-Extends run run' h name s none c d r e =
      let (r', c', first, later) = and_then-eq-some (run s.constructor c) _ e in
      rw (h s.constructor c c' r' first) later

  answer-Extends :
      (run run' : Constructor V → Container V → Outcome V)
      → ((k : Constructor V) → Extends (run k) (run' k))
      → (name : String) (o : Option (Service V)) → Extends (answer run name o) (answer run' name o)
  unfolding answer
  answer-Extends run run' h name none c d r e = e
  answer-Extends run run' h name (some s) c d r e =
      serve-Extends run run' h name s s.instance_ c d r e

  get-Extends :
      (depth more : ℕ) (name : String) → depth ≤ more → Extends (get depth name) (get more name)
  unfolding get
  get-Extends zero more name h c d r e = absurd (cc)
  get-Extends (suc depth) zero name h c d r e = absurd (omega arith)
  get-Extends (suc depth) (suc more) name h c d r e =
      answer-Extends (construct (get depth)) (construct (get more))
        (construct-Extends (get depth) (get more)
          (λ other. get-Extends depth more other (omega arith)))
        name (lookup name c) c d r e

  -- If the services can be ranked so that every constructor asks for lower ranks only, then `get`
  -- ends: at every depth above the rank it has an answer, the same as at the least such depth.
  pub get_ends :
      (rank : String → ℕ) (name : String) (c : Container V) (depth : ℕ)
      → IsRanked rank c
      → rank name < depth
      → (r : Option V) × (d : Container V) × (get depth name c ≡ some (r, d))
        × (get depth name c ≡ get (suc (rank name)) name c)
  unfolding Total
  get_ends rank name c depth ranked h =
      let (r, d, found, _) = get-Total rank (suc (rank name)) name c (omega arith) ranked in
      let same : get depth name c ≡ some (r, d) =
        get-Extends (suc (rank name)) depth name (omega arith) c d r found in
      (r, d, same, same ∙ sym found)

  -- A service without an instance whose constructor asks for that same service first never answers.
  pub get_cycle :
      (depth : ℕ) (name : String) (s : Service V) (k : Option V → Constructor V) (c : Container V)
      → lookup name c ≡ some s
      → s.instance_ ≡ none
      → s.constructor ≡ asks name k
      → get depth name c ≡ none
  unfolding get construct
  get_cycle zero name s k c found fresh self = refl
  get_cycle (suc depth) name s k c found fresh self =
      rw (found, answer)
        (rw (fresh, serve)
          (rw (self, construct) (rw (get_cycle depth name s k c found fresh self))))
