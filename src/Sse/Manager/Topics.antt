-- ===== src/Sse/Manager/Topics.antt =====
-- Which broadcaster a topic has.
use mathlib.Core.Option
use go_mod_edge_utils.Prelude.{
  ℕ, zero, suc, ◌<◌, ◌≡◌, refl, sym, ◌∙◌, ◌≢◌, inl, inr, String, Bool, true, false, not, none, some,
  List, [], ◌∷◌, ◌++◌, ◌==◌, string_eq, if◌then◌else◌, length, lookup-insert, lookup-delete,
  is_some, Option-cases, Bool-cases, arith, eq_iff, eq_self, eq_ne, nat_eq,
}
use go_mod_edge_utils.Sse.{Broadcaster, new_broadcaster, set_on_empty_callback}
use go_mod_edge_utils.Sse.Manager.{
  Manager, at, update_at, call, get_broadcaster, create_broadcaster, create_or_get_broadcaster,
  remove_broadcaster,
}

module _ {A : Type 0} where
  at-append : (i : ℕ) (bs cs : List (Broadcaster A)) → i < length bs → at i (bs ++ cs) ≡ at i bs
  unfolding at
  at-append i [] cs h = elim h [ ]
  at-append zero (b ∷ bs) cs h = refl
  at-append (suc i) (b ∷ bs) cs h = at-append i bs cs (omega arith)

  pub at-length :
      (bs : List (Broadcaster A)) (b : Broadcaster A) → at (length bs) (bs ++ b ∷ []) ≡ some b
  unfolding at
  at-length [] b = refl
  at-length (c ∷ bs) b = at-length bs b

  lt-of_at :
      (i : ℕ) (bs : List (Broadcaster A)) {b : Broadcaster A} → at i bs ≡ some b → i < length bs
  unfolding at
  lt-of_at i [] h = cc
  lt-of_at zero (b ∷ bs) h = omega arith
  lt-of_at (suc i) (b ∷ bs) h = omega (arith, lt-of_at i bs h)

  -- The address holds a broadcaster whose callback removes the topic.
  abbrev pub Owns : String → ℕ → List (Broadcaster A) → Type 0
  Owns topic i bs = (b : Broadcaster A) × (at i bs ≡ some b) × (b.on_empty ≡ some topic)

  unfoldable pub WellFormed : Manager A → Type 0
  WellFormed m = (topic : String) (i : ℕ) → get_broadcaster topic m ≡ some i → Owns topic i m.heap

  Owns-append :
      (topic : String) (i : ℕ) (bs cs : List (Broadcaster A))
      → Owns topic i bs
      → Owns topic i (bs ++ cs)
  Owns-append topic i bs cs (b, h, o) = (b, at-append i bs cs (lt-of_at i bs h) ∙ h, o)

  pub get_broadcaster-create :
      (topic t : String) (m : Manager A)
      → get_broadcaster t (create_broadcaster topic m).0
        ≡ (if topic == t then some (length m.heap) else get_broadcaster t m)
  unfolding get_broadcaster create_broadcaster
  get_broadcaster-create topic t m = lookup-insert topic t (length m.heap) m.broadcasters

  create-Owns :
      (topic : String) (m : Manager A)
      → Owns topic (length m.heap) (create_broadcaster topic m).0.heap
  unfolding create_broadcaster
  create-Owns topic m =
      (set_on_empty_callback topic new_broadcaster, at-length m.heap _, ground arith)

  create-WellFormed :
      (topic : String) (m : Manager A) → WellFormed m → WellFormed (create_broadcaster topic m).0
  unfolding WellFormed create_broadcaster
  create-WellFormed topic m v t i h = elim (Bool-cases (topic == t)) [
    | inl same ↦
        let h' : some (length m.heap) ≡ some i = rw (get_broadcaster-create topic t m, same) at h in
        let here : i ≡ length m.heap = cc in
        let name : t ≡ topic = sym ((eq_iff topic t).0 same) in
        rw (here, name) (create-Owns topic m)
    | inr other ↦
        Owns-append t i m.heap _ (v t i (rw (get_broadcaster-create topic t m, other) at h))
  ]

  -- What a call of `CreateOrGetBroadcaster` gives: the broadcaster that the topic has afterwards,
  -- and whether it was made. The other topics keep theirs, and another call gives the same.
  abbrev pub Obtained : String → Manager A → Manager A × ℕ × Bool → Type 0
  Obtained topic m (m', i, is_new) =
      (get_broadcaster topic m' ≡ some i)
      × (is_new ≡ not (is_some (get_broadcaster topic m)))
      × ((t : String) → topic ≢ t → get_broadcaster t m' ≡ get_broadcaster t m)
      × (create_or_get_broadcaster topic m' ≡ (m', i, false))

  pub again :
      (topic : String) (m : Manager A) (i : ℕ)
      → get_broadcaster topic m ≡ some i
      → create_or_get_broadcaster topic m ≡ (m, i, false)
  unfolding create_or_get_broadcaster
  again topic m i h = rw (h, create_or_get_broadcaster)

  pub created :
      (topic : String) (m : Manager A)
      → get_broadcaster topic m ≡ none
      → create_or_get_broadcaster topic m
        ≡ ((create_broadcaster topic m).0, (create_broadcaster topic m).1, true)
  unfolding create_or_get_broadcaster
  created topic m h = rw (h, create_or_get_broadcaster)

  -- `CreateOrGetBroadcaster` with no other call between its two locks obtains one broadcaster for
  -- the topic, whether the topic had one or not.
  pub create_or_get_broadcaster-Obtained :
      (topic : String) (m : Manager A) → Obtained topic m (create_or_get_broadcaster topic m)
  unfolding create_broadcaster
  create_or_get_broadcaster-Obtained topic m = elim (Option-cases (get_broadcaster topic m)) [
    | inl missing ↦
        let here : get_broadcaster topic (create_broadcaster topic m).0 ≡ some (length m.heap) =
          rw (get_broadcaster-create topic topic m, eq_self topic) refl in
        rw (created topic m missing) (
          here,
          rw missing,
          (λ t ne. rw (get_broadcaster-create topic t m, eq_ne topic t ne)),
          again topic (create_broadcaster topic m).0 (length m.heap) here,
        )
    | inr (i, found) ↦
        rw (again topic m i found) (found, rw found, (λ t ne. refl), again topic m i found)
  ]

  pub create_or_get-WellFormed :
      (topic : String) (m : Manager A)
      → WellFormed m
      → WellFormed (create_or_get_broadcaster topic m).0
  create_or_get-WellFormed topic m v = elim (Option-cases (get_broadcaster topic m)) [
    | inl missing ↦ rw (created topic m missing) (create-WellFormed topic m v)
    | inr (i, found) ↦ rw (again topic m i found) v
  ]

  pub remove-WellFormed :
      (topic : String) (m : Manager A) → WellFormed m → WellFormed (remove_broadcaster topic m)
  unfolding WellFormed remove_broadcaster get_broadcaster
  remove-WellFormed topic m v t i h = elim (Bool-cases (topic == t)) [
    | inl same ↦ absurd (no_value (rw (lookup-delete topic t m.broadcasters, same) at h))
    | inr other ↦ v t i (rw (lookup-delete topic t m.broadcasters, other) at h)
  ]
    where
      no_value : none ≡ some i → ⊥
      no_value e = cc

  pub at-update_at :
      (i j : ℕ) (f : Broadcaster A → Broadcaster A) (bs : List (Broadcaster A))
      → at j (update_at i f bs) ≡ (if i == j then Option.map f (at j bs) else at j bs)
  unfolding at update_at
  at-update_at i j f [] = ground arith
  at-update_at zero zero f (b ∷ bs) = refl
  at-update_at zero (suc j) f (b ∷ bs) = ground arith
  at-update_at (suc i) zero f (b ∷ bs) = ground arith
  at-update_at (suc i) (suc j) f (b ∷ bs) = ground (arith, at-update_at i j f bs)

  pub call-WellFormed :
      (i : ℕ) (f : Broadcaster A → Broadcaster A) (m : Manager A)
      → ((b : Broadcaster A) → (f b).on_empty ≡ b.on_empty)
      → WellFormed m
      → WellFormed (call i f m)
  unfolding WellFormed call get_broadcaster
  call-WellFormed i f m keep v t j h =
      let (b, here, owner) = v t j h in
      elim (Bool-cases (i == j)) [
        | inl same ↦ (f b, rw (at-update_at i j f m.heap, same, here), keep b ∙ owner)
        | inr other ↦ (b, rw (at-update_at i j f m.heap, other) here, owner)
      ]
