-- ===== src/Sse/Membership.antt =====
-- Subscribing and unsubscribing: channels are fresh, and are closed once.
use go_mod_edge_utils.Prelude.{
  ℕ, suc, ◌<◌, ◌≡◌, refl, inl, inr, String, Bool, true, false, Option, none, some, List, [], ◌∷◌,
  map, ◌==◌, nat_eq, if◌then◌else◌, All, Bool-cases, arith,
}
use go_mod_edge_utils.Sse.{
  Subscriber, Broadcaster, offer, take_next, receive, subscribe, remove, unsubscribe, contains,
  should_send_update, publish, Call, subscribes, unsubscribes, receives, publishes, step, run,
  new_broadcaster, is_empty,
}
use go_mod_edge_utils.Sse.Delivery.{publish-subscribers}

abbrev pub AllBelow : ℕ → List ℕ → Type 0
AllBelow n = All (λ c. c < n)

contains-AllBelow : (n : ℕ) (cs : List ℕ) → AllBelow n cs → contains n cs ≡ false
unfolding contains
contains-AllBelow n [] h = refl
contains-AllBelow n (c ∷ cs) h = ground (arith, contains-AllBelow n cs)

AllBelow-suc : (n : ℕ) (cs : List ℕ) → AllBelow n cs → AllBelow (suc n) cs
AllBelow-suc n [] h = tt
AllBelow-suc n (c ∷ cs) h = (omega (arith, h.0), AllBelow-suc n cs h.1)

module _ {A : Type 0} where
  abbrev pub chs : List (Subscriber A) → List ℕ
  chs = map (λ s. s.ch)

-- The channel of each subscriber is open, below the next one, and nobody else's.
abbrev pub AreOpen : ℕ → List ℕ → List ℕ → Type 0
AreOpen n closed [] = Unit
AreOpen n closed (c ∷ cs) =
    (c < n) × (contains c closed ≡ false) × (contains c cs ≡ false) × AreOpen n closed cs

AreOpen-suc : (n : ℕ) (closed cs : List ℕ) → AreOpen n closed cs → AreOpen (suc n) closed cs
AreOpen-suc n closed [] h = tt
AreOpen-suc n closed (c ∷ cs) (l, o, d, h) = (omega (arith, l), o, d, AreOpen-suc n closed cs h)

AreOpen-AllBelow : (n : ℕ) (closed cs : List ℕ) → AreOpen n closed cs → AllBelow n cs
AreOpen-AllBelow n closed [] h = tt
AreOpen-AllBelow n closed (c ∷ cs) (l, o, d, h) = (l, AreOpen-AllBelow n closed cs h)

member-open :
    (n ch : ℕ) (closed cs : List ℕ)
    → AreOpen n closed cs
    → contains ch cs ≡ true
    → contains ch closed ≡ false
unfolding contains
member-open n ch closed [] h m = absurd (cc)
member-open n ch closed (c ∷ cs) (l, o, d, h) m = ground (arith, member-open n ch closed cs h)

module _ {A : Type 0} where
  pub record Inv (b : Broadcaster A) : Type 0 where
    pub open_channels : AreOpen b.next_ch b.closed (chs b.subscribers)
    pub closed_below : AllBelow b.next_ch b.closed

  chs-map :
      (f : Subscriber A → Subscriber A) (ss : List (Subscriber A))
      → ((s : Subscriber A) → (f s).ch ≡ s.ch)
      → chs (map f ss) ≡ chs ss
  chs-map f [] h = refl
  chs-map f (s ∷ ss) h = cc (h s, chs-map f ss h)

  offer-ch : (should_send : Bool) (x : A) (s : Subscriber A) → (offer should_send x s).ch ≡ s.ch
  unfolding offer
  offer-ch should_send x s = ground arith

  take_next-ch : (ch : ℕ) (s : Subscriber A) → (take_next ch s).ch ≡ s.ch
  unfolding take_next
  take_next-ch ch s = ground arith

  -- Removing a channel leaves it absent, and the others as they were.
  contains-remove :
      (c ch : ℕ) (ss : List (Subscriber A))
      → contains c (chs (remove ch ss)) ≡ (if ch == c then false else contains c (chs ss))
  unfolding contains remove
  contains-remove c ch [] = ground arith
  contains-remove c ch (s ∷ ss) = ground (arith, contains-remove c ch ss)

  remove-AreOpen :
      (n ch : ℕ) (closed : List ℕ) (ss : List (Subscriber A))
      → AreOpen n closed (chs ss)
      → AreOpen n (ch ∷ closed) (chs (remove ch ss))
  unfolding remove contains
  remove-AreOpen n ch closed [] h = tt
  remove-AreOpen n ch closed (s ∷ ss) (l, o, d, h) = elim (Bool-cases (s.ch == ch)) [
    | inl gone ↦ rw gone (remove-AreOpen n ch closed ss h)
    | inr kept ↦ rw kept (
      l,
      ground arith,
      ground (arith, contains-remove s.ch ch ss),
      remove-AreOpen n ch closed ss h,
    )
  ]

  -- A call that a goroutine can make: only a channel that was handed out can be unsubscribed.
  abbrev pub CanCall : Broadcaster A → Call A → Type 0
  CanCall b (unsubscribes ch) = ch < b.next_ch
  CanCall b _ = Unit

  publish-rest :
      (digest : A → Option String) (x : A) (b : Broadcaster A)
      → ((publish digest x b).next_ch ≡ b.next_ch) × ((publish digest x b).closed ≡ b.closed)
  unfolding publish should_send_update
  publish-rest digest x b = ground arith

  unsubscribe-Inv :
      (digest : A → Option String) (ch : ℕ) (b : Broadcaster A)
      → ch < b.next_ch
      → Inv b
      → Inv (step digest b (unsubscribes ch))
  unfolding step unsubscribe
  unsubscribe-Inv digest ch b below v = elim (Bool-cases (contains ch b.closed)) [
    | inl panics ↦ rw (panics, step, unsubscribe) v
    | inr closes ↦
        rw (closes, step, unsubscribe)
          (record {
            open_channels = remove-AreOpen b.next_ch ch b.closed b.subscribers v.open_channels;
            closed_below = (below, v.closed_below);
          })
  ]

  step-Inv :
      (digest : A → Option String) (b : Broadcaster A) (c : Call A)
      → CanCall b c
      → Inv b
      → Inv (step digest b c)
  unfolding step subscribe receive
  step-Inv digest b subscribes k v = record {
    open_channels = (
      omega arith,
      contains-AllBelow b.next_ch b.closed v.closed_below,
      contains-AllBelow b.next_ch (chs b.subscribers)
          (AreOpen-AllBelow b.next_ch b.closed (chs b.subscribers) v.open_channels),
      AreOpen-suc b.next_ch b.closed (chs b.subscribers) v.open_channels,
    );
    closed_below = AllBelow-suc b.next_ch b.closed v.closed_below;
  }
  step-Inv digest b (unsubscribes ch) k v = unsubscribe-Inv digest ch b k v
  step-Inv digest b (receives ch) k v = record {
    open_channels = rw (chs-map (take_next ch) b.subscribers (take_next-ch ch)) v.open_channels;
    closed_below = v.closed_below;
  }
  step-Inv digest b (publishes x) k v =
      let (same_ch, same_closed) = publish-rest digest x b in
      let same_chs : chs (publish digest x b).subscribers ≡ chs b.subscribers =
        rw (publish-subscribers digest x b) (
          chs-map (offer (should_send_update digest x b).1 x) b.subscribers
            (offer-ch (should_send_update digest x b).1 x)) in
      record {
        open_channels = rw (same_ch, same_closed, same_chs) v.open_channels;
        closed_below = rw (same_ch, same_closed) v.closed_below;
      }

  -- A schedule of such calls.
  abbrev pub CanRun : (A → Option String) → Broadcaster A → List (Call A) → Type 0
  CanRun digest b [] = Unit
  CanRun digest b (c ∷ cs) = CanCall b c × CanRun digest (step digest b c) cs

  run-Inv :
      (digest : A → Option String) (b : Broadcaster A) (cs : List (Call A))
      → CanRun digest b cs
      → Inv b
      → Inv (run digest b cs)
  unfolding run
  run-Inv digest b [] k v = v
  run-Inv digest b (c ∷ cs) k v =
      run-Inv digest (step digest b c) cs k.1 (step-Inv digest b c k.0 v)

  -- `Unsubscribe` of a subscriber's channel does not panic. It removes that subscriber and no other,
  -- and starts `handleNoSubscribers` exactly if nobody is left. A second `Unsubscribe` of the same
  -- channel panics.
  pub unsubscribe_lem :
      (digest : A → Option String) (cs : List (Call A)) (ch : ℕ)
      → CanRun digest new_broadcaster cs
      → let b = run digest new_broadcaster cs in
        contains ch (chs b.subscribers) ≡ true
        → (b' : Broadcaster A) × (empty : Bool) × (unsubscribe ch b ≡ some (b', empty))
          × ((c : ℕ)
              → contains c (chs b'.subscribers)
                ≡ (if ch == c then false else contains c (chs b.subscribers)))
          × (empty ≡ is_empty b'.subscribers)
          × (unsubscribe ch b' ≡ none)
  unfolding unsubscribe contains new_broadcaster
  unsubscribe_lem digest cs ch can member =
      let v =
        run-Inv digest new_broadcaster cs can (record { open_channels = tt; closed_below = tt }) in
      let b = run digest new_broadcaster cs in
      let closes = member-open b.next_ch ch b.closed (chs b.subscribers) v.open_channels member in
      (
        record b { subscribers = remove ch b.subscribers; closed = ch ∷ b.closed },
        is_empty (remove ch b.subscribers),
        rw (closes, unsubscribe),
        (λ c. contains-remove c ch b.subscribers),
        refl,
        ground arith,
      )
