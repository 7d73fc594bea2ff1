-- ===== src/Sse/Freshness.antt =====
-- Which message a subscriber was sent last, against the hash of the broadcaster.
use mathlib.Core.List.{Memᴰ}
use go_mod_edge_utils.Prelude.{
  ℕ, ◌≡◌, refl, sym, ◌⊎◌, inl, inr, String, Bool, true, false, not, Option, none, some, List, [],
  ◌∷◌, ◌++◌, map, ◌==◌, string_eq, nat_eq, length, All, Bool-cases, arith, eq_iff, subst, ◌||◌, ◌∙◌,
  ltb, ◌&&◌,
}
use go_mod_edge_utils.Sse.{
  Subscriber, Broadcaster, has_room, send, offer, take_next, receive, subscribe, unsubscribe,
  contains, should_send_update, publish, Call, subscribes, unsubscribes, receives, publishes, step,
  run, new_broadcaster,
}
use go_mod_edge_utils.Sse.Delivery.{All-map, All-remove, hash_of_publish, publish-subscribers}

module _ {A : Type 0} where
  unfoldable pub last : List A → Option A
  last [] = none
  last (x ∷ []) = some x
  last (x ∷ y ∷ xs) = last (y ∷ xs)

  last-append : (xs : List A) (x : A) → last (xs ++ x ∷ []) ≡ some x
  unfolding last
  last-append [] x = refl
  last-append (y ∷ []) x = refl
  last-append (y ∷ z ∷ xs) x = last-append (z ∷ xs) x

module _ {A : Type 0} (digest : A → Option String) where
  -- The last message that was sent to the subscriber has the hash.
  abbrev pub HasLatest : String → Subscriber A → Type 0
  HasLatest hash s = (x : A) × (last s.channel.sent ≡ some x) × (digest x ≡ some hash)

  -- A subscriber that is not new has been sent what the broadcaster's hash stands for.
  abbrev pub IsCurrent : String → Subscriber A → Type 0
  IsCurrent hash s = (s.is_new ≡ true) ⊎ HasLatest hash s

  -- `Publish` leaves the subscriber with the message, or with one of the same hash.
  abbrev pub IsServed : String → Subscriber A → Type 0
  IsServed hash s = (s.is_new ≡ false) × HasLatest hash s

  offer_sends :
      (should_send : Bool) (x : A) (s : Subscriber A)
      → (s.is_new || should_send) ≡ true
      → has_room s.channel ≡ true
      → offer should_send x s ≡ record s { channel = send x s.channel; is_new = false }
  unfolding offer
  offer_sends should_send x s wanted room = rw (wanted, room, offer)

  sent-IsServed :
      (x : A) (hash : String) (s : Subscriber A)
      → digest x ≡ some hash
      → IsServed hash (record s { channel = send x s.channel; is_new = false })
  unfolding send
  sent-IsServed x hash s d = (refl, (x, last-append s.channel.sent x, d))

  -- A message whose hash is the last one is offered to the new subscribers only.
  offer_same : (x : A) (s : Subscriber A) → s.is_new ≡ false → offer false x s ≡ s
  unfolding offer
  offer_same x s h = rw (h, offer)

  or_true : (a : Bool) → (a || true) ≡ true
  or_true true = refl
  or_true false = refl

  same-IsServed :
      (x : A) (hash : String) (s : Subscriber A)
      → digest x ≡ some hash
      → has_room s.channel ≡ true
      → IsCurrent hash s
      → IsServed hash (offer false x s)
  same-IsServed x hash s d room current = elim (Bool-cases s.is_new) [
    | inl fresh ↦ rw (offer_sends false x s (rw fresh) room) (sent-IsServed x hash s d)
    | inr seen ↦
        rw (offer_same x s seen)
          (elim current [ inl fresh ↦ absurd (cc) | inr latest ↦ (seen, latest) ])
  ]

  offer-IsServed :
      (x : A) (hash old : String) (s : Subscriber A)
      → digest x ≡ some hash
      → has_room s.channel ≡ true
      → IsCurrent old s
      → IsServed hash (offer (not (old == hash)) x s)
  offer-IsServed x hash old s d room current = elim (Bool-cases (old == hash)) [
    | inl same ↦ rw same (
        same-IsServed x hash s d room
          (subst (λ h. IsCurrent h s) ((eq_iff old hash).0 same) current))
    | inr other ↦
        rw other (rw (offer_sends true x s (or_true s.is_new) room) (sent-IsServed x hash s d))
  ]

  map-IsServed :
      (x : A) (hash old : String) (ss : List (Subscriber A))
      → digest x ≡ some hash
      → All (λ s. has_room s.channel ≡ true) ss
      → All (IsCurrent old) ss
      → All (IsServed hash) (map (offer (not (old == hash)) x) ss)
  map-IsServed x hash old [] d room current = tt
  map-IsServed x hash old (s ∷ ss) d room current = (
    offer-IsServed x hash old s d room.0 current.0,
    map-IsServed x hash old ss d room.1 current.1,
  )

  -- If a message can be marshalled and every subscriber is current and has room, then after a
  -- Publish of it that no other Publish interleaves with, every subscriber, the new ones included,
  -- was last sent this message or one with the same hash, and none is new any more.
  pub publish-IsServed :
      (x : A) (hash : String) (b : Broadcaster A)
      → digest x ≡ some hash
      → All (λ s. has_room s.channel ≡ true) b.subscribers
      → All (IsCurrent b.last_hash.value) b.subscribers
      → All (IsServed hash) (publish digest x b).subscribers
  publish-IsServed x hash b d room current =
      rw (publish-subscribers digest x b, (hash_of_publish digest x b hash d).1)
        (map-IsServed x hash b.last_hash.value b.subscribers d room current)

  map_same :
      (x : A) (s : Subscriber A) (ss : List (Subscriber A))
      → s.is_new ≡ false
      → Memᴰ s ss
      → Memᴰ s (map (offer false x) ss)
  map_same x s ss h (Memᴰ.head e) = Memᴰ.head (rw (← e) (sym (offer_same x s h)))
  map_same x s ss h (Memᴰ.tail m) = Memᴰ.tail (map_same x s _ h m)

  -- After `Publish` of a message, another `Publish` of a message with the same hash skips every
  -- subscriber that is not new, whatever happened to the subscribers in between: also one that did
  -- not get the first message because its channel was full.
  pub publish_not_retried :
      (x y : A) (hash : String) (b b' : Broadcaster A) (s : Subscriber A)
      → digest x ≡ some hash
      → digest y ≡ some hash
      → b'.last_hash.value ≡ (publish digest x b).last_hash.value
      → Memᴰ s b'.subscribers
      → s.is_new ≡ false
      → Memᴰ s (publish digest y b').subscribers
  publish_not_retried x y hash b b' s dx dy kept member seen =
      let same : (b'.last_hash.value == hash) ≡ true =
        (eq_iff b'.last_hash.value hash).1 (kept ∙ (hash_of_publish digest x b hash dx).0) in
      rw (publish-subscribers digest y b', (hash_of_publish digest y b' hash dy).1, same)
        (map_same y s b'.subscribers seen member)

  full_drops :
      (should_send : Bool) (x : A) (s : Subscriber A)
      → has_room s.channel ≡ false
      → offer should_send x s ≡ s
  unfolding offer
  full_drops should_send x s full = ground arith

  map_full :
      (should_send : Bool) (x : A) (s : Subscriber A) (ss : List (Subscriber A))
      → has_room s.channel ≡ false
      → Memᴰ s ss
      → Memᴰ s (map (offer should_send x) ss)
  map_full should_send x s ss h (Memᴰ.head e) =
      Memᴰ.head (rw (← e) (sym (full_drops should_send x s h)))
  map_full should_send x s ss h (Memᴰ.tail m) = Memᴰ.tail (map_full should_send x s _ h m)

  -- A subscriber whose channel is full is left as it is by every `Publish`: not even a new one
  -- blocks the others or loses its mark.
  pub publish_full :
      (x : A) (b : Broadcaster A) (s : Subscriber A)
      → Memᴰ s b.subscribers
      → has_room s.channel ≡ false
      → Memᴰ s (publish digest x b).subscribers
  publish_full x b s member full =
      rw (publish-subscribers digest x b)
        (map_full (should_send_update digest x b).1 x s b.subscribers full member)

  -- In a schedule that fits, every message that is published has a hash, and nobody's channel is
  -- full when it is.
  abbrev pub Fits : Broadcaster A → List (Call A) → Type 0
  Fits b [] = Unit
  Fits b (publishes x ∷ cs) =
      ((hash : String) × (digest x ≡ some hash))
      × All (λ s. has_room s.channel ≡ true) b.subscribers
      × Fits (step digest b (publishes x)) cs
  Fits b (c ∷ cs) = Fits (step digest b c) cs

  abbrev AllCurrent : Broadcaster A → Type 0
  AllCurrent b = All (IsCurrent b.last_hash.value) b.subscribers

  take_next-IsCurrent :
      (hash : String) (ch : ℕ) (s : Subscriber A)
      → IsCurrent hash s
      → IsCurrent hash (take_next ch s)
  unfolding take_next
  take_next-IsCurrent hash ch s h =
      elim (Bool-cases (s.ch == ch && ltb s.channel.received (length s.channel.sent))) [
        | inl mine ↦ rw (mine, take_next) h
        | inr other ↦ rw (other, take_next) h
      ]

  All-mono :
      (P Q : Subscriber A → Type 0) (ss : List (Subscriber A))
      → ((s : Subscriber A) → P s → Q s)
      → All P ss
      → All Q ss
  All-mono P Q [] f h = tt
  All-mono P Q (s ∷ ss) f h = (f s h.0, All-mono P Q ss f h.1)

  publish-AllCurrent :
      (x : A) (b : Broadcaster A)
      → (hash : String) × (digest x ≡ some hash)
      → All (λ s. has_room s.channel ≡ true) b.subscribers
      → AllCurrent b
      → AllCurrent (publish digest x b)
  publish-AllCurrent x b (hash, d) room current = rw (hash_of_publish digest x b hash d).0 (
      All-mono (IsServed hash) (IsCurrent hash) (publish digest x b).subscribers (λ s h. inr h.1)
        (publish-IsServed x hash b d room current))

  unsubscribe-AllCurrent :
      (ch : ℕ) (b : Broadcaster A) → AllCurrent b → AllCurrent (step digest b (unsubscribes ch))
  unfolding step unsubscribe
  unsubscribe-AllCurrent ch b h = elim (Bool-cases (contains ch b.closed)) [
    | inl panics ↦ rw (panics, step, unsubscribe) h
    | inr closes ↦
        rw (closes, step, unsubscribe) (All-remove (IsCurrent b.last_hash.value) ch b.subscribers h)
  ]

  run-AllCurrent :
      (b : Broadcaster A) (cs : List (Call A))
      → Fits b cs
      → AllCurrent b
      → AllCurrent (run digest b cs)
  unfolding run step subscribe receive
  run-AllCurrent b [] fits h = h
  run-AllCurrent b (subscribes ∷ cs) fits h =
      run-AllCurrent (step digest b subscribes) cs fits (inl refl, h)
  run-AllCurrent b (unsubscribes ch ∷ cs) fits h =
      run-AllCurrent (step digest b (unsubscribes ch)) cs fits (unsubscribe-AllCurrent ch b h)
  run-AllCurrent b (receives ch ∷ cs) fits h =
      run-AllCurrent (step digest b (receives ch)) cs fits (
        All-map (IsCurrent b.last_hash.value) (take_next ch) b.subscribers
          (take_next-IsCurrent b.last_hash.value ch) h)
  run-AllCurrent b (publishes x ∷ cs) (d, room, fits) h =
      run-AllCurrent (step digest b (publishes x)) cs fits (publish-AllCurrent x b d room h)

  -- After any schedule of subscriptions, receptions and publications, each made while no other
  -- Publish is under way, in which every message that is published can be marshalled and finds room
  -- in every channel, every subscriber of a Broadcaster that started empty is new, or was last sent
  -- a message with the hash that the broadcaster holds.
  pub run-IsCurrent :
      (cs : List (Call A))
      → Fits new_broadcaster cs
      → All
          (IsCurrent (run digest new_broadcaster cs).last_hash.value)
          (run digest new_broadcaster cs).subscribers
  unfolding new_broadcaster
  run-IsCurrent cs fits = run-AllCurrent new_broadcaster cs fits tt
