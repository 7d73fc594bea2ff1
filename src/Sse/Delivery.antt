-- ===== src/Sse/Delivery.antt =====
-- What `Publish` sends to whom.
use go_mod_edge_utils.Prelude.{
  ℕ, ◌+◌, ◌≤◌, ◌≡◌, inl, inr, String, Bool, Option, some, List, [], ◌∷◌, map, ◌==◌, string_eq,
  nat_eq, not, ap, length, length-append, All, Bool-cases, arith, eq_iff,
}
use go_mod_edge_utils.Common.{compare_and_swap}
use go_mod_edge_utils.Sse.{
  Subscriber, Broadcaster, offer, take_next, receive, subscribe, remove, unsubscribe, contains,
  should_send_update, publish, Call, subscribes, unsubscribes, receives, publishes, step, run,
  new_broadcaster,
}

module _ {A : Type 0} where
  -- No more than 64 messages wait in the channel of a subscriber.
  abbrev pub IsBounded : Subscriber A → Type 0
  IsBounded s =
      (s.channel.received ≤ length s.channel.sent)
      × (length s.channel.sent ≤ s.channel.received + 64)

  offer-IsBounded :
      (should_send : Bool) (x : A) (s : Subscriber A)
      → IsBounded s
      → IsBounded (offer should_send x s)
  unfolding offer
  offer-IsBounded should_send x s h = ground (arith, length-append s.channel.sent (x ∷ []))

  take_next-IsBounded : (ch : ℕ) (s : Subscriber A) → IsBounded s → IsBounded (take_next ch s)
  unfolding take_next
  take_next-IsBounded ch s h = ground arith

  pub All-map :
      (P : Subscriber A → Type 0) (f : Subscriber A → Subscriber A) (ss : List (Subscriber A))
      → ((s : Subscriber A) → P s → P (f s))
      → All P ss
      → All P (map f ss)
  All-map P f [] keep h = tt
  All-map P f (s ∷ ss) keep h = (keep s h.0, All-map P f ss keep h.1)

  pub All-remove :
      (P : Subscriber A → Type 0) (ch : ℕ) (ss : List (Subscriber A))
      → All P ss
      → All P (remove ch ss)
  unfolding remove
  All-remove P ch [] h = tt
  All-remove P ch (s ∷ ss) h = elim (Bool-cases (s.ch == ch)) [
    | inl gone ↦ rw gone (All-remove P ch ss h.1)
    | inr kept ↦ rw kept (h.0, All-remove P ch ss h.1)
  ]

module _ {A : Type 0} (digest : A → Option String) where
  -- The hash is compared with the last one and kept; `Marshal` failing keeps the last one.
  pub same_subscribers :
      (x : A) (b : Broadcaster A) → (should_send_update digest x b).0.subscribers ≡ b.subscribers
  unfolding should_send_update
  same_subscribers x b = ground arith

  pub hash_of_publish :
      (x : A) (b : Broadcaster A) (hash : String)
      → digest x ≡ some hash
      → ((publish digest x b).last_hash.value ≡ hash)
        × ((should_send_update digest x b).1 ≡ not (b.last_hash.value == hash))
  unfolding publish should_send_update compare_and_swap
  hash_of_publish x b hash h = ground (arith, eq_iff b.last_hash.value hash)

  pub publish-subscribers :
      (x : A) (b : Broadcaster A)
      → (publish digest x b).subscribers
        ≡ map (offer (should_send_update digest x b).1 x) b.subscribers
  unfolding publish
  publish-subscribers x b =
      ap (map (offer (should_send_update digest x b).1 x)) (same_subscribers x b)

  step-IsBounded :
      (b : Broadcaster A) (c : Call A)
      → All IsBounded b.subscribers
      → All IsBounded (step digest b c).subscribers
  unfolding step subscribe unsubscribe receive
  step-IsBounded b subscribes h = (omega arith, h)
  step-IsBounded b (unsubscribes ch) h = elim (Bool-cases (contains ch b.closed)) [
    | inl panics ↦ rw (panics, step, unsubscribe) h
    | inr closes ↦ rw (closes, step, unsubscribe) (All-remove IsBounded ch b.subscribers h)
  ]
  step-IsBounded b (receives ch) h =
      All-map IsBounded (take_next ch) b.subscribers (take_next-IsBounded ch) h
  step-IsBounded b (publishes x) h = rw (publish-subscribers x b) (
      All-map IsBounded (offer (should_send_update digest x b).1 x) b.subscribers
        (offer-IsBounded (should_send_update digest x b).1 x) h)

  run-IsBounded_from :
      (b : Broadcaster A) (cs : List (Call A))
      → All IsBounded b.subscribers
      → All IsBounded (run digest b cs).subscribers
  unfolding run
  run-IsBounded_from b [] h = h
  run-IsBounded_from b (c ∷ cs) h = run-IsBounded_from (step digest b c) cs (step-IsBounded b c h)

  -- Whatever calls are made of a new broadcaster, no subscriber has received more than it was sent,
  -- and at most 64 messages wait in its channel.
  pub run-IsBounded :
      (cs : List (Call A)) → All IsBounded (run digest new_broadcaster cs).subscribers
  unfolding new_broadcaster
  run-IsBounded cs = run-IsBounded_from new_broadcaster cs tt
