-- ===== src/Sse/Manager/Races.antt =====
-- What happens when other calls come between two steps that the code does not take under one lock.
use go_mod_edge_utils.Prelude.{
  ℕ, ◌≡◌, refl, sym, ◌≢◌, String, true, false, Option, none, some, [], length-append, lookup-delete,
  arith, eq_self, nat_ne, nat_beq_iff,
}
use go_mod_edge_utils.Sse.{
  Broadcaster, subscribe, unsubscribe, step, handle_no_subscribers, publishes,
}
use go_mod_edge_utils.Sse.Manager.{
  Manager, at, call, get_broadcaster, create_broadcaster, remove_broadcaster, run_no_subscribers,
  create_or_get_broadcaster, manage, calls,
}
use go_mod_edge_utils.Sse.Manager.Topics.{get_broadcaster-create, at-update_at, created, again}

module _ {A : Type 0} where
  -- Two handlers ask for a topic that has no broadcaster. If the second looks after the first has
  -- created, it gets the first's; if both look before either creates, they get two, the topic keeps
  -- the second, and what is published to the topic does not reach the first.
  pub create_race :
      (digest : A → Option String) (topic : String) (m : Manager A) (x : A)
      → get_broadcaster topic m ≡ none
      → let (m', i) = create_broadcaster topic m in
        let (m'', j) = create_broadcaster topic m' in
        (create_or_get_broadcaster topic m ≡ (m', i, true))
        × (create_or_get_broadcaster topic m' ≡ (m', i, false))
        × (get_broadcaster topic m'' ≡ some j)
        × (i ≢ j)
        × (at i (manage digest m'' (calls j (publishes x))).heap ≡ at i m''.heap)
  unfolding create_broadcaster manage call
  create_race digest topic m x missing =
      let (m', i) = create_broadcaster topic m in
      let (m'', j) = create_broadcaster topic m' in
      let here : get_broadcaster topic m' ≡ some i =
        rw (get_broadcaster-create topic topic m, eq_self topic) refl in
      let other : j ≢ i = λ same. omega (arith, length-append m.heap _) in
      (
        created topic m missing,
        again topic m' i here,
        rw (get_broadcaster-create topic topic m', eq_self topic) refl,
        (λ same. other (sym same)),
        rw (at-update_at j i (λ b. step digest b (publishes x)) m''.heap, nat_ne j i other),
      )

  run_of_topic :
      (topic : String) (i : ℕ) (m : Manager A) (b : Broadcaster A)
      → at i m.heap ≡ some b
      → b.on_empty ≡ some topic
      → run_no_subscribers i m ≡ (remove_broadcaster topic m, b.polling_service)
  unfolding run_no_subscribers handle_no_subscribers
  run_of_topic topic i m b here owner = rw (here, run_no_subscribers, owner) refl

  -- When the last subscriber of a topic leaves, a goroutine is started that stops the polling and
  -- removes the topic. If a handler that has found the broadcaster subscribes before that goroutine
  -- runs, it stops the polling and removes the topic all the same, and the subscriber stays on a
  -- broadcaster that the topic no longer has.
  pub remove_race :
      (topic : String) (m : Manager A) (i ch : ℕ) (b left : Broadcaster A)
      → get_broadcaster topic m ≡ some i
      → at i m.heap ≡ some left
      → unsubscribe ch b ≡ some (left, true)
      → left.on_empty ≡ some topic
      → let (m', stopped) = run_no_subscribers i (call i (λ c. (subscribe c).0) m) in
        (stopped ≡ left.polling_service)
        × (get_broadcaster topic m' ≡ none)
        × (at i m'.heap ≡ some (subscribe left).0)
        × ((subscribe left).0.subscribers ≢ [])
  unfolding remove_broadcaster get_broadcaster call subscribe
  remove_race topic m i ch b left found here gone owner =
      let joined : Manager A = call i (λ c. (subscribe c).0) m in
      let subscribed : at i (call i (λ c. (subscribe c).0) m).heap ≡ some (subscribe left).0 =
        rw (at-update_at i i (λ c. (subscribe c).0) m.heap, here, (nat_beq_iff i i).1 refl) refl in
      rw (run_of_topic topic i joined (subscribe left).0 subscribed owner) (
        refl,
        rw (lookup-delete topic topic m.broadcasters, eq_self topic) refl,
        subscribed,
        (λ e. cc),
      )
