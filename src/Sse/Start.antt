-- ===== src/Sse/Start.antt =====
-- `StartPolling` behind its `sync.Once`, and the handlers that call it.
use go_mod_edge_utils.Prelude.{
  ℕ, ◌≡◌, refl, String, false, not, none, some, arith, is_some, if◌then◌else◌, ◌∙◌, ap, sym,
}
use go_mod_edge_utils.Sse.{Broadcaster, start_polling}
use go_mod_edge_utils.Sse.Manager.{
  Manager, get_broadcaster, create_or_get_broadcaster, connect, call,
}
use go_mod_edge_utils.Sse.Manager.Topics.{again, create_or_get_broadcaster-Obtained}

module _ {A : Type 0} where
  -- The first `StartPolling` of a broadcaster starts its service, or panics if it has none; every
  -- later one does nothing.
  pub start_polling_once :
      (b : Broadcaster A)
      → let (b', started) = start_polling b in
        (started ≡ (
          if b.started
          then some none
          else elim b.polling_service [ none ↦ none | some s ↦ some (some s) ]))
        × (start_polling b' ≡ (b', some none))
  unfolding start_polling
  start_polling_once b = ground arith

  get_broadcaster-call :
      (topic : String) (i : ℕ) (f : Broadcaster A → Broadcaster A) (m : Manager A)
      → get_broadcaster topic (call i f m) ≡ get_broadcaster topic m
  unfolding get_broadcaster call
  get_broadcaster-call topic i f m = refl

  connect-rest :
      (service : ℕ) (topic : String) (m : Manager A)
      → let (m', i, is_new) = create_or_get_broadcaster topic m in
        let (m'', j, started) = connect (some service) topic m in
        (get_broadcaster topic m'' ≡ get_broadcaster topic m') × (j ≡ i) × (started ≡ is_new)
  unfolding connect get_broadcaster
  connect-rest service topic m = (refl, refl, refl)

  -- Of two handlers of one topic, the second connecting after the first, at most the first starts
  -- the polling, and does if the topic was new; both get the same broadcaster.
  pub connect_twice :
      (service other : ℕ) (topic : String) (m : Manager A)
      → let (m', i, started) = connect (some service) topic m in
        let (m'', j, restarted) = connect (some other) topic m' in
        (started ≡ not (is_some (get_broadcaster topic m))) × (restarted ≡ false) × (j ≡ i)
  connect_twice service other topic m =
      let (m', i, started) = connect (some service) topic m in
      let (got, fresh, _, _) = create_or_get_broadcaster-Obtained topic m in
      let (same_map, same_i, same_new) = connect-rest service topic m in
      let found = again topic m' (create_or_get_broadcaster topic m).1 (same_map ∙ got) in
      let (_, other_i, other_new) = connect-rest other topic m' in
      (
        same_new ∙ fresh,
        other_new ∙ ap (λ r. r.2) found,
        other_i ∙ ap (λ r. r.1) found ∙ sym same_i,
      )
