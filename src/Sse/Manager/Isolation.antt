-- ===== src/Sse/Manager/Isolation.antt =====
-- Two topics never share a broadcaster.
use go_mod_edge_utils.Prelude.{
  ℕ, ◌≡◌, refl, ◌≢◌, inl, inr, String, false, Option, none, some, List, [], ◌∷◌, ◌==◌, string_eq,
  if◌then◌else◌, lookup, Bool-cases, arith, nat_eq, nat_ne,
}
use go_mod_edge_utils.Sse.{
  Broadcaster, Call, subscribe, step, unsubscribe, receive, publish, subscribes, unsubscribes,
  receives, publishes, should_send_update,
}
use go_mod_edge_utils.Sse.Manager.{
  Manager, new_manager, at, call, get_broadcaster, create_or_get_broadcaster, connect, start_at,
  ManagerCall, manage, manage_all, connects, removes, calls, shuts_down, shutdown,
}
use go_mod_edge_utils.Sse.Manager.Topics.{
  WellFormed, create_or_get-WellFormed, remove-WellFormed, call-WellFormed, at-update_at,
}

module _ {A : Type 0} where
  step-on_empty :
      (digest : A → Option String) (b : Broadcaster A) (c : Call A)
      → (step digest b c).on_empty ≡ b.on_empty
  unfolding step subscribe unsubscribe receive publish should_send_update
  step-on_empty digest b subscribes = refl
  step-on_empty digest b (unsubscribes ch) = ground arith
  step-on_empty digest b (receives ch) = refl
  step-on_empty digest b (publishes x) = ground arith

  start_at-on_empty : (service : ℕ) (b : Broadcaster A) → (start_at service b).on_empty ≡ b.on_empty
  unfolding start_at
  start_at-on_empty service b = ground arith

  connect-WellFormed :
      (service : Option ℕ) (topic : String) (m : Manager A)
      → WellFormed m
      → WellFormed (connect service topic m).0
  unfolding connect
  connect-WellFormed none topic m v =
      call-WellFormed _ (λ b. (subscribe b).0) (create_or_get_broadcaster topic m).0 (λ b. refl)
        (create_or_get-WellFormed topic m v)
  connect-WellFormed (some service) topic m v =
      let (m', i, is_new) = create_or_get_broadcaster topic m in
      call-WellFormed i (λ b. (subscribe (if is_new then start_at service b else b)).0) m'
        (λ b. elim (Bool-cases is_new) [
          | inl e ↦ rw e (start_at-on_empty service b)
          | inr e ↦ rw e
        ])
        (create_or_get-WellFormed topic m v)

  shutdown-WellFormed : (m : Manager A) → WellFormed m → WellFormed (shutdown m)
  unfolding WellFormed shutdown get_broadcaster
  shutdown-WellFormed m v = v

  manage-WellFormed :
      (digest : A → Option String) (m : Manager A) (c : ManagerCall A)
      → WellFormed m
      → WellFormed (manage digest m c)
  unfolding manage
  manage-WellFormed digest m (connects service topic) v = connect-WellFormed service topic m v
  manage-WellFormed digest m (removes topic) v = remove-WellFormed topic m v
  manage-WellFormed digest m (calls i c) v =
      call-WellFormed i (λ b. step digest b c) m (λ b. step-on_empty digest b c) v
  manage-WellFormed digest m shuts_down v = shutdown-WellFormed m v

  manage_all-WellFormed :
      (digest : A → Option String) (m : Manager A) (cs : List (ManagerCall A))
      → WellFormed m
      → WellFormed (manage_all digest m cs)
  unfolding manage_all
  manage_all-WellFormed digest m [] v = v
  manage_all-WellFormed digest m (c ∷ cs) v =
      manage_all-WellFormed digest (manage digest m c) cs (manage-WellFormed digest m c v)

  empty-WellFormed : (m : Manager A) → m.broadcasters ≡ [] → WellFormed m
  unfolding WellFormed get_broadcaster lookup
  empty-WellFormed m e t i h = ground arith

  distinct :
      (m : Manager A) (t u : String) (i j : ℕ)
      → WellFormed m
      → t ≢ u
      → get_broadcaster t m ≡ some i
      → get_broadcaster u m ≡ some j
      → i ≢ j
  unfolding WellFormed
  distinct m t u i j v ne ht hu same =
      let (b, at_i, owner) = v t i ht in let (c, at_j, owner') = v u j hu in ne (cc)

  -- After any sequence of calls, each made while no other is under way, two topics have two
  -- broadcasters, so a call on the broadcaster of one leaves that of the other as it is.
  pub topics_isolated :
      (digest : A → Option String) (cs : List (ManagerCall A)) (t u : String) (i j : ℕ) (c : Call A)
      → t ≢ u
      → get_broadcaster t (manage_all digest new_manager cs) ≡ some i
      → get_broadcaster u (manage_all digest new_manager cs) ≡ some j
      → at j (manage digest (manage_all digest new_manager cs) (calls i c)).heap
        ≡ at j (manage_all digest new_manager cs).heap
  unfolding manage call new_manager
  topics_isolated digest cs t u i j c ne ht hu =
      let m = manage_all digest new_manager cs in
      let v = manage_all-WellFormed digest new_manager cs (empty-WellFormed new_manager refl) in
      let other : (i == j) ≡ false = nat_ne i j (distinct m t u i j v ne ht hu) in
      rw (at-update_at i j (λ b. step digest b c) m.heap, other)
