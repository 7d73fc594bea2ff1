-- ===== src/Sse/Manager.antt =====
-- pkg/sse/manager.go and the opening of handler.go: the broadcaster of each topic.
pub mod Topics
pub mod Isolation
pub mod Races
use Prim.Native.String
use go_mod_edge_utils.Prelude.{
  ℕ, zero, suc, String, Bool, true, false, not, ◌&&◌, Option, none, some, List, [], ◌∷◌, ◌++◌, ◌==◌,
  string_eq, if◌then◌else◌, length, Dict, lookup, insert, delete, is_some,
}
use go_mod_edge_utils.Sse.{
  Broadcaster, new_broadcaster, set_on_empty_callback, set_polling_service, start_polling,
  subscribe, unsubscribe, handle_no_subscribers, publish, Call, step,
}

-- The broadcasters stand in a heap, and a topic refers to its broadcaster by address. `cancelled` is
-- the manager's context.
pub record Manager (A : Type 0) : Type 0 where
  pub broadcasters : Dict ℕ
  pub heap : List (Broadcaster A)
  pub cancelled : Bool

-- `ConstructSSETopic`, of the path and the raw query of the request.
unfoldable pub construct_sse_topic : String → String → String
construct_sse_topic path query =
    if query == "" then path else String.◌++◌ path (String.◌++◌ "?" query)

-- The topic that `Handler` uses.
unfoldable pub handler_topic : String → String → String → String
unfolding construct_sse_topic
handler_topic custom_topic path query =
    if not (custom_topic == "") then custom_topic else construct_sse_topic path query

module _ {A : Type 0} where
  -- `NewManager`, but for the goroutine that waits for the context.
  unfoldable pub new_manager : Manager A
  new_manager = record { broadcasters = []; heap = []; cancelled = false }

  unfoldable pub at : ℕ → List (Broadcaster A) → Option (Broadcaster A)
  at i [] = none
  at zero (b ∷ bs) = some b
  at (suc i) (b ∷ bs) = at i bs

  unfoldable pub update_at :
      ℕ → (Broadcaster A → Broadcaster A) → List (Broadcaster A) → List (Broadcaster A)
  update_at i f [] = []
  update_at zero f (b ∷ bs) = f b ∷ bs
  update_at (suc i) f (b ∷ bs) = b ∷ update_at i f bs

  -- A method call on the broadcaster at an address.
  unfoldable pub call : ℕ → (Broadcaster A → Broadcaster A) → Manager A → Manager A
  unfolding update_at
  call i f m = record m { heap = update_at i f m.heap }

  -- `GetBroadcaster`
  unfoldable pub get_broadcaster : String → Manager A → Option ℕ
  get_broadcaster topic m = lookup topic m.broadcasters

  -- `CreateOrGetBroadcaster` from the second lock on: it does not look again.
  unfoldable pub create_broadcaster : String → Manager A → Manager A × ℕ
  unfolding set_on_empty_callback
  create_broadcaster topic m =
      let i = length m.heap in
      (
        record m {
          broadcasters = insert topic i m.broadcasters;
          heap = m.heap ++ set_on_empty_callback topic new_broadcaster ∷ [];
        },
        i,
      )

  -- `CreateOrGetBroadcaster` when no other call comes between its two locks.
  unfoldable pub create_or_get_broadcaster : String → Manager A → Manager A × ℕ × Bool
  create_or_get_broadcaster topic m = elim (get_broadcaster topic m) [
    | some i ↦ (m, i, false)
    | none ↦ (let (m', i) = create_broadcaster topic m in (m', i, true))
  ]

  -- `RemoveBroadcaster`
  unfoldable pub remove_broadcaster : String → Manager A → Manager A
  remove_broadcaster topic m = record m { broadcasters = delete topic m.broadcasters }

  -- The goroutine `handleNoSubscribers` of the broadcaster at an address, when it runs: the service
  -- that it stops, and the removal of the topic by the callback.
  unfoldable pub run_no_subscribers : ℕ → Manager A → Manager A × Option ℕ
  unfolding handle_no_subscribers remove_broadcaster at
  run_no_subscribers i m = elim (at i m.heap) [
    | none ↦ (m, none)
    | some b ↦
        let (service, callback) = handle_no_subscribers b in
        (elim callback [ none ↦ m | some topic ↦ remove_broadcaster topic m ], service)
  ]

  -- `Shutdown`
  unfoldable pub shutdown : Manager A → Manager A
  shutdown m = record m { cancelled = true }

  unfoldable pub start_at : ℕ → Broadcaster A → Broadcaster A
  unfolding set_polling_service start_polling
  start_at service b = (start_polling (set_polling_service (some service) b)).0

  -- `Handler` up to the subscription: the broadcaster, and whether polling was started.
  unfoldable pub connect : Option ℕ → String → Manager A → Manager A × ℕ × Bool
  unfolding call start_at subscribe
  connect none topic m =
      let (m', i, is_new) = create_or_get_broadcaster topic m in
      (call i (λ b. (subscribe b).0) m', i, false)
  connect (some service) topic m =
      let (m', i, is_new) = create_or_get_broadcaster topic m in
      (call i (λ b. (subscribe (if is_new then start_at service b else b)).0) m', i, is_new)

-- The calls on a manager and its broadcasters, each made while no other is under way.
pub data ManagerCall (A : Type 0) : Type 0 where
  connects : Option ℕ → String → ManagerCall A
  removes : String → ManagerCall A
  calls : ℕ → Call A → ManagerCall A
  shuts_down : ManagerCall A

module _ {A : Type 0} (digest : A → Option String) where
  unfoldable pub manage : Manager A → ManagerCall A → Manager A
  unfolding remove_broadcaster shutdown
  manage m (connects service topic) = (connect service topic m).0
  manage m (removes topic) = remove_broadcaster topic m
  manage m (calls i c) = call i (λ b. step digest b c) m
  manage m shuts_down = shutdown m

  unfoldable pub manage_all : Manager A → List (ManagerCall A) → Manager A
  unfolding manage
  manage_all m [] = m
  manage_all m (c ∷ cs) = manage_all (manage m c) cs
