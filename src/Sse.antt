-- ===== src/Sse.antt =====
-- pkg/sse/broadcaster.go: the subscribers of a topic and what they are sent. Each method that takes
-- the lock is one atomic step; `Publish` is two, the comparison of the hash and the sending.
pub mod Delivery
pub mod Freshness
pub mod Membership
pub mod Polling
pub mod Manager
pub mod Start
mod Tests
use go_mod_edge_utils.Prelude.{
  ℕ, suc, ◌+◌, ◌-◌, ◌≡◌, String, Bool, true, false, ◌||◌, ◌&&◌, Option, none, some, List, [], ◌∷◌,
  ◌++◌, map, ◌==◌, nat_eq, ltb, if◌then◌else◌, length,
}
use go_mod_edge_utils.Common.{AtomicString, compare_and_swap}

-- `make(SubscriberCh, 64)`
abbrev pub capacity : ℕ
capacity = 64

-- A buffered channel: all that was sent, and how many of these were received.
pub record Channel (A : Type 0) : Type 0 where
  pub sent : List A
  pub received : ℕ

pub record Subscriber (A : Type 0) : Type 0 where
  pub ch : ℕ
  pub channel : Channel A
  pub is_new : Bool

-- `pollingService` is a reference, or nil. `on_empty` is the callback, or nil, named by the topic
-- that it removes from the manager. `started` is the `sync.Once`. `closed` lists the channels
-- that were closed, and `next_ch` is the next channel that `make` gives.
pub record Broadcaster (A : Type 0) : Type 0 where
  pub subscribers : List (Subscriber A)
  pub last_hash : AtomicString
  pub polling_service : Option ℕ
  pub on_empty : Option String
  pub started : Bool
  pub closed : List ℕ
  pub next_ch : ℕ

unfoldable pub contains : ℕ → List ℕ → Bool
contains c [] = false
contains c (d ∷ ds) = d == c || contains c ds

abbrev pub is_empty {ℓ} : {B : Type ℓ} → List B → Bool
is_empty [] = true
is_empty (x ∷ xs) = false

module _ {A : Type 0} where
  -- A send in a `select` with a default succeeds if the buffer has room.
  unfoldable pub has_room : Channel A → Bool
  has_room c = ltb (length c.sent) (c.received + capacity)

  unfoldable pub send : A → Channel A → Channel A
  send x c = record c { sent = c.sent ++ x ∷ [] }

  -- `NewBroadcaster`
  unfoldable pub new_broadcaster : Broadcaster A
  new_broadcaster = record {
    subscribers = [];
    last_hash = record { value = "" };
    polling_service = none;
    on_empty = none;
    started = false;
    closed = [];
    next_ch = 0;
  }

  -- `SetPollingService`
  unfoldable pub set_polling_service : Option ℕ → Broadcaster A → Broadcaster A
  set_polling_service service b = record b { polling_service = service }

  -- `SetOnEmptyCallback`
  unfoldable pub set_on_empty_callback : String → Broadcaster A → Broadcaster A
  set_on_empty_callback topic b = record b { on_empty = some topic }

  -- `Subscribe`
  unfoldable pub subscribe : Broadcaster A → Broadcaster A × ℕ
  subscribe b = (
    record b {
      subscribers =
          record { ch = b.next_ch; channel = record { sent = []; received = 0 }; is_new = true }
          ∷ b.subscribers;
      next_ch = suc b.next_ch;
    },
    b.next_ch,
  )

  unfoldable pub remove : ℕ → List (Subscriber A) → List (Subscriber A)
  remove ch [] = []
  remove ch (s ∷ ss) = if s.ch == ch then remove ch ss else s ∷ remove ch ss

  -- `Unsubscribe`; `none` is the panic of closing a channel twice. The flag says that the goroutine
  -- `handleNoSubscribers` is started.
  unfoldable pub unsubscribe : ℕ → Broadcaster A → Option (Broadcaster A × Bool)
  unfolding remove contains
  unsubscribe ch b =
      let left = remove ch b.subscribers in
      if contains ch b.closed
      then none
      else some (record b { subscribers = left; closed = ch ∷ b.closed }, is_empty left)

  -- What `handleNoSubscribers` calls: `Stop` of the polling service, and the callback.
  unfoldable pub handle_no_subscribers : Broadcaster A → Option ℕ × Option String
  handle_no_subscribers b = (b.polling_service, b.on_empty)

  -- `StartPolling`: the service to be started, if this is the first call; `none` is the panic of a
  -- call through the nil interface, after which the `sync.Once` counts as done.
  unfoldable pub start_polling : Broadcaster A → Broadcaster A × Option (Option ℕ)
  start_polling b =
      let b' = record b { started = true } in
      if b.started
      then (b, some none)
      else (elim b.polling_service [ none ↦ (b', none) | some service ↦ (b', some (some service)) ])

  -- `<-ch` of the handler that holds the channel; it waits while the channel is empty.
  unfoldable pub take_next : ℕ → Subscriber A → Subscriber A
  take_next ch s =
      if s.ch == ch && ltb s.channel.received (length s.channel.sent)
      then record s { channel = record s.channel { received = suc s.channel.received } }
      else s

  unfoldable pub receive : ℕ → Broadcaster A → Broadcaster A
  unfolding take_next
  receive ch b = record b { subscribers = map (take_next ch) b.subscribers }

  -- The body of the loop of `Publish`.
  unfoldable pub offer : Bool → A → Subscriber A → Subscriber A
  unfolding has_room send
  offer should_send data_ s =
      if s.is_new || should_send
      then (if has_room s.channel
          then record s { channel = send data_ s.channel; is_new = false }
          else s)
      else s

pub data Call (A : Type 0) : Type 0 where
  subscribes : Call A
  unsubscribes receives : ℕ → Call A
  publishes : A → Call A

module _ {A : Type 0} (digest : A → Option String) where
  -- `shouldSendUpdate`, over `json.Marshal`, SHA-256 and hex in one; `none` is an error of `Marshal`.
  unfoldable pub should_send_update : A → Broadcaster A → Broadcaster A × Bool
  unfolding compare_and_swap
  should_send_update x b = elim (digest x) [
    | none ↦ (b, false)
    | some hash ↦
        let (h, changed) = compare_and_swap hash b.last_hash in
        (record b { last_hash = h }, changed)
  ]

  -- The loop of `Publish`, under its second lock.
  unfoldable pub send_to_all : Bool → A → Broadcaster A → Broadcaster A
  unfolding offer
  send_to_all should_send x b = record b { subscribers = map (offer should_send x) b.subscribers }

  -- `Publish` when no other `Publish` comes between its two locks: the comparison of the hash is made
  -- before the lock of the subscribers is taken, and that lock is shared.
  unfoldable pub publish : A → Broadcaster A → Broadcaster A
  unfolding should_send_update send_to_all
  publish x b = let (b', should_send) = should_send_update x b in send_to_all should_send x b'

  -- The calls on a broadcaster, in the order in which they take effect, each `Publish` while no other
  -- is under way. A panic changes nothing
  -- here: the goroutine that panics is gone, with the lock still held.
  unfoldable pub step : Broadcaster A → Call A → Broadcaster A
  unfolding subscribe unsubscribe receive publish
  step b subscribes = (subscribe b).0
  step b (unsubscribes ch) = elim (unsubscribe ch b) [ none ↦ b | some r ↦ r.0 ]
  step b (receives ch) = receive ch b
  step b (publishes x) = publish x b

  unfoldable pub run : Broadcaster A → List (Call A) → Broadcaster A
  unfolding step
  run b [] = b
  run b (c ∷ cs) = run (step b c) cs
