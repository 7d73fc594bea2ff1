-- ===== src/Sse/Tests.antt =====
-- Runs of the broadcaster, the manager and the polling goroutine.
use mathlib.Core.List.{Memᴰ}
use go_mod_edge_utils.Prelude.{
  ℕ, ◌≡◌, refl, ◌≢◌, String, Bool, true, false, Option, none, some, List, [], ◌∷◌, ◌++◌, All, arith,
  eq_iff, map, inl, if◌then◌else◌, ◌==◌, nat_eq, zero, suc, insert, lookup, ◌⊎◌,
}
use go_mod_edge_utils.Sse.{
  Subscriber, Broadcaster, Call, subscribes, receives, publishes, new_broadcaster, run, step,
  publish, unsubscribe, subscribe, has_room, contains, start_polling, is_empty, remove,
}
use go_mod_edge_utils.Sse.Freshness.{
  IsCurrent, IsServed, publish-IsServed, publish_full, run-IsCurrent,
}
use go_mod_edge_utils.Sse.Membership.{chs, unsubscribe_lem}
use go_mod_edge_utils.Sse.Polling
use go_mod_edge_utils.Sse.Polling.{
  polls, stops, done, fetched, failed, PollEvent, PollingConfig, start,
}
use go_mod_edge_utils.Sse.Polling.Runs.{run-callbacks, run-publishes, results}
use go_mod_edge_utils.Sse.Manager.{
  Manager, ManagerCall, new_manager, connects, calls, at, manage, manage_all, get_broadcaster,
  create_or_get_broadcaster, create_broadcaster, connect, run_no_subscribers, call,
}
use go_mod_edge_utils.Sse.Manager.Isolation.{topics_isolated}
use go_mod_edge_utils.Sse.Manager.Races.{create_race, remove_race}

t_ne_u : ◌≢◌ {A = String} "t" "u"
t_ne_u = ground (arith, eq_iff "t" "u")

many : ℕ → List String
many zero = []
many (suc n) = "m" ∷ many n

abbrev config : PollingConfig String
config = record {
  interval = 1;
  api_version = "v3";
  stop_condition = none;
  has_stop_callback = true;
}

-- A message is its own hash.
abbrev digest : String → Option String
digest x = some x

abbrev history : List (Call String)
history = subscribes ∷ publishes "a" ∷ publishes "a" ∷ receives 0 ∷ subscribes ∷ publishes "b" ∷ []

abbrev two : Broadcaster String
two = run digest new_broadcaster history

sent_two : map (λ s. s.channel.sent) two.subscribers ≡ ("b" ∷ []) ∷ ("a" ∷ "b" ∷ []) ∷ []
unfolding run new_broadcaster
sent_two = refl

-- StartPolling with no service set: the call through the nil interface.
start_polling_nil : (start_polling (new_broadcaster {A = String})).1 ≡ none
unfolding start_polling new_broadcaster
start_polling_nil = refl

abbrev one_new : Broadcaster String
one_new = run digest new_broadcaster (publishes "a" ∷ subscribes ∷ [])

publish-IsServed_example : All (IsServed digest "b") (publish digest "b" one_new).subscribers
unfolding run new_broadcaster
publish-IsServed_example = publish-IsServed digest "b" "b" one_new refl (refl, tt) (inl refl, tt)

run-IsCurrent_example : All (IsCurrent digest two.last_hash.value) two.subscribers
unfolding new_broadcaster step
run-IsCurrent_example =
    run-IsCurrent digest history
      (("a", refl), (refl, tt), (("a", refl), (refl, tt), (("b", refl), (refl, (refl, tt)), tt)))

unsubscribe_example : contains 0 (chs two.subscribers) ≡ true
unfolding run new_broadcaster contains
unsubscribe_example = refl

unsubscribe_lem_example :
    (b' : Broadcaster String) × (empty : Bool) × (unsubscribe 0 two ≡ some (b', empty))
    × ((c : ℕ)
        → contains c (chs b'.subscribers)
          ≡ (if 0 == c then false else contains c (chs two.subscribers)))
    × (empty ≡ is_empty b'.subscribers)
    × (unsubscribe 0 b' ≡ none)
unfolding run new_broadcaster contains
unsubscribe_lem_example =
    unsubscribe_lem digest history 0 (tt, (tt, (tt, (tt, (tt, (tt, tt)))))) refl

abbrev full_subscriber : Subscriber String
full_subscriber = record {
  ch = 0;
  channel = record { sent = many 64; received = 0 };
  is_new = false;
}

abbrev crowded : Broadcaster String
crowded = record (new_broadcaster {A = String}) { subscribers = full_subscriber ∷ [] }

publish_full_example : Memᴰ full_subscriber (publish digest "z" crowded).subscribers
unfolding has_room many new_broadcaster
publish_full_example = publish_full digest "z" crowded full_subscriber (Memᴰ.head refl) refl

run-callbacks_example :
    (Polling.run config start (polls (fetched "a") ∷ stops ∷ done ∷ [])).callbacks ≡ 1
unfolding Polling.run start
run-callbacks_example = run-callbacks config (polls (fetched "a") ∷ stops ∷ done ∷ [])

run-publishes_example :
    (kept : List (Polling.Fetched String)) × (ignored : List (Polling.Fetched String)) × (results
        (polls (fetched "a") ∷ stops ∷ done ∷ [])
      ≡ kept ++ ignored)
    × ((Polling.run config start (polls (fetched "a") ∷ stops ∷ done ∷ [])).published
        ≡ map (Polling.message_of config) kept)
    × ((ignored ≡ [])
        ⊎ ((Polling.run config start (polls (fetched "a") ∷ stops ∷ done ∷ [])).place
            ≡ Polling.ended))
run-publishes_example = run-publishes config (polls (fetched "a") ∷ stops ∷ done ∷ [])

abbrev topics : List (ManagerCall String)
topics = connects none "t" ∷ connects (some 1) "u" ∷ []

topics_isolated_example :
    at 1 (manage digest (manage_all digest new_manager topics) (calls 0 (publishes "x"))).heap
    ≡ at 1 (manage_all digest new_manager topics).heap
unfolding manage_all new_manager connect create_or_get_broadcaster create_broadcaster
    get_broadcaster insert lookup
topics_isolated_example = topics_isolated digest topics "t" "u" 0 1 (publishes "x") t_ne_u refl refl

create_race_example :
    get_broadcaster "t"
      (create_broadcaster "t" (create_broadcaster "t" (new_manager {A = String})).0).0
    ≡ some 1
unfolding new_manager create_broadcaster get_broadcaster lookup
create_race_example = (create_race digest "t" (new_manager {A = String}) "x" refl).2

-- A topic whose last subscriber has just left.
abbrev left : Broadcaster String
left = record (new_broadcaster {A = String}) { on_empty = some "t"; closed = 0 ∷ []; next_ch = 1 }

abbrev deserted : Manager String
deserted = record { broadcasters = ("t", 0) ∷ []; heap = left ∷ []; cancelled = false }

remove_race_example :
    get_broadcaster "t" (run_no_subscribers 0 (call 0 (λ c. (subscribe c).0) deserted)).0 ≡ none
unfolding get_broadcaster lookup at unsubscribe contains remove new_broadcaster subscribe
remove_race_example =
    (remove_race "t" deserted 0 0
      (record left {
        subscribers = (subscribe (new_broadcaster {A = String})).0.subscribers;
        closed = [];
      })
      left refl refl refl refl).1
