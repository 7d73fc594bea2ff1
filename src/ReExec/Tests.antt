-- ===== src/ReExec/Tests.antt =====
-- Runs of the queue and its loop.
use go_mod_edge_utils.Prelude.{
  arith, ℕ, ◌≤◌, ◌≡◌, refl, String, true, false, Option, some, List, [], ◌∷◌, ◌++◌, ℤ, pos,
}
use go_mod_edge_utils.ReExec.{
  waiting, Event, offer, wake, advance, report, System, start, run, size, new_memory_queue,
}
use go_mod_edge_utils.ReExec.Loop.{pending, run-Accounts}
use go_mod_edge_utils.ReExec.Capacity.{size-le-limit}
use go_mod_edge_utils.ReExec.Rounds.{at_items, successes, round_empties}

-- A parser that knows one duration only.
abbrev parse : String → Option ℤ
parse text = some (pos 600000000000)

abbrev schedule : List (Event ℕ)
schedule = offer 4 ∷ offer 5 ∷ offer 6 ∷ wake ∷ advance ∷ advance ∷ offer 7 ∷ report true ∷ []

abbrev busy : System ℕ
busy = run "f" 0 (start (new_memory_queue parse (pos 2) "")) schedule

accepted_two : busy.accepted ≡ 4 ∷ 5 ∷ []
unfolding run start new_memory_queue
accepted_two = refl

run-Accounts_example : busy.accepted ≡ busy.executed ++ pending busy.at busy.queue.items
run-Accounts_example = run-Accounts "f" 0 parse (pos 2) "" schedule (omega arith)

size-le-limit_example : size busy.queue ≤ 2
size-le-limit_example = size-le-limit "f" 0 parse 2 "" schedule

abbrev idle : System ℕ
idle = record {
  queue = record { queue_limit = pos 5; retry_interval = pos 1; items = 1 ∷ 2 ∷ 3 ∷ [] };
  at = waiting;
  cancelled = false;
  accepted = 1 ∷ 2 ∷ 3 ∷ [];
  executed = [];
}

round_empties_example :
    run "f" 0 idle (wake ∷ successes (1 ∷ 2 ∷ 3 ∷ []) (advance ∷ []))
    ≡ at_items idle waiting [] (1 ∷ 2 ∷ 3 ∷ [])
round_empties_example = round_empties "f" 0 idle refl
