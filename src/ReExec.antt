-- ===== src/ReExec.antt =====
-- pkg/re_exec/queue.go: a bounded queue in memory, and the goroutine that retries its items.
pub mod Capacity
pub mod Loop
pub mod Rounds
mod Tests
use mathlib.Core.List.{tail}
use go_mod_edge_utils.Prelude.{
  ℕ, ◌+◌, ◌≡◌, String, Bool, true, false, Option, none, some, List, [], ◌∷◌, ◌++◌, ◌==◌, nat_eq,
  string_eq, if◌then◌else◌, length, ℤ, pos, negsuc, le_length,
}
use go_mod_edge_utils.Errors.{GoError, nil, is_nil, new_base_error}
use go_mod_edge_utils.Errors.Kinds.{kind_limit_exceeded}

abbrev pub default_max_queue_limit : ℤ
default_max_queue_limit = pos 10000

abbrev pub default_retry_interval : String
default_retry_interval = "10m"

-- `memoryQueue`; the interval is in nanoseconds. The lock is held by every method, so each is one
-- atomic step.
pub record MemoryQueue (T : Type 0) : Type 0 where
  pub queue_limit : ℤ
  pub retry_interval : ℤ
  pub items : List T

abbrev is_zero : ℤ → Bool
is_zero (pos n) = n == 0
is_zero (negsuc n) = false

abbrev or_zero : Option ℤ → ℤ
or_zero none = pos 0
or_zero (some d) = d

-- The text that `time.ParseDuration` is asked for first, and the result of the fallback.
unfoldable pub parse_interval : (String → Option ℤ) → String → ℤ
parse_interval parse_duration text = elim (parse_duration text) [
  | none ↦ or_zero (parse_duration default_retry_interval)
  | some d ↦ d
]

-- `NewMemoryQueue`, over `time.ParseDuration`.
unfoldable pub new_memory_queue : {T : Type 0} → (String → Option ℤ) → ℤ → String → MemoryQueue T
unfolding parse_interval
new_memory_queue parse_duration limit interval = record {
  queue_limit = if is_zero limit then default_max_queue_limit else limit;
  retry_interval =
      parse_interval parse_duration (if interval == "" then default_retry_interval else interval);
  items = [];
}

module _ {T : Type 0} where
  -- `Enqueue`; nil is success. The frame is the caller's, for the error.
  unfoldable pub enqueue : String → T → MemoryQueue T → MemoryQueue T × GoError
  enqueue frame item q =
      if le_length q.queue_limit (length q.items)
      then (q, new_base_error frame kind_limit_exceeded "Exceeded queue limit, drop the item" nil)
      else (record q { items = q.items ++ item ∷ [] }, nil)

  -- `Dequeue`
  unfoldable pub dequeue : MemoryQueue T → MemoryQueue T
  dequeue q = record q { items = tail q.items }

  -- `Peek`, with the zero value of the type.
  unfoldable pub peek : T → MemoryQueue T → T
  peek zero_value q = elim q.items [ [] ↦ zero_value | x ∷ xs ↦ x ]

  -- `Size`
  unfoldable pub size : MemoryQueue T → ℕ
  size q = length q.items

-- Where `reExecLoop` stands: in its `select`, before the call of `Size`, before `Peek`, in the call
-- of the retry function, before `Dequeue`, or returned.
pub data Control (T : Type 0) : Type 0 where
  waiting testing peeking : Control T
  running : T → Control T
  removing exited : Control T

-- What may happen next. A client calls `Enqueue` or `Dequeue` or cancels the context at any time,
-- while its calls of `Peek` and `Size` change nothing; the timer wakes the loop; the loop leaves, or
-- takes a step; the retry function reports.
pub data Event (T : Type 0) : Type 0 where
  offer : T → Event T
  take cancel wake leave advance : Event T
  report : Bool → Event T

-- The queue, the loop and the context; `accepted` and `executed` record the items for which
-- `Enqueue` gave no error and those for which the retry function returned true.
pub record System (T : Type 0) : Type 0 where
  pub queue : MemoryQueue T
  pub at : Control T
  pub cancelled : Bool
  pub accepted : List T
  pub executed : List T

module _ {T : Type 0} where
  unfoldable pub start : MemoryQueue T → System T
  start q = record { queue = q; at = waiting; cancelled = false; accepted = []; executed = [] }

  -- A refused item is not recorded.
  unfoldable pub offer_item : String → T → System T → System T
  unfolding enqueue new_base_error
  offer_item frame x s =
      let (q, err) = enqueue frame x s.queue in
      record s { queue = q; accepted = if is_nil err then s.accepted ++ x ∷ [] else s.accepted }

  -- The loop's own step: `Size`, `Peek` or `Dequeue`.
  unfoldable pub advance_loop : T → Control T → System T → System T
  unfolding size peek dequeue
  advance_loop zero_value testing s = record s {
    at = if size s.queue == 0 then waiting else peeking;
  }
  advance_loop zero_value peeking s = record s { at = running (peek zero_value s.queue) }
  advance_loop zero_value removing s = record s { queue = dequeue s.queue; at = testing }
  advance_loop zero_value _ s = s

  -- The return of the retry function: a failure ends the round.
  unfoldable pub report_result : Bool → Control T → System T → System T
  report_result true (running x) s = record s { at = removing; executed = s.executed ++ x ∷ [] }
  report_result false (running x) s = record s { at = waiting }
  report_result ok _ s = s

  unfoldable pub wake_loop : Control T → System T → System T
  wake_loop waiting s = record s { at = testing }
  wake_loop _ s = s

  -- `select` may take `ctx.Done()` once the context is cancelled.
  unfoldable pub leave_loop : Control T → System T → System T
  leave_loop waiting s = record s { at = if s.cancelled then exited else waiting }
  leave_loop _ s = s

  -- An event that cannot happen where the loop stands changes nothing.
  unfoldable pub fire : String → T → System T → Event T → System T
  unfolding offer_item advance_loop report_result wake_loop leave_loop
  fire frame zero_value s (offer x) = offer_item frame x s
  fire frame zero_value s take = record s { queue = dequeue s.queue }
  fire frame zero_value s cancel = record s { cancelled = true }
  fire frame zero_value s wake = wake_loop s.at s
  fire frame zero_value s leave = leave_loop s.at s
  fire frame zero_value s advance = advance_loop zero_value s.at s
  fire frame zero_value s (report ok) = report_result ok s.at s

  -- A schedule: the order in which the goroutines take their steps.
  unfoldable pub run : String → T → System T → List (Event T) → System T
  unfolding fire
  run frame zero_value s [] = s
  run frame zero_value s (e ∷ es) = run frame zero_value (fire frame zero_value s e) es
