-- ===== src/ReExec/Capacity.antt =====
-- The limit of the queue, under every schedule.
use mathlib.Core.List.{tail}
use go_mod_edge_utils.Prelude.{
  ℕ, ◌≤◌, ◌≡◌, String, Bool, true, false, Option, List, [], ◌∷◌, length, length-append, ℤ, pos,
  negsuc, arith, if◌then◌else◌, ◌==◌, nat_eq,
}
use go_mod_edge_utils.ReExec.{
  MemoryQueue, Control, waiting, testing, peeking, running, removing, Event, offer, take, cancel,
  wake, leave, advance, report, System, start, offer_item, advance_loop, report_result, wake_loop,
  leave_loop, fire, run, enqueue, size, dequeue, new_memory_queue,
}

-- A limit of 0 is the default, 10000.
abbrev pub effective : ℕ → ℕ
effective limit = if limit == 0 then 10000 else limit

module _ {T : Type 0} where
  -- A queue with a limit of `n` holds at most `n` items.
  pub record Within (n : ℕ) (s : System T) : Type 0 where
    pub limit : s.queue.queue_limit ≡ pos n
    pub room : length s.queue.items ≤ n

  length-tail-le : (xs : List T) → length (tail xs) ≤ length xs
  length-tail-le [] = omega arith
  length-tail-le (x ∷ xs) = omega arith

  offer_item-Within :
      (n : ℕ) (frame : String) (x : T) (s : System T) → Within n s → Within n (offer_item frame x s)
  unfolding offer_item
  offer_item-Within n frame x s v = ground (arith, length-append s.queue.items (x ∷ []))

  advance_loop-Within :
      (n : ℕ) (z : T) (s : System T) (c : Control T) → Within n s → Within n (advance_loop z c s)
  unfolding advance_loop dequeue
  advance_loop-Within n z s testing v = record { limit = v.limit; room = v.room }
  advance_loop-Within n z s peeking v = record { limit = v.limit; room = v.room }
  advance_loop-Within n z s removing v = record {
    limit = v.limit;
    room = omega (arith, v.room, length-tail-le s.queue.items);
  }
  advance_loop-Within n z s _ v = v

  report_result-Within :
      (n : ℕ) (ok : Bool) (s : System T) (c : Control T)
      → Within n s
      → Within n (report_result ok c s)
  unfolding report_result
  report_result-Within n true s (running x) v = record { limit = v.limit; room = v.room }
  report_result-Within n false s (running x) v = record { limit = v.limit; room = v.room }
  report_result-Within n true s _ v = v
  report_result-Within n false s _ v = v

  wake_loop-Within : (n : ℕ) (s : System T) (c : Control T) → Within n s → Within n (wake_loop c s)
  unfolding wake_loop
  wake_loop-Within n s waiting v = record { limit = v.limit; room = v.room }
  wake_loop-Within n s _ v = v

  leave_loop-Within :
      (n : ℕ) (s : System T) (c : Control T) → Within n s → Within n (leave_loop c s)
  unfolding leave_loop
  leave_loop-Within n s waiting v = record { limit = v.limit; room = v.room }
  leave_loop-Within n s _ v = v

  fire-Within :
      (n : ℕ) (frame : String) (z : T) (s : System T) (e : Event T)
      → Within n s
      → Within n (fire frame z s e)
  unfolding fire dequeue
  fire-Within n frame z s (offer x) v = offer_item-Within n frame x s v
  fire-Within n frame z s take v = record {
    limit = v.limit;
    room = omega (arith, v.room, length-tail-le s.queue.items);
  }
  fire-Within n frame z s cancel v = record { limit = v.limit; room = v.room }
  fire-Within n frame z s wake v = wake_loop-Within n s s.at v
  fire-Within n frame z s leave v = leave_loop-Within n s s.at v
  fire-Within n frame z s advance v = advance_loop-Within n z s s.at v
  fire-Within n frame z s (report ok) v = report_result-Within n ok s s.at v

  run-Within :
      (n : ℕ) (frame : String) (z : T) (s : System T) (es : List (Event T))
      → Within n s
      → Within n (run frame z s es)
  unfolding run
  run-Within n frame z s [] v = v
  run-Within n frame z s (e ∷ es) v =
      run-Within n frame z (fire frame z s e) es (fire-Within n frame z s e v)

  -- A queue that is made with a limit that is not negative never holds more items than the limit,
  -- where 0 stands for 10000.
  pub size-le-limit :
      (frame : String) (z : T) (parse : String → Option ℤ) (limit : ℕ) (interval : String)
      (es : List (Event T))
      → size (run frame z (start (new_memory_queue parse (pos limit) interval)) es).queue
        ≤ effective limit
  unfolding size start new_memory_queue
  size-le-limit frame z parse limit interval es =
      (run-Within (effective limit) frame z (start (new_memory_queue parse (pos limit) interval)) es
        begin).room
    where
      begin : Within (effective limit) (start (new_memory_queue parse (pos limit) interval))
      begin = ground arith

  -- A negative limit refuses every item.
  pub enqueue_negative :
      (frame : String) (x : T) (n : ℕ) (q : MemoryQueue T)
      → q.queue_limit ≡ negsuc n
      → (enqueue frame x q).0 ≡ q
  unfolding enqueue
  enqueue_negative frame x n q h = ground arith
