-- ===== src/ReExec/Loop.antt =====
-- The retry loop executes the accepted items once each, in their order, under every schedule.
use mathlib.Core.List.{tail}
use go_mod_edge_utils.Prelude.{
  ◌≡◌, refl, ◌≢◌, String, Bool, true, false, Option, List, [], ◌∷◌, ◌++◌, length, ℤ, arith, All,
  append_assoc, sym, Bool-cases, inl, inr, le_length, if◌then◌else◌, ◌==◌, nat_eq,
}
use go_mod_edge_utils.ReExec.{
  MemoryQueue, Control, waiting, testing, peeking, running, removing, exited, Event, offer, take,
  cancel, wake, leave, advance, report, System, start, offer_item, advance_loop, report_result,
  wake_loop, leave_loop, fire, run, size, peek, dequeue, new_memory_queue,
}

module _ {T : Type 0} where
  -- What the place of the loop says of the items.
  abbrev pub Holds : Control T → List T → Type 0
  Holds peeking items = items ≢ []
  Holds (running x) items = (rest : List T) × (items ≡ x ∷ rest)
  Holds removing items = items ≢ []
  Holds _ items = Unit

  -- The items that are still to be executed.
  abbrev pub pending : Control T → List T → List T
  pending removing items = tail items
  pending _ items = items

  -- Every accepted item has been executed or is pending, in the order of acceptance.
  abbrev pub Accounts : Control T → List T → List T → List T → Type 0
  Accounts c items accepted executed = Holds c items × (accepted ≡ executed ++ pending c items)

  abbrev pub Inv : System T → Type 0
  Inv s = Accounts s.at s.queue.items s.accepted s.executed

  offer-Accounts :
      (c : Control T) (items acc ex : List T) (x : T)
      → Accounts c items acc ex
      → Accounts c (items ++ x ∷ []) (acc ++ x ∷ []) ex
  offer-Accounts waiting items acc ex x (h, e) = (tt, rw e (append_assoc ex items (x ∷ [])))
  offer-Accounts testing items acc ex x (h, e) = (tt, rw e (append_assoc ex items (x ∷ [])))
  offer-Accounts exited items acc ex x (h, e) = (tt, rw e (append_assoc ex items (x ∷ [])))
  offer-Accounts peeking [] acc ex x (h, e) = absurd (h refl)
  offer-Accounts peeking (y ∷ items) acc ex x (h, e) =
      ((λ p. cc), rw e (append_assoc ex (y ∷ items) (x ∷ [])))
  offer-Accounts removing [] acc ex x (h, e) = absurd (h refl)
  offer-Accounts removing (y ∷ items) acc ex x (h, e) =
      ((λ p. cc), rw e (append_assoc ex items (x ∷ [])))
  offer-Accounts (running y) items acc ex x ((rest, p), e) =
      ((rest ++ x ∷ [], rw p), rw e (append_assoc ex items (x ∷ [])))

  offer_item-Inv : (frame : String) (x : T) (s : System T) → Inv s → Inv (offer_item frame x s)
  unfolding offer_item
  offer_item-Inv frame x s v =
      elim (Bool-cases (le_length s.queue.queue_limit (length s.queue.items))) [
        | inl full ↦ rw (full, offer_item) v
        | inr room ↦
            rw (room, offer_item) (offer-Accounts s.at s.queue.items s.accepted s.executed x v)
      ]

  -- The moves of the loop itself.
  test-Accounts :
      (items acc ex : List T)
      → Accounts testing items acc ex
      → Accounts (if length items == 0 then waiting else peeking) items acc ex
  test-Accounts [] acc ex h = h
  test-Accounts (x ∷ items) acc ex (h, e) = elim (Bool-cases (length (x ∷ items) == 0)) [
    | inl zero_length ↦ absurd (ground arith)
    | inr more ↦ rw more ((λ p. cc), e)
  ]

  peek-Accounts :
      (z : T) (q : MemoryQueue T) (items acc ex : List T)
      → q.items ≡ items
      → Accounts peeking items acc ex
      → Accounts (running (peek z q)) items acc ex
  unfolding peek
  peek-Accounts z q [] acc ex p (h, e) = absurd (h refl)
  peek-Accounts z q (x ∷ items) acc ex p (h, e) = ((items, rw (p, peek)), e)

  success-Accounts :
      (x : T) (items acc ex : List T)
      → Accounts (running x) items acc ex
      → Accounts removing items acc (ex ++ x ∷ [])
  success-Accounts x items acc ex ((rest, p), e) =
      ((λ none_left. cc), rw (e, p) (sym (append_assoc ex (x ∷ []) rest)))

  advance_loop-Inv :
      (z : T) (s : System T) (c : Control T) → s.at ≡ c → Inv s → Inv (advance_loop z c s)
  unfolding advance_loop size dequeue
  advance_loop-Inv z s testing p v = test-Accounts s.queue.items s.accepted s.executed (rw p at v)
  advance_loop-Inv z s peeking p v =
      peek-Accounts z s.queue s.queue.items s.accepted s.executed refl (rw p at v)
  advance_loop-Inv z s removing p v = (tt, (rw p at v).1)
  advance_loop-Inv z s _ p v = v

  report_result-Inv :
      (ok : Bool) (s : System T) (c : Control T) → s.at ≡ c → Inv s → Inv (report_result ok c s)
  unfolding report_result
  report_result-Inv true s (running x) p v =
      success-Accounts x s.queue.items s.accepted s.executed (rw p at v)
  report_result-Inv false s (running x) p v = (tt, (rw p at v).1)
  report_result-Inv true s _ p v = v
  report_result-Inv false s _ p v = v

  wake_loop-Inv : (s : System T) (c : Control T) → s.at ≡ c → Inv s → Inv (wake_loop c s)
  unfolding wake_loop
  wake_loop-Inv s waiting p v = (tt, (rw p at v).1)
  wake_loop-Inv s _ p v = v

  leave_loop-Inv : (s : System T) (c : Control T) → s.at ≡ c → Inv s → Inv (leave_loop c s)
  unfolding leave_loop
  leave_loop-Inv s waiting p v = elim (Bool-cases s.cancelled) [
    | inl over ↦ rw (over, leave_loop) (tt, (rw p at v).1)
    | inr live ↦ rw (live, leave_loop) (tt, (rw p at v).1)
  ]
  leave_loop-Inv s _ p v = v

  -- No client calls `Dequeue`.
  abbrev pub IsOthers : Event T → Type 0
  IsOthers take = ⊥
  IsOthers _ = Unit

  fire-Inv :
      (frame : String) (z : T) (s : System T) (e : Event T)
      → IsOthers e
      → Inv s
      → Inv (fire frame z s e)
  unfolding fire
  fire-Inv frame z s (offer x) h v = offer_item-Inv frame x s v
  fire-Inv frame z s take h v = absurd h
  fire-Inv frame z s cancel h v = v
  fire-Inv frame z s wake h v = wake_loop-Inv s s.at refl v
  fire-Inv frame z s leave h v = leave_loop-Inv s s.at refl v
  fire-Inv frame z s advance h v = advance_loop-Inv z s s.at refl v
  fire-Inv frame z s (report ok) h v = report_result-Inv ok s s.at refl v

  run-Inv :
      (frame : String) (z : T) (s : System T) (es : List (Event T))
      → All IsOthers es
      → Inv s
      → Inv (run frame z s es)
  unfolding run
  run-Inv frame z s [] h v = v
  run-Inv frame z s (e ∷ es) h v =
      run-Inv frame z (fire frame z s e) es h.1 (fire-Inv frame z s e h.0 v)

  -- Under every schedule of the clients, the timer and the retry loop in which only the loop calls
  -- Dequeue, the items that Enqueue accepted are, in the order of acceptance, those executed with
  -- success, once each, and then those still in the queue, but for one that is executed and not yet
  -- removed.
  pub run-Accounts :
      (frame : String) (z : T) (parse : String → Option ℤ) (limit : ℤ) (interval : String)
      (es : List (Event T))
      → All IsOthers es
      → let s = run frame z (start (new_memory_queue parse limit interval)) es in
        s.accepted ≡ s.executed ++ pending s.at s.queue.items
  unfolding start new_memory_queue
  run-Accounts frame z parse limit interval es h =
      (run-Inv frame z (start (new_memory_queue parse limit interval)) es h begin).1
    where
      begin : Inv (start (new_memory_queue parse limit interval))
      begin = (tt, refl)
