-- ===== src/ReExec/Rounds.antt =====
-- One round of the retry loop, from the timer's wake-up to the next `select`.
use go_mod_edge_utils.Prelude.{
  ◌≡◌, refl, String, true, false, List, [], ◌∷◌, ◌++◌, length, arith, append_assoc, append-nil,
  ◌==◌, nat_eq, ap, ◌∙◌, sym,
}
use go_mod_edge_utils.ReExec.{
  Control, waiting, testing, peeking, Event, wake, advance, report, System, wake_loop, fire, run,
}

module _ {T : Type 0} where
  -- The steps of a round that succeeds on `xs` and then goes on with `end`.
  abbrev pub successes : List T → List (Event T) → List (Event T)
  successes [] end = end
  successes (x ∷ xs) end = advance ∷ advance ∷ report true ∷ advance ∷ successes xs end

  abbrev pub at_items : System T → Control T → List T → List T → System T
  at_items s c items executed = record s {
    queue = record s.queue { items = items };
    at = c;
    executed = executed;
  }

  length-cons-ne_zero : (x : T) (xs : List T) → (length (x ∷ xs) == 0) ≡ false
  length-cons-ne_zero x xs = ground arith

  test_more :
      (frame : String) (z : T) (s : System T) (x : T) (items ex : List T)
      → fire frame z (at_items s testing (x ∷ items) ex) advance ≡ at_items s peeking (x ∷ items) ex
  unfolding fire
  test_more frame z s x items ex = rw (length-cons-ne_zero x items)

  one_success :
      (frame : String) (z : T) (s : System T) (x : T) (items ex : List T) (end : List (Event T))
      → run frame z (at_items s testing (x ∷ items) ex) (successes (x ∷ []) end)
        ≡ run frame z (at_items s testing items (ex ++ x ∷ [])) end
  unfolding run fire
  one_success frame z s x items ex end =
      ap (λ t. run frame z t (advance ∷ report true ∷ advance ∷ end))
        (test_more frame z s x items ex)

  run-successes :
      (frame : String) (z : T) (s : System T) (xs ys ex : List T) (end : List (Event T))
      → run frame z (at_items s testing (xs ++ ys) ex) (successes xs end)
        ≡ run frame z (at_items s testing ys (ex ++ xs)) end
  run-successes frame z s [] ys ex end = rw (append-nil ex)
  run-successes frame z s (x ∷ xs) ys ex end =
      one_success frame z s x (xs ++ ys) ex (successes xs end)
      ∙ run-successes frame z s xs ys (ex ++ x ∷ []) end
      ∙ ap (λ l. run frame z (at_items s testing ys l) end) (append_assoc ex (x ∷ []) xs)

  wake_start :
      (frame : String) (z : T) (s : System T) (items : List T) (end : List (Event T))
      → s.at ≡ waiting
      → s.queue.items ≡ items
      → run frame z s (wake ∷ end) ≡ run frame z (at_items s testing items s.executed) end
  unfolding run fire
  wake_start frame z s items end p q = rw (p, ← q, wake_loop)

  one_failure :
      (frame : String) (z : T) (s : System T) (y : T) (ys ex : List T)
      → run frame z (at_items s testing (y ∷ ys) ex) (advance ∷ advance ∷ report false ∷ [])
        ≡ at_items s waiting (y ∷ ys) ex
  unfolding run fire
  one_failure frame z s y ys ex =
      ap (λ t. run frame z t (advance ∷ report false ∷ [])) (test_more frame z s y ys ex)

  last_test :
      (frame : String) (z : T) (s : System T) (ex : List T)
      → run frame z (at_items s testing [] ex) (advance ∷ []) ≡ at_items s waiting [] ex
  unfolding run fire
  last_test frame z s ex = refl

  -- A round during which no client calls, and in which the retry function succeeds on every item,
  -- executes them all, in order, and returns to the select with an empty queue.
  pub round_empties :
      (frame : String) (z : T) (s : System T)
      → s.at ≡ waiting
      → run frame z s (wake ∷ successes s.queue.items (advance ∷ []))
        ≡ at_items s waiting [] (s.executed ++ s.queue.items)
  round_empties frame z s p =
      wake_start frame z s (s.queue.items ++ []) _ p (sym (append-nil s.queue.items))
      ∙ run-successes frame z s s.queue.items [] s.executed _
      ∙ last_test frame z s (s.executed ++ s.queue.items)

  -- A round in which the retry function succeeds on `xs` and fails on the next item `y` executes
  -- `xs`, and returns to the `select` with `y` still first in the queue.
  pub round_fails :
      (frame : String) (z : T) (s : System T) (xs : List T) (y : T) (ys : List T)
      → s.at ≡ waiting
      → s.queue.items ≡ xs ++ y ∷ ys
      → run frame z s (wake ∷ successes xs (advance ∷ advance ∷ report false ∷ []))
        ≡ at_items s waiting (y ∷ ys) (s.executed ++ xs)
  round_fails frame z s xs y ys p q =
      wake_start frame z s (xs ++ y ∷ ys) _ p q
      ∙ run-successes frame z s xs (y ∷ ys) s.executed _
      ∙ one_failure frame z s y ys (s.executed ++ xs)
