-- ===== src/Sse/Polling/Runs.antt =====
-- What the polling goroutine publishes, and how often it calls back.
use go_mod_edge_utils.Prelude.{
  ℕ, ◌≡◌, refl, sym, ◌∙◌, ap, ◌⊎◌, inl, inr, String, List, [], ◌∷◌, ◌++◌, map, nat_eq,
  if◌then◌else◌, arith, append_assoc, append-nil,
}
use go_mod_edge_utils.Errors.{GoError, nil, base, http, is_nil, as_error, code, foreign}
use go_mod_edge_utils.Sse.Polling.{
  PollingConfig, get_error_response, Fetched, message_of, Place, starting, selecting, ended,
  Polling, PollEvent, polls, stops, done, start, fire, run, or_default,
}

status_of :
    (e : GoError)
    → (if is_nil e then 500 else or_default (code e) 500)
      ≡ elim e [ nil ↦ 500 | base f w ↦ 1 | http f w status ↦ status | _ ↦ 500 ]
unfolding code
status_of nil = refl
status_of (foreign text w) = refl
status_of (base f w) = refl
status_of (http f w status) = refl

-- The status of an error response is the HTTP status if the first error of pkg/errors in the chain
-- is an `HTTPError`, 500 if there is none, and 1 if it is a `BaseError`.
pub get_error_response_status :
    (version : String) (err : GoError)
    → (get_error_response version err).status_code
      ≡ elim (as_error err) [ nil ↦ 500 | base f w ↦ 1 | http f w status ↦ status | _ ↦ 500 ]
unfolding get_error_response code
get_error_response_status version err = status_of (as_error err)

module _ {A : Type 0} where
  -- What the polling function returns over a schedule.
  abbrev pub results : List (PollEvent A) → List (Fetched A)
  results [] = []
  results (polls r ∷ es) = r ∷ results es
  results (_ ∷ es) = results es

module _ {A : Type 0} (c : PollingConfig A) where
  abbrev pub expected_callbacks : Place → ℕ
  expected_callbacks ended = if c.has_stop_callback then 1 else 0
  expected_callbacks _ = 0

  fire-callbacks :
      (place : Place) (e : PollEvent A) (p : Polling A)
      → p.place ≡ place
      → p.callbacks ≡ expected_callbacks place
      → (fire c place e p).callbacks ≡ expected_callbacks (fire c place e p).place
  unfolding fire
  fire-callbacks starting (polls r) p h k = k
  fire-callbacks selecting (polls r) p h k = rw (h, fire) k
  fire-callbacks ended (polls r) p h k = rw (h, fire) k
  fire-callbacks starting stops p h k = rw (h, fire) k
  fire-callbacks selecting stops p h k = rw (h, fire) k
  fire-callbacks ended stops p h k = rw (h, fire) k
  fire-callbacks starting done p h k = rw (h, fire) k
  fire-callbacks selecting done p h k = ground arith
  fire-callbacks ended done p h k = rw (h, fire) k

  run-callbacks_from :
      (p : Polling A) (es : List (PollEvent A))
      → p.callbacks ≡ expected_callbacks p.place
      → (run c p es).callbacks ≡ expected_callbacks (run c p es).place
  unfolding run
  run-callbacks_from p [] k = k
  run-callbacks_from p (e ∷ es) k =
      run-callbacks_from (fire c p.place e p) es (fire-callbacks p.place e p refl k)

  -- The stop callback, if there is one, has been called once when the goroutine has returned, for
  -- whatever reason, and not before.
  pub run-callbacks :
      (es : List (PollEvent A))
      → (run c start es).callbacks ≡ expected_callbacks (run c start es).place
  unfolding start
  run-callbacks es = run-callbacks_from start es refl

  abbrev Published : Polling A → List (PollEvent A) → Polling A → Type 0
  Published p es q =
      (kept : List (Fetched A)) × (ignored : List (Fetched A)) × (results es ≡ kept ++ ignored)
      × (q.published ≡ p.published ++ map (message_of c) kept)
      × ((ignored ≡ []) ⊎ (q.place ≡ ended))

  ended_step :
      (e : PollEvent A) (p : Polling A)
      → p.place ≡ ended
      → ((fire c p.place e p).place ≡ ended) × ((fire c p.place e p).published ≡ p.published)
  unfolding fire
  ended_step (polls r) p h = rw (h, fire) (refl, refl)
  ended_step stops p h = rw (h, fire) (refl, refl)
  ended_step done p h = rw (h, fire) (refl, refl)

  ended_stays :
      (p : Polling A) (es : List (PollEvent A))
      → p.place ≡ ended
      → ((run c p es).place ≡ ended) × ((run c p es).published ≡ p.published)
  unfolding run
  ended_stays p [] h = (h, refl)
  ended_stays p (e ∷ es) h =
      let (still, same) = ended_step e p h in
      let (place, published) = ended_stays (fire c p.place e p) es still in
      (place, published ∙ same)

  stops_quiet : (place : Place) (p : Polling A) → (fire c place stops p).published ≡ p.published
  unfolding fire
  stops_quiet starting p = refl
  stops_quiet selecting p = refl
  stops_quiet ended p = refl

  done_quiet : (place : Place) (p : Polling A) → (fire c place done p).published ≡ p.published
  unfolding fire
  done_quiet starting p = refl
  done_quiet selecting p = ground arith
  done_quiet ended p = refl

  -- A poll publishes its message, unless the goroutine has returned.
  polls_loud :
      (place : Place) (r : Fetched A) (p : Polling A)
      → ((fire c place (polls r) p).published ≡ p.published ++ message_of c r ∷ [])
        ⊎ (place ≡ ended)
  unfolding fire
  polls_loud starting r p = inl refl
  polls_loud selecting r p = inl refl
  polls_loud ended r p = inr refl

  Published-quiet :
      (p p' q : Polling A) (e : PollEvent A) (es : List (PollEvent A))
      → results (e ∷ es) ≡ results es
      → p'.published ≡ p.published
      → Published p' es q
      → Published p (e ∷ es) q
  Published-quiet p p' q e es same_results same (kept, ignored, parts, published, why) =
      (kept, ignored, same_results ∙ parts, rw (← same) published, why)

  run-Published : (p : Polling A) (es : List (PollEvent A)) → Published p es (run c p es)
  unfolding run
  run-Published p [] = ([], [], refl, sym (append-nil p.published), inl refl)
  run-Published p (stops ∷ es) =
      Published-quiet p (fire c p.place stops p) (run c (fire c p.place stops p) es) stops es refl
        (stops_quiet p.place p) (run-Published (fire c p.place stops p) es)
  run-Published p (done ∷ es) =
      Published-quiet p (fire c p.place done p) (run c (fire c p.place done p) es) done es refl
        (done_quiet p.place p) (run-Published (fire c p.place done p) es)
  run-Published p (polls r ∷ es) = elim (polls_loud p.place r p) [
    | inl loud ↦
        let (kept, ignored, parts, published, why) =
          run-Published (fire c p.place (polls r) p) es in
        (
          r ∷ kept,
          ignored,
          ap (◌∷◌ r) parts,
          rw (published, loud)
              (append_assoc p.published (message_of c r ∷ []) (map (message_of c) kept)),
          why,
        )
    | inr over ↦
        let (still, same) = ended_stays p (polls r ∷ es) over in
        ([], r ∷ results es, refl, same ∙ sym (append-nil p.published), inr still)
  ]

  -- The goroutine publishes one message for each return of the polling function, in order, and
  -- ignores none before it has returned.
  pub run-publishes :
      (es : List (PollEvent A))
      → (kept : List (Fetched A)) × (ignored : List (Fetched A)) × (results es ≡ kept ++ ignored)
        × ((run c start es).published ≡ map (message_of c) kept)
        × ((ignored ≡ []) ⊎ ((run c start es).place ≡ ended))
  unfolding start
  run-publishes es = run-Published start es
