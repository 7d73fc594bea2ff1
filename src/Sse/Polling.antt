-- ===== src/Sse/Polling.antt =====
-- pkg/sse/polling.go: the goroutine that polls and publishes until it is cancelled.
pub mod Runs
use go_mod_edge_utils.Prelude.{
  ℕ, ◌+◌, ◌≡◌, refl, ◌∙◌, ap, inl, inr, String, Bool, true, false, ◌||◌, Option, none, some, List,
  [], ◌∷◌, ◌++◌, map, ◌==◌, string_eq, nat_eq, if◌then◌else◌, arith, append_assoc, append-nil,
  Bool-cases,
}
use go_mod_edge_utils.Errors.{GoError, nil, is_nil, as_error, code, error}

-- `PollingConfig` after the options; an absent condition or callback is `none` or false. Durations
-- are in nanoseconds.
pub record PollingConfig (A : Type 0) : Type 0 where
  pub interval : ℕ
  pub api_version : String
  pub stop_condition : Option (A → Bool)
  pub has_stop_callback : Bool

-- The defaults of `NewPolling`.
unfoldable pub new_polling : {A : Type 0} → PollingConfig A → PollingConfig A
new_polling c = record c {
  api_version = if c.api_version == "" then "v1" else c.api_version;
  interval = if c.interval == 0 then 5000000000 else c.interval;
}

-- `rest.BaseResponse`
pub record BaseResponse : Type 0 where
  pub api_version : String
  pub request_id : String
  pub message : String
  pub status_code : ℕ

-- `rest.NewBaseResponse`
unfoldable pub new_base_response : String → String → String → ℕ → BaseResponse
new_base_response version id text status = record {
  api_version = if version == "" then "v1" else version;
  request_id = id;
  message = text;
  status_code = status;
}

abbrev pub or_default : Option ℕ → ℕ → ℕ
or_default none d = d
or_default (some c) d = c

-- `getErrorResponse`: the code of the first error of pkg/errors in the chain, or 500.
unfoldable pub get_error_response : String → GoError → BaseResponse
unfolding new_base_response
get_error_response version err =
    new_base_response version "" (error err)
      (if is_nil (as_error err) then 500 else or_default (code (as_error err)) 500)

-- What a call of the polling function gives.
pub data Fetched (A : Type 0) : Type 0 where
  fetched : A → Fetched A
  failed : GoError → Fetched A

-- What is published for it.
pub data Message (A : Type 0) : Type 0 where
  payload : A → Message A
  failure : BaseResponse → Message A

-- Where `pollingAndPublish` stands: before the first poll, in its `select`, or returned.
pub data Place : Type 0 where
  starting selecting ended : Place

-- `cancelled` is the polling context; `callbacks` counts the calls of the stop callback.
pub record Polling (A : Type 0) : Type 0 where
  pub place : Place
  pub cancelled : Bool
  pub published : List (Message A)
  pub callbacks : ℕ

-- The polling function returns, at first and then after each tick; `Stop` cancels the context; the
-- `select` takes `ctx.Done()`.
pub data PollEvent (A : Type 0) : Type 0 where
  polls : Fetched A → PollEvent A
  stops done : PollEvent A

module _ {A : Type 0} where
  -- `Start`, up to the goroutine.
  unfoldable pub start : Polling A
  start = record { place = starting; cancelled = false; published = []; callbacks = 0 }

  unfoldable pub stop_condition_met : Option (A → Bool) → A → Bool
  stop_condition_met none x = false
  stop_condition_met (some f) x = f x

  -- What `doPollAndPublish` publishes.
  unfoldable pub message_of : PollingConfig A → Fetched A → Message A
  message_of c (fetched x) = payload x
  message_of c (failed err) = failure (get_error_response c.api_version err)

  -- Whether it cancels the context. An error never does.
  unfoldable pub cancels : PollingConfig A → Fetched A → Bool
  cancels c (fetched x) = stop_condition_met c.stop_condition x
  cancels c (failed err) = false

  -- `doPollAndPublish`
  unfoldable pub do_poll_and_publish : PollingConfig A → Fetched A → Polling A → Polling A
  do_poll_and_publish c r p = record p {
    published = p.published ++ message_of c r ∷ [];
    cancelled = p.cancelled || cancels c r;
  }

  -- The deferred call of the stop callback, if there is one.
  unfoldable pub finish : PollingConfig A → Polling A → Polling A
  finish c p = record p {
    place = ended;
    callbacks = if c.has_stop_callback then p.callbacks + 1 else p.callbacks;
  }

  -- Go's `select` may still take the ticker when the context is cancelled too.
  unfoldable pub fire : PollingConfig A → Place → PollEvent A → Polling A → Polling A
  unfolding do_poll_and_publish finish
  fire c starting (polls r) p = record (do_poll_and_publish c r p) { place = selecting }
  fire c selecting (polls r) p = do_poll_and_publish c r p
  fire c selecting done p = if p.cancelled then finish c p else p
  fire c place stops p = record p { cancelled = true }
  fire c place event p = p

  unfoldable pub run : PollingConfig A → Polling A → List (PollEvent A) → Polling A
  unfolding fire
  run c p [] = p
  run c p (e ∷ es) = run c (fire c p.place e p) es
