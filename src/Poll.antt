-- ===== src/Poll.antt =====
-- stores/index.js: the polling orchestrator, as the events of its browser: calls of `startPolling`
-- and `stopPolling`, the return of the tab, timers that expire, and replies that arrive.
-- Milliseconds are natural numbers. `D` is what `/api/status` sends, `Q` its queue.
pub mod Failures
pub mod Chains
mod Tests
use ollama_queue.Prelude.{
  ℕ, zero, suc, ◌+◌, ◌*◌, ◌%◌, Bool, true, false, Option, none, some, List, [], ◌∷◌, ◌==◌, leb, not,
  ◌&&◌, if◌then◌else◌, filter, min, any,
}

pub data Connection : Type 0 where
  ok disconnected : Connection

pub is_disconnected : Connection → Bool
is_disconnected ok = false
is_disconnected disconnected = true

pub record State (D Q : Type 0) : Type 0 where
  pub status : Option D
  pub queue : Q
  pub connection : Connection
  pub poll_interval : ℕ
  pub poll_timer : Option ℕ  -- `pollTimer`, which keeps a timer that has expired
  pub poll_delay : ℕ  -- the delay of that timer
  pub failures : ℕ
  pub poll_count : ℕ
  pub backoff_ms : ℕ
  pub has_handler : Bool  -- `_visibilityHandler`
  pub timers : List ℕ  -- the running timers that call `fetchStatus`
  pub next_timer : ℕ
  pub polls : ℕ  -- calls of `fetchStatus` that wait for their reply
  pub loads : ℕ  -- calls of `fetchAll` that wait for their replies
  pub restored : ℕ  -- how often `queue:connection-restored` was dispatched
  pub refreshes : ℕ  -- calls of `_fetchNonRealtime`

-- What `fetch('/api/status')` comes to: a JSON body with or without an array of jobs, a status
-- that is not ok, or an exception (a network error, or a body that `_safeJson` refuses).
pub data Reply (D Q : Type 0) : Type 0 where
  body : D → Option Q → Reply D Q
  not_ok : Reply D Q
  throws : Reply D Q

-- The replies of `fetchAll`: one of the requests throws, or the body of `/api/queue` does; or the
-- queue comes (if its reply was ok) and then, unless a later body throws, the value that
-- `settings.value.poll_interval_seconds` has (0 for none).
pub data Load (Q : Type 0) : Type 0 where
  load_throws : Load Q
  loaded : Option Q → Option ℕ → Load Q

pub data Event (D Q : Type 0) : Type 0 where
  start stop tab_shown : Event D Q
  expire : ℕ → Event D Q
  status_reply : Reply D Q → Event D Q
  load_reply : Load Q → Event D Q

module _ {D Q : Type 0} where
  -- `pollTimer = setTimeout(fetchStatus, delay)`
  unfoldable pub set_timer : ℕ → State D Q → State D Q
  set_timer delay s = record s {
    poll_delay = delay;
    poll_timer = some s.next_timer;
    timers = s.next_timer ∷ s.timers;
    next_timer = s.next_timer + 1;
  }

  -- `if (pollTimer) clearTimeout(pollTimer)`: to clear an expired timer does nothing.
  clear_from : Option ℕ → State D Q → State D Q
  clear_from none s = s
  clear_from (some t) s = record s { timers = filter (λ u. not (u == t)) s.timers }

  unfoldable pub clear_timer : State D Q → State D Q
  unfolding clear_from
  clear_timer s = clear_from s.poll_timer s

  unfoldable pub fetch_all : State D Q → State D Q
  fetch_all s = record s { polls = s.polls + 1; loads = s.loads + 1 }

  unfoldable pub start_polling : State D Q → State D Q
  unfolding set_timer fetch_all
  start_polling s = record (set_timer s.poll_interval (fetch_all s)) { has_handler = true }

  unfoldable pub stop_polling : State D Q → State D Q
  unfolding clear_timer
  stop_polling s = record (clear_timer s) { has_handler = false }

  -- The part of `fetchStatus` behind its `await`, up to the new timer.
  unfoldable pub settle : Reply D Q → State D Q → State D Q
  unfolding is_disconnected
  settle (body d q) s = record s {
    status = some d;
    queue = elim q [ none ↦ s.queue | some jobs ↦ jobs ];
    failures = 0;
    restored = if is_disconnected s.connection then s.restored + 1 else s.restored;
    connection = ok;
    backoff_ms = s.poll_interval;
    poll_count = s.poll_count + 1;
    refreshes = if (s.poll_count + 1) % 12 == 0 then s.refreshes + 1 else s.refreshes;
  }
  settle not_ok s = s
  settle throws s = record s {
    failures = s.failures + 1;
    connection = if leb 3 (s.failures + 1) then disconnected else s.connection;
    backoff_ms = min (s.backoff_ms * 2) 30000;
  }

  unfoldable pub finish_poll : Reply D Q → State D Q → State D Q
  unfolding settle set_timer
  finish_poll throws s = set_timer (settle throws s).backoff_ms (settle throws s)
  finish_poll (body d q) s = set_timer s.poll_interval (settle (body d q) s)
  finish_poll not_ok s = set_timer s.poll_interval (settle not_ok s)

  -- The end of `fetchAll`: `if (pi && pi * 1000 !== POLL_INTERVAL) …`.
  rearm : Option ℕ → State D Q → State D Q
  rearm none s = s
  rearm (some _) s = set_timer s.poll_interval (clear_timer s)

  unfoldable pub new_interval : ℕ → State D Q → State D Q
  unfolding rearm clear_timer set_timer
  new_interval pi s =
      if pi == 0
      then s
      else if pi * 1000 == s.poll_interval
      then s
      else rearm s.poll_timer (record s { poll_interval = pi * 1000 })

  with_interval : Option ℕ → State D Q → State D Q
  with_interval none s = s
  with_interval (some pi) s = new_interval pi s

  unfoldable pub finish_load : Load Q → State D Q → State D Q
  unfolding with_interval new_interval
  finish_load load_throws s = s
  finish_load (loaded q pi) s =
      with_interval pi (record s { queue = elim q [ none ↦ s.queue | some jobs ↦ jobs ] })

  has_timer : ℕ → State D Q → Bool
  has_timer t s = any (λ u. u == t) s.timers

  answer_poll : ℕ → Reply D Q → State D Q → State D Q
  answer_poll zero r s = s
  answer_poll (suc n) r s = finish_poll r (record s { polls = n })

  answer_load : ℕ → Load Q → State D Q → State D Q
  answer_load zero l s = s
  answer_load (suc n) l s = finish_load l (record s { loads = n })

  -- An event that the browser cannot deliver (a reply to no request, a timer that does not run,
  -- a tab event without handler) changes nothing.
  unfoldable pub step : State D Q → Event D Q → State D Q
  unfolding start_polling stop_polling fetch_all answer_poll finish_poll answer_load finish_load
      has_timer
  step s start = start_polling s
  step s stop = stop_polling s
  step s tab_shown = if s.has_handler then fetch_all s else s
  step s (expire t) =
      if has_timer t s
      then record s { timers = filter (λ u. not (u == t)) s.timers; polls = s.polls + 1 }
      else s
  step s (status_reply r) = answer_poll s.polls r s
  step s (load_reply l) = answer_load s.loads l s

  unfoldable pub run : State D Q → List (Event D Q) → State D Q
  run s [] = s
  run s (e ∷ es) = run (step s e) es

  abbrev pub init : Q → State D Q
  init q = record {
    status = none;
    queue = q;
    connection = ok;
    poll_interval = 5000;
    poll_timer = none;
    poll_delay = 0;
    failures = 0;
    poll_count = 0;
    backoff_ms = 5000;
    has_handler = false;
    timers = [];
    next_timer = 1;
    polls = 0;
    loads = 0;
    restored = 0;
    refreshes = 0;
  }
