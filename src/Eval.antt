-- ===== src/Eval.antt =====
-- stores/eval.js: the live polling of an evaluation run, as the events of its page: calls of the
-- exported functions, ticks of the interval, and replies that arrive. Of a run and of its progress
-- only the members that the store reads are kept.
pub mod Panel
pub mod Late
pub mod Data
pub mod Trends
pub mod Trigger
mod Tests
use ollama_queue.Prelude.{
  ℕ, ◌+◌, String, Bool, true, false, not, ◌||◌, Option, none, some, List, [], ◌∷◌, ◌++◌, ◌==◌,
  if◌then◌else◌, filter, any, find, str_eq,
}

pub record Run : Type 0 where
  pub id : ℕ
  pub status : String

pub record Progress : Type 0 where
  pub run_id : ℕ
  pub status : String

pub record Page : Type 0 where
  pub runs : List Run  -- `evalRuns`
  pub active : Option Progress  -- `evalActiveRun`
  pub stored : Option Progress  -- the item `evalActiveRun` of the session storage
  pub poll : Option ℕ  -- `_evalPollId`
  pub live : List (ℕ × ℕ)  -- the running intervals and the run that each asks for
  pub next_interval : ℕ
  pub waiting : List ℕ  -- progress requests under way, by their run
  pub run_requests : ℕ  -- calls of `fetchEvalRuns` under way

-- `['complete', 'failed', 'cancelled'].includes(status)`
unfoldable pub is_over : String → Bool
is_over s = str_eq s "complete" || str_eq s "failed" || str_eq s "cancelled"

unfoldable pub is_active : Run → Bool
is_active r = str_eq r.status "generating" || str_eq r.status "judging"

-- `if (_evalPollId !== null) { clearInterval(_evalPollId); _evalPollId = null; }`
stop_from : Option ℕ → Page → Page
stop_from none p = p
stop_from (some t) p = record p { live = filter (λ e. not (e.0 == t)) p.live; poll = none }

unfoldable pub stop_eval_poll : Page → Page
unfolding stop_from
stop_eval_poll p = stop_from p.poll p

unfoldable pub set_interval : ℕ → Page → Page
set_interval run p = record p {
  live = (p.next_interval, run) ∷ p.live;
  poll = some p.next_interval;
  next_interval = p.next_interval + 1;
}

unfoldable pub start_eval_poll : ℕ → Page → Page
unfolding stop_eval_poll set_interval
start_eval_poll run p = set_interval run (stop_eval_poll p)

unfoldable pub fetch_eval_runs : Page → Page
fetch_eval_runs p = record p { run_requests = p.run_requests + 1 }

-- The callback of an interval: an interval that does not run cannot tick.
ask_progress : Option (ℕ × ℕ) → Page → Page
ask_progress none p = p
ask_progress (some e) p = record p { waiting = e.1 ∷ p.waiting }

unfoldable pub tick : ℕ → Page → Page
unfolding ask_progress
tick t p = ask_progress (find (λ e. e.0 == t) p.live) p

-- The reply to a progress request: `none` for a status that is not ok or an exception.
unfoldable pub show_progress : Option Progress → Page → Page
unfolding stop_eval_poll fetch_eval_runs
show_progress none p = p
show_progress (some d) p =
    let q : Page = record p { active = some d; stored = some d } in
    if is_over d.status then fetch_eval_runs (stop_eval_poll q) else q

-- `fetchEvalRuns` from its reply on: a run that was started elsewhere is polled.
detect : Option Run → Page → Page
unfolding start_eval_poll
detect none p = p
detect (some r) p = start_eval_poll r.id p

unfoldable pub adopt : Option ℕ → Option Progress → List Run → Page → Page
unfolding detect
adopt none none runs p = detect (find is_active runs) p
adopt (some t) _ runs p = p
adopt none (some d) runs p = p

unfoldable pub show_runs : Option (List Run) → Page → Page
unfolding adopt
show_runs none p = p
show_runs (some runs) p = adopt p.poll p.active runs (record p { runs = runs })

-- `cancelEvalRun` from its reply on; a refused one throws.
unfoldable pub cancelled : Bool → Page → Page
unfolding stop_eval_poll fetch_eval_runs
cancelled false p = p
cancelled true p = fetch_eval_runs (record (stop_eval_poll p) { active = none; stored = none })

-- The reply to the request at start-up for the run that the session storage names: `none` for a
-- status that is not ok. An exception changes nothing.
recheck_from : Bool → ℕ → Option Progress → Page → Page
unfolding start_eval_poll
recheck_from false run d p = p
recheck_from true run none p = record p { active = none; stored = none }
recheck_from true run (some d) p =
    if is_over d.status then record p { active = none; stored = none } else start_eval_poll run p

shows_run : ℕ → Option Progress → Bool
shows_run run none = false
shows_run run (some d) = d.run_id == run

unfoldable pub recheck : ℕ → Option Progress → Page → Page
unfolding recheck_from shows_run
recheck run d p = recheck_from (shows_run run p.active) run d p

-- What the trigger panel, with the status `pending`, and the row of a repeated run, with `queued`, do
-- when the service has started a run.
unfoldable pub show_started : ℕ → String → Page → Page
unfolding start_eval_poll
show_started run status p =
    let d : Progress = record { run_id = run; status = status } in
    start_eval_poll run (record p { active = some d; stored = some d })

pub data Event : Type 0 where
  run_started : ℕ → String → Event  -- a started run and the status that the page gives it
  poll_run : ℕ → Event  -- `startEvalPoll(run)` by the panel that resumes it
  stop_polling : Event
  tick_of : ℕ → Event
  progress_reply : ℕ → Option Progress → Event  -- for that run
  runs_reply : Option (List Run) → Event
  cancel_reply : Bool → Event
  startup_reply : ℕ → Option Progress → Event
  reload_runs : Event

-- One of the requests for the run is answered.
drop_one : ℕ → List ℕ → List ℕ
drop_one r [] = []
drop_one r (x ∷ xs) = let rest = drop_one r xs in if x == r then xs else x ∷ rest

answer_progress : Bool → ℕ → Option Progress → Page → Page
unfolding show_progress drop_one
answer_progress false run d p = p
answer_progress true run d p = show_progress d (record p { waiting = drop_one run p.waiting })

unfoldable pub step : Page → Event → Page
unfolding show_started start_eval_poll stop_eval_poll tick answer_progress show_runs cancelled
    recheck fetch_eval_runs
step p (run_started r status) = show_started r status p
step p (poll_run r) = start_eval_poll r p
step p stop_polling = stop_eval_poll p
step p (tick_of t) = tick t p
step p (progress_reply r d) = answer_progress (any (λ x. x == r) p.waiting) r d p
step p (runs_reply l) = show_runs l p
step p (cancel_reply ok) = cancelled ok p
step p (startup_reply r d) = recheck r d p
step p reload_runs = fetch_eval_runs p

unfoldable pub run : Page → List Event → Page
run p [] = p
run p (e ∷ es) = run (step p e) es

-- The page after a load, with what the session storage has.
abbrev pub opened : Option Progress → Page
opened d = record {
  runs = [];
  active = d;
  stored = d;
  poll = none;
  live = [];
  next_interval = 1;
  waiting = [];
  run_requests = 0;
}
