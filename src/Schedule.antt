-- ===== src/Schedule.antt =====
-- stores/schedule.js: the recurring jobs, their events, the load map, and the commands on them; and
-- fetchQueueEtas of stores/queue.js, with which every reload of the schedule ends.
pub mod Reload
use ollama_queue.Prelude.{String, Bool, Option, none, some, str_eq, if◌then◌else◌}
use ollama_queue.Net.{
  Json, null, bool, array, end, text, object, member, done, Answer, accepted, refused, Failure,
  http, said, Result, ok, failed, World, Action, ◌>>=◌, ◌>>◌, return, throw, assign, fetch, json_of,
  attempt, require, if_ok, load, Body,
}

pub data Request : Type 0 where
  get_schedule : Request  -- GET /schedule
  get_events : Request  -- GET /schedule/events?limit=20
  get_etas : Request  -- GET /queue/etas
  get_load_map : Request  -- GET /schedule/load-map
  get_suggestions : Json → Json → Request  -- GET /schedule/suggest?priority={p}&top_n={n}
  put_job : Json → Json → Request  -- PUT /schedule/{id} fields
  post_rebalance : Request  -- POST /schedule/rebalance
  post_run_now : Json → Request  -- POST /schedule/{id}/run-now
  post_batch_toggle : Json → Bool → Request  -- POST /schedule/batch-toggle { tag, enabled }
  post_batch_run : Json → Request  -- POST /schedule/batch-run { tag }
  get_runs : Json → Json → Request  -- GET /schedule/{id}/runs?limit={limit}
  delete_job : Json → Request  -- DELETE /schedule/{id}
  post_description : Json → Request  -- POST /schedule/{id}/generate-description
  post_job : Json → Request  -- POST /schedule body
  post_enable : String → Request  -- POST /schedule/jobs/{name}/enable

pub record Signals : Type 0 where
  pub schedule_jobs : Json
  pub schedule_events : Json
  pub load_map : Json
  pub queue_etas : Json

abbrev pub Do : Type 0 → Type 0
Do A = Action Signals Request A

abbrev pub empty : Signals
empty = record {
  schedule_jobs = array end;
  schedule_events = array end;
  load_map = null;
  queue_etas = array end;
}

unfoldable pub fetch_queue_etas : Do (Unit {0})
fetch_queue_etas = load get_etas (λ j s. record s { queue_etas = j })

-- `await Promise.all([…])` on the results of two requests that are both sent; where both fail the
-- error is that of one of them.
both : Result Answer → Result Answer → Do (Answer × Answer)
both (ok a) (ok b) = return (a, b)
both (failed e) _ = throw e
both (ok a) (failed e) = throw e

unfoldable pub fetch_both : Request → Request → Do (Answer × Answer)
unfolding both
fetch_both p q w = let x = fetch p w in let y = fetch q x.0 in both x.1 y.1 y.0

unfoldable pub fetch_schedule : Do (Unit {0})
unfolding fetch_both fetch_queue_etas
fetch_schedule = attempt (do
  answers ← fetch_both get_schedule get_events
  if_ok answers.0 (λ j s. record s { schedule_jobs = j })
  if_ok answers.1 (λ j s. record s { schedule_events = j })
  fetch_queue_etas)

unfoldable pub fetch_load_map : Do (Unit {0})
fetch_load_map = load get_load_map (λ j s. record s { load_map = j })

unfoldable pub fetch_suggest_time : Json → Json → Do Json
fetch_suggest_time priority top_n = fetch (get_suggestions priority top_n) >>= require >>= json_of

unfoldable pub update_schedule_job : Json → Json → Do (Unit {0})
unfolding fetch_schedule
update_schedule_job id fields = do b ← fetch (put_job id fields) >>= require; fetch_schedule

-- `{ enabled }` and `{ model: modelName }`
abbrev pub one_field : String → Json → Json
one_field k j = object (member k j done)

unfoldable pub toggle_schedule_job : Json → Bool → Do (Unit {0})
unfolding update_schedule_job
toggle_schedule_job id enabled =
    attempt (update_schedule_job id (one_field "enabled" (bool enabled)))

unfoldable pub trigger_rebalance : Do (Unit {0})
unfolding fetch_schedule
trigger_rebalance = do b ← fetch post_rebalance >>= require; fetch_schedule

unfoldable pub run_schedule_job_now : Json → Do (Unit {0})
unfolding fetch_schedule
run_schedule_job_now id = do b ← fetch (post_run_now id) >>= require; fetch_schedule

unfoldable pub batch_toggle_jobs : Json → Bool → Do (Unit {0})
unfolding fetch_schedule
batch_toggle_jobs tag enabled = do
  b ← fetch (post_batch_toggle tag enabled) >>= require
  fetch_schedule

unfoldable pub batch_run_jobs : Json → Do (Unit {0})
unfolding fetch_schedule
batch_run_jobs tag = do b ← fetch (post_batch_run tag) >>= require; fetch_schedule

unfoldable pub fetch_job_runs : Json → Json → Do Json
fetch_job_runs id limit = fetch (get_runs id limit) >>= require >>= json_of

unfoldable pub delete_schedule_job : Json → Do (Unit {0})
unfolding fetch_schedule
delete_schedule_job id = do b ← fetch (delete_job id) >>= require; fetch_schedule

unfoldable pub generate_job_description : Json → Do Json
generate_job_description id = fetch (post_description id) >>= require >>= json_of

-- `throw new Error(text || …status…)`
unfoldable pub require_text : Answer → Do Body
require_text (accepted b) = return b
require_text (refused n b) = throw (if str_eq b.raw "" then http n else said (text b.raw))

unfoldable pub add_recurring_job : Json → Do Json
unfolding require_text
add_recurring_job body = fetch (post_job body) >>= require_text >>= json_of

unfoldable pub enable_job_by_name : String → Do (Unit {0})
unfolding fetch_schedule
enable_job_by_name name = do b ← fetch (post_enable name) >>= require; fetch_schedule

unfoldable pub assign_model_to_job : Json → Json → Do (Unit {0})
unfolding update_schedule_job
assign_model_to_job id model = update_schedule_job id (one_field "model" model)
