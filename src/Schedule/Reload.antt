-- ===== src/Schedule/Reload.antt =====
-- The commands of stores/schedule.js, and the three requests that each of them ends with.
use ollama_queue.Prelude.{ℕ, String, Bool, ◌≡◌, refl, ap, Option, some, List, [], ◌∷◌, ◌++◌}
use ollama_queue.Net.{
  Json, bool, array, Items, Answer, accepted, refused, http, Result, ok, failed, Body,
}
use ollama_queue.Schedule.{
  Request, get_schedule, get_events, get_etas, put_job, post_rebalance, post_run_now,
  post_batch_toggle, post_batch_run, delete_job, post_enable, Signals, Do, fetch_both,
  fetch_queue_etas, fetch_schedule, update_schedule_job, one_field, toggle_schedule_job,
  trigger_rebalance, run_schedule_job_now, batch_toggle_jobs, batch_run_jobs, delete_schedule_job,
  enable_job_by_name, assign_model_to_job, both,
}

pub data Command : Type 0 where
  update_c assign_c : Json → Json → Command
  toggle_c batch_toggle_c : Json → Bool → Command
  rebalance_c : Command
  run_now_c batch_run_c delete_c : Json → Command
  enable_c : String → Command

unfoldable pub perform : Command → Do (Unit {0})
perform (update_c id fields) = update_schedule_job id fields
perform (toggle_c id enabled) = toggle_schedule_job id enabled
perform (assign_c id model) = assign_model_to_job id model
perform rebalance_c = trigger_rebalance
perform (run_now_c id) = run_schedule_job_now id
perform (batch_toggle_c tag enabled) = batch_toggle_jobs tag enabled
perform (batch_run_c tag) = batch_run_jobs tag
perform (delete_c id) = delete_schedule_job id
perform (enable_c name) = enable_job_by_name name

-- The request that changes something at the service.
abbrev pub request_of : Command → Request
request_of (update_c id fields) = put_job id fields
request_of (toggle_c id enabled) = put_job id (one_field "enabled" (bool enabled))
request_of (assign_c id model) = put_job id (one_field "model" model)
request_of rebalance_c = post_rebalance
request_of (run_now_c id) = post_run_now id
request_of (batch_toggle_c tag enabled) = post_batch_toggle tag enabled
request_of (batch_run_c tag) = post_batch_run tag
request_of (delete_c id) = delete_job id
request_of (enable_c name) = post_enable name

-- A reply of the reload: items, or a status that is not ok.
pub data Part : Type 0 where
  given : String → Items → Part
  withheld : ℕ → Body → Part

abbrev pub answer : Part → Option Answer
answer (given raw js) = some (accepted (record { raw = raw; json = some (array js) }))
answer (withheld n b) = some (refused n b)

abbrev pub or_old : Part → Json → Json
or_old (given raw js) old = array js
or_old (withheld n b) old = old

-- Each of the three signals takes over what was given for it, and keeps its value otherwise.
abbrev pub taken : Part → Part → Part → Signals → Signals
taken jobs events etas s = record s {
  schedule_jobs = or_old jobs s.schedule_jobs;
  schedule_events = or_old events s.schedule_events;
  queue_etas = or_old etas s.queue_etas;
}

abbrev pub reloaded : List Request → List Request
reloaded sent = ((sent ++ get_schedule ∷ []) ++ get_events ∷ []) ++ get_etas ∷ []

fetch_schedule_lem :
    (jobs events etas : Part) (s : Signals) (rest : List (Option Answer)) (sent : List Request)
    → fetch_schedule (record {
      store = s;
      replies = answer jobs ∷ answer events ∷ answer etas ∷ rest;
      sent = sent;
    })
      ≡ (record { store = taken jobs events etas s; replies = rest; sent = reloaded sent }, ok tt)
unfolding fetch_schedule fetch_both both fetch_queue_etas
fetch_schedule_lem (given r0 js0) (given r1 js1) (given r2 js2) s rest sent = refl
fetch_schedule_lem (given r0 js0) (given r1 js1) (withheld n2 b2) s rest sent = refl
fetch_schedule_lem (given r0 js0) (withheld n1 b1) (given r2 js2) s rest sent = refl
fetch_schedule_lem (given r0 js0) (withheld n1 b1) (withheld n2 b2) s rest sent = refl
fetch_schedule_lem (withheld n0 b0) (given r1 js1) (given r2 js2) s rest sent = refl
fetch_schedule_lem (withheld n0 b0) (given r1 js1) (withheld n2 b2) s rest sent = refl
fetch_schedule_lem (withheld n0 b0) (withheld n1 b1) (given r2 js2) s rest sent = refl
fetch_schedule_lem (withheld n0 b0) (withheld n1 b1) (withheld n2 b2) s rest sent = refl

-- An accepted command sends its request and then asks for the jobs, the events and the estimates;
-- each of these signals takes over what is given for it even where the other two are withheld, and
-- the command reports success.
pub perform_schedule_reloads :
    (c : Command) (b : Body) (jobs events etas : Part) (s : Signals) (rest : List (Option Answer))
    (sent : List Request)
    → perform c (record {
      store = s;
      replies = some (accepted b) ∷ answer jobs ∷ answer events ∷ answer etas ∷ rest;
      sent = sent;
    })
      ≡ (
        record {
          store = taken jobs events etas s;
          replies = rest;
          sent = reloaded (sent ++ request_of c ∷ []);
        },
        ok tt,
      )
unfolding perform update_schedule_job toggle_schedule_job trigger_rebalance run_schedule_job_now
    batch_toggle_jobs batch_run_jobs delete_schedule_job enable_job_by_name assign_model_to_job
perform_schedule_reloads (update_c id fields) b jobs events etas s rest sent =
    fetch_schedule_lem jobs events etas s rest _
perform_schedule_reloads (toggle_c id enabled) b jobs events etas s rest sent =
    ap (λ r. (r.0, ok tt)) (fetch_schedule_lem jobs events etas s rest _)
perform_schedule_reloads (assign_c id model) b jobs events etas s rest sent =
    fetch_schedule_lem jobs events etas s rest _
perform_schedule_reloads rebalance_c b jobs events etas s rest sent =
    fetch_schedule_lem jobs events etas s rest _
perform_schedule_reloads (run_now_c id) b jobs events etas s rest sent =
    fetch_schedule_lem jobs events etas s rest _
perform_schedule_reloads (batch_toggle_c tag enabled) b jobs events etas s rest sent =
    fetch_schedule_lem jobs events etas s rest _
perform_schedule_reloads (batch_run_c tag) b jobs events etas s rest sent =
    fetch_schedule_lem jobs events etas s rest _
perform_schedule_reloads (delete_c id) b jobs events etas s rest sent =
    fetch_schedule_lem jobs events etas s rest _
perform_schedule_reloads (enable_c name) b jobs events etas s rest sent =
    fetch_schedule_lem jobs events etas s rest _

-- How a command reports that the service refused with the status `n`.
abbrev pub refusal : Command → ℕ → Result (Unit {0})
refusal (toggle_c _ _) n = ok tt
refusal (update_c _ _) n = failed (http n)
refusal (assign_c _ _) n = failed (http n)
refusal rebalance_c n = failed (http n)
refusal (run_now_c _) n = failed (http n)
refusal (batch_toggle_c _ _) n = failed (http n)
refusal (batch_run_c _) n = failed (http n)
refusal (delete_c _) n = failed (http n)
refusal (enable_c _) n = failed (http n)

-- A refused command asks for nothing more and leaves every signal; the switch of a job keeps it to
-- itself, the other commands throw the status.
pub perform_schedule_refused :
    (c : Command) (s : Signals) (n : ℕ) (b : Body) (rest : List (Option Answer))
    (sent : List Request)
    → perform c (record { store = s; replies = some (refused n b) ∷ rest; sent = sent })
      ≡ (record { store = s; replies = rest; sent = sent ++ request_of c ∷ [] }, refusal c n)
unfolding perform update_schedule_job toggle_schedule_job trigger_rebalance run_schedule_job_now
    batch_toggle_jobs batch_run_jobs delete_schedule_job enable_job_by_name assign_model_to_job
perform_schedule_refused (update_c id fields) s n b rest sent = refl
perform_schedule_refused (toggle_c id enabled) s n b rest sent = refl
perform_schedule_refused (assign_c id model) s n b rest sent = refl
perform_schedule_refused rebalance_c s n b rest sent = refl
perform_schedule_refused (run_now_c id) s n b rest sent = refl
perform_schedule_refused (batch_toggle_c tag enabled) s n b rest sent = refl
perform_schedule_refused (batch_run_c tag) s n b rest sent = refl
perform_schedule_refused (delete_c id) s n b rest sent = refl
perform_schedule_refused (enable_c name) s n b rest sent = refl
