-- ===== src/Health.antt =====
-- stores/health.js: backends, dead letters, deferred jobs, metrics and consumers. A request is
-- written as a constructor with what goes into its path and its body; its route stands beside it.
pub mod Requests
pub mod Counted
pub mod Stale
mod Tests
use ollama_queue.Prelude.{ℕ, String, Bool, true, false, Option, none, some}
use ollama_queue.Net.{
  Json, null, bool, number, array, end, object, done, member, text, Members, length_of, Answer,
  accepted, refused, Failure, null_member, http, Result, ok, failed, World, Action, ◌>>=◌, ◌>>◌,
  return, throw, assign, fetch, json_of, attempt, require, require_detail, load, complaint, Body,
}

pub data Request : Type 0 where
  get_backends : Request  -- GET /backends
  post_backend : Json → Json → Request  -- POST /backends { url, weight }
  delete_backend : Json → Request  -- DELETE /backends/{url}
  put_weight : Json → Json → Request  -- PUT /backends/{url}/weight?weight={weight}
  put_inference_mode : Json → Json → Request  -- PUT /backends/{url}/inference-mode?mode={mode}
  get_test : Json → Request  -- GET /backends/{url}/test
  get_dlq : Request  -- GET /dlq
  post_dlq_retry : Json → Request  -- POST /dlq/{id}/retry
  post_dlq_retry_all : Request  -- POST /dlq/retry-all
  post_dlq_dismiss : Json → Request  -- POST /dlq/{id}/dismiss
  delete_dlq : Request  -- DELETE /dlq
  get_dlq_preview : Request  -- GET /dlq/schedule-preview
  post_dlq_reschedule : Json → Request  -- POST /dlq/{id}/reschedule
  get_deferred : Request  -- GET /deferred
  post_defer : Json → Json → Request  -- POST /jobs/{jobId}/defer { reason }
  post_resume : Json → Request  -- POST /deferred/{deferralId}/resume
  get_model_metrics : Request  -- GET /metrics/models
  get_performance_curve : Request  -- GET /metrics/performance-curve
  get_backend_metrics : Request  -- GET /metrics/backends
  get_intercept : Request  -- GET /consumers/intercept/status
  post_intercept_enable : Request  -- POST /consumers/intercept/enable
  post_intercept_disable : Request  -- POST /consumers/intercept/disable
  get_consumers : Request  -- GET /consumers
  post_scan : Request  -- POST /consumers/scan
  post_include : Json → Members → Request  -- POST /consumers/{id}/include { restart_policy, … }
  post_ignore : Json → Request  -- POST /consumers/{id}/ignore
  post_revert : Json → Request  -- POST /consumers/{id}/revert
  get_consumer_health : Json → Request  -- GET /consumers/{id}/health

-- The signals. `backends_error` holds the message of a failure, `dlq_count` may be `undefined`.
pub record Signals : Type 0 where
  pub backends : Json
  pub backends_error : Option Failure
  pub dlq_entries : Json
  pub dlq_count : Option ℕ
  pub dlq_preview : Json
  pub deferred : Json
  pub model_performance : Json
  pub performance_curve : Json
  pub backend_metrics : Json
  pub intercept : Json
  pub consumers : Json
  pub scanning : Bool

abbrev pub Do : Type 0 → Type 0
Do A = Action Signals Request A

abbrev none_found : Json
none_found = array end

abbrev pub initial : Signals
initial = record {
  backends = none_found;
  backends_error = none;
  dlq_entries = none_found;
  dlq_count = some 0;
  dlq_preview = object (member "entries" none_found (member "count" (number "0") done));
  deferred = none_found;
  model_performance = object done;
  performance_curve = null;
  backend_metrics = none_found;
  intercept = object (member "enabled" (bool false) (member "rule_present" (bool false) done));
  consumers = none_found;
  scanning = false;
}

-- The reply of `fetchBackends`, and its `catch`, which keeps the message.
if_backends : Answer → Do (Unit {0})
if_backends (accepted b) = do
  j ← json_of b
  assign (λ s. record s { backends = j; backends_error = none })
if_backends (refused n b) = assign (λ s. record s { backends_error = some (http n) })

keep_error : Result (Unit {0}) → Do (Unit {0})
keep_error (ok _) = return tt
keep_error (failed e) = assign (λ s. record s { backends_error = some e })

unfoldable pub fetch_backends : Do (Unit {0})
unfolding if_backends keep_error
fetch_backends w = let m = fetch get_backends >>= if_backends in keep_error (m w).1 (m w).0

unfoldable pub add_backend : Json → Json → Do Json
unfolding fetch_backends
add_backend url weight = do
  b ← fetch (post_backend url weight) >>= require_detail
  fetch_backends
  json_of b

unfoldable pub remove_backend : Json → Do (Unit {0})
unfolding fetch_backends
remove_backend url = do b ← fetch (delete_backend url) >>= require_detail; fetch_backends

unfoldable pub update_backend_weight : Json → Json → Do (Unit {0})
unfolding fetch_backends
update_backend_weight url weight = do
  b ← fetch (put_weight url weight) >>= require_detail
  fetch_backends

unfoldable pub update_backend_inference_mode : Json → Json → Do (Unit {0})
unfolding fetch_backends
update_backend_inference_mode url mode = do
  b ← fetch (put_inference_mode url mode) >>= require_detail
  fetch_backends

unfoldable pub test_backend : Json → Do Json
test_backend url = do b ← fetch (get_test url) >>= require_detail; json_of b

-- `dlqEntries` is assigned before the length is read, which throws for `null`.
count_entries : Json → Do (Unit {0})
count_entries null = throw null_member
count_entries j = assign (λ s. record s { dlq_count = length_of j })

if_entries : Answer → Do (Unit {0})
unfolding count_entries
if_entries (accepted b) = do
  j ← json_of b
  assign (λ s. record s { dlq_entries = j })
  count_entries j
if_entries (refused n b) = return tt

unfoldable pub fetch_dlq : Do (Unit {0})
unfolding if_entries count_entries
fetch_dlq = attempt (fetch get_dlq >>= if_entries)

unfoldable pub retry_dlq_entry : Json → Do (Unit {0})
unfolding fetch_dlq
retry_dlq_entry id = attempt (do b ← fetch (post_dlq_retry id) >>= require; fetch_dlq)

unfoldable pub retry_all_dlq : Do (Unit {0})
unfolding fetch_dlq
retry_all_dlq = attempt (do b ← fetch post_dlq_retry_all >>= require; fetch_dlq)

unfoldable pub dismiss_dlq_entry : Json → Do (Unit {0})
unfolding fetch_dlq
dismiss_dlq_entry id = attempt (do b ← fetch (post_dlq_dismiss id) >>= require; fetch_dlq)

unfoldable pub clear_dlq : Do (Unit {0})
unfolding fetch_dlq
clear_dlq = attempt (do b ← fetch delete_dlq >>= require; fetch_dlq)

unfoldable pub fetch_deferred : Do (Unit {0})
fetch_deferred = load get_deferred (λ j s. record s { deferred = j })

unfoldable pub fetch_model_performance : Do (Unit {0})
fetch_model_performance = load get_model_metrics (λ j s. record s { model_performance = j })

unfoldable pub fetch_performance_curve : Do (Unit {0})
fetch_performance_curve = load get_performance_curve (λ j s. record s { performance_curve = j })

unfoldable pub fetch_backend_metrics : Do (Unit {0})
fetch_backend_metrics = load get_backend_metrics (λ j s. record s { backend_metrics = j })

unfoldable pub fetch_dlq_schedule_preview : Do (Unit {0})
fetch_dlq_schedule_preview = load get_dlq_preview (λ j s. record s { dlq_preview = j })

unfoldable pub reschedule_dlq_entry : Json → Do Json
unfolding fetch_dlq
reschedule_dlq_entry id = do b ← fetch (post_dlq_reschedule id) >>= require; fetch_dlq; json_of b

unfoldable pub defer_job : Json → Json → Do Json
unfolding fetch_deferred
defer_job id reason = do b ← fetch (post_defer id reason) >>= require; fetch_deferred; json_of b

unfoldable pub resume_deferred : Json → Do Json
unfolding fetch_deferred
resume_deferred id = do b ← fetch (post_resume id) >>= require; fetch_deferred; json_of b

-- `await res.json().catch(() => ({}))`, and the two ways on.
unfoldable pub json_or_empty : Option Json → Json
json_or_empty none = object done
json_or_empty (some j) = j

-- An accepted `null` has no member that is read.
require_body : Answer → Do Json
unfolding json_or_empty
require_body (accepted b) = return (json_or_empty b.json)
require_body (refused n b) = throw (complaint n b.json)

unfoldable pub fetch_intercept_status : Do (Unit {0})
fetch_intercept_status = load get_intercept (λ j s. record s { intercept = j })

unfoldable pub enable_intercept : Do Json
unfolding require_body fetch_intercept_status
enable_intercept = do
  body ← fetch post_intercept_enable >>= require_body
  fetch_intercept_status
  return body

unfoldable pub disable_intercept : Do (Unit {0})
unfolding require_body fetch_intercept_status
disable_intercept = do body ← fetch post_intercept_disable >>= require_body; fetch_intercept_status

unfoldable pub fetch_consumers : Do (Unit {0})
fetch_consumers = do
  j ← fetch get_consumers >>= require >>= json_of
  assign (λ s. record s { consumers = j })

-- `try { … } finally { consumersScanning.value = false }`
start_scan : Do (Unit {0})
unfolding require_body
start_scan = do
  assign (λ s. record s { scanning = true })
  body ← fetch post_scan >>= require_body
  assign (λ s. record s { consumers = body })

unfoldable pub scan_consumers : Do (Unit {0})
unfolding start_scan require_body
scan_consumers w =
    let w' = (start_scan w).0 in
    (record w' { store = record w'.store { scanning = false } }, (start_scan w).1)

unfoldable pub include_consumer : Json → Members → Do Json
unfolding fetch_consumers
include_consumer id opts = do
  b ← fetch (post_include id opts) >>= require_detail
  fetch_consumers
  json_of b

unfoldable pub ignore_consumer : Json → Do (Unit {0})
unfolding fetch_consumers
ignore_consumer id = do b ← fetch (post_ignore id) >>= require_detail; fetch_consumers

unfoldable pub revert_consumer : Json → Do (Unit {0})
unfolding fetch_consumers
revert_consumer id = do b ← fetch (post_revert id) >>= require_detail; fetch_consumers

unfoldable pub fetch_consumer_health : Json → Do Json
fetch_consumer_health id = do b ← fetch (get_consumer_health id) >>= require; json_of b
