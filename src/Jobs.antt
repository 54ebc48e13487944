-- ===== src/Jobs.antt =====
-- stores/queue.js (but fetchQueueEtas, which is in Schedule), stores/models.js and
-- stores/settings.js: jobs that are submitted or run again, models that are pulled, and the daemon.
pub mod Again
mod Tests
use ollama_queue.Prelude.{String, Bool, true, false, Option, none, some, str_eq, if◌then◌else◌}
use ollama_queue.Net.{
  Json, null, number, text, array, object, Items, end, Members, done, member, member_of, truthy,
  Body, Answer, accepted, refused, Failure, null_member, http, said, Result, ok, failed, World,
  Action, ◌>>=◌, ◌>>◌, return, throw, assign, fetch, json_of, attempt, require, load,
}

pub data Request : Type 0 where
  post_submit : Json → Request  -- POST /queue/submit body
  get_job : Json → Request  -- GET /jobs/{jobId}
  post_job : Members → Request  -- POST /jobs body; a member that is `undefined` is left out
  get_status : Request  -- GET /status
  get_models : Request  -- GET /models
  get_catalog : Option String → Request  -- GET /models/catalog, with ?q={query}
  post_pull : Json → Request  -- POST /models/pull { model }
  delete_pull : Json → Request  -- DELETE /models/pull/{pullId}
  post_restart : Request  -- POST /daemon/restart

pub record Signals : Type 0 where
  pub status : Json
  pub queue : Json
  pub models : Json
  pub model_catalog : Json

abbrev pub Do : Type 0 → Type 0
Do A = Action Signals Request A

-- `v.k`, where `none` is `undefined`: only `null` throws.
unfoldable pub property : String → Json → Do (Option Json)
property k null = throw null_member
property k (object ms) = return (member_of k ms)
property k (Json.bool _) = return none
property k (number _) = return none
property k (text _) = return none
property k (array _) = return none

-- `throw new Error(text || …status…)`
unfoldable pub require_message : Answer → Do Body
require_message (accepted b) = return b
require_message (refused n b) = throw (if str_eq b.raw "" then http n else said (text b.raw))

unfoldable pub submit_job : Json → Do Json
unfolding require_message
submit_job body = fetch (post_submit body) >>= require_message >>= json_of

-- `v || d` and `v ?? d`
unfoldable pub or_default : Option Json → Json → Json
or_default none d = d
or_default (some v) d = v

unfoldable pub present : Option Json → Option Json
present none = none
present (some null) = none
present (some (Json.bool b)) = some (Json.bool b)
present (some (number n)) = some (number n)
present (some (text s)) = some (text s)
present (some (array js)) = some (array js)
present (some (object ms)) = some (object ms)

-- A member of `JSON.stringify({ … })`.
unfoldable pub with_member : String → Option Json → Members → Members
with_member k none ms = ms
with_member k (some v) ms = member k v ms

-- The body of the second request.
unfoldable pub copy_of :
    Option Json → Option Json → Option Json → Option Json → Option Json → Members
unfolding with_member or_default present truthy
copy_of source model prompt priority timeout =
    member "source" (or_default (truthy source) (text "retry")) (
      with_member "model" model (
        with_member "prompt" prompt (
          member "priority" (or_default (present priority) (number "5"))
            (member "timeout" (or_default (present timeout) (number "600")) done))))

unfoldable pub copy_job : Json → Do Members
unfolding property copy_of
copy_job job = do
  source ← property "source" job
  model ← property "model" job
  prompt ← property "prompt" job
  priority ← property "priority" job
  timeout ← property "timeout" job
  return (copy_of source model prompt priority timeout)

-- `throw new Error('Job not found')`, `throw new Error('Retry submit failed')`
unfoldable pub require_or : String → Answer → Do Body
require_or m (accepted b) = return b
require_or m (refused n b) = throw (said (text m))

unfoldable pub retry_job : Json → Do Json
unfolding require_or copy_job
retry_job id = do
  job ← fetch (get_job id) >>= require_or "Job not found" >>= json_of
  copy ← copy_job job
  fetch (post_job copy) >>= require_or "Retry submit failed" >>= json_of

-- `if (Array.isArray(data.queue)) queue.value = data.queue`
take_queue : Option Json → Do (Unit {0})
take_queue none = return tt
take_queue (some (array js)) = assign (λ s. record s { queue = array js })
take_queue (some null) = return tt
take_queue (some (Json.bool _)) = return tt
take_queue (some (number _)) = return tt
take_queue (some (text _)) = return tt
take_queue (some (object _)) = return tt

if_status : Answer → Do (Unit {0})
unfolding take_queue property
if_status (accepted b) = do
  d ← json_of b
  assign (λ s. record s { status = d })
  q ← property "queue" d
  take_queue q
if_status (refused n b) = return tt

unfoldable pub refresh_queue : Do (Unit {0})
unfolding if_status
refresh_queue = attempt (fetch get_status >>= if_status)

unfoldable pub fetch_models : Do (Unit {0})
fetch_models = load get_models (λ j s. record s { models = j })

-- The empty query has no `q`.
unfoldable pub fetch_model_catalog : String → Do (Unit {0})
fetch_model_catalog query =
    load (get_catalog (if str_eq query "" then none else some query))
      (λ j s. record s { model_catalog = j })

unfoldable pub start_model_pull : Json → Do (Option Json)
unfolding property
start_model_pull name = do j ← fetch (post_pull name) >>= require >>= json_of; property "pull_id" j

unfoldable pub cancel_model_pull : Json → Do (Unit {0})
cancel_model_pull id = do b ← fetch (delete_pull id) >>= require; return tt

unfoldable pub restart_daemon : Do Json
restart_daemon = fetch post_restart >>= require >>= json_of
