-- ===== src/Health/Requests.antt =====
-- The commands of stores/health.js that change something at the service: what they do when it
-- refuses, and what they reload when it accepts.
use ollama_queue.Prelude.{ℕ, ◌≡◌, refl, Option, none, some, List, [], ◌∷◌, ◌++◌, String}
use ollama_queue.Net.{
  Json, array, object, Items, Members, length_of, item_count, Answer, accepted, refused, Failure,
  http, Result, ok, failed, World, complaint, Body,
}
use ollama_queue.Health.{
  Request, get_backends, post_backend, delete_backend, put_weight, put_inference_mode, get_dlq,
  post_dlq_retry, post_dlq_retry_all, post_dlq_dismiss, delete_dlq, post_dlq_reschedule,
  get_deferred, post_defer, post_resume, get_intercept, post_intercept_enable,
  post_intercept_disable, get_consumers, post_include, post_ignore, post_revert, Signals, Do,
  add_backend, remove_backend, update_backend_weight, update_backend_inference_mode,
  retry_dlq_entry, retry_all_dlq, dismiss_dlq_entry, clear_dlq, reschedule_dlq_entry, defer_job,
  resume_deferred, enable_intercept, disable_intercept, include_consumer, ignore_consumer,
  revert_consumer, fetch_backends, fetch_dlq, fetch_deferred, fetch_intercept_status,
  fetch_consumers,
}

pub data Command : Type 0 where
  add_backend_c : Json → Json → Command
  remove_backend_c : Json → Command
  weight_c : Json → Json → Command
  mode_c : Json → Json → Command
  retry_c : Json → Command
  retry_all_c : Command
  dismiss_c : Json → Command
  clear_c : Command
  reschedule_c : Json → Command
  defer_c : Json → Json → Command
  resume_c : Json → Command
  enable_c : Command
  disable_c : Command
  include_c : Json → Members → Command
  ignore_c : Json → Command
  revert_c : Json → Command

-- Whether the command's promise is rejected, and with what.
abbrev thrown : {A : Type 0} → Result A → Option Failure
thrown (ok _) = none
thrown (failed e) = some e

abbrev without_value :
    {A : Type 0} → Do A → World Signals Request → World Signals Request × Option Failure
without_value m w = ((m w).0, thrown (m w).1)

unfoldable pub perform : Command → World Signals Request → World Signals Request × Option Failure
perform (add_backend_c url weight) = without_value (add_backend url weight)
perform (remove_backend_c url) = without_value (remove_backend url)
perform (weight_c url weight) = without_value (update_backend_weight url weight)
perform (mode_c url mode) = without_value (update_backend_inference_mode url mode)
perform (retry_c id) = without_value (retry_dlq_entry id)
perform retry_all_c = without_value retry_all_dlq
perform (dismiss_c id) = without_value (dismiss_dlq_entry id)
perform clear_c = without_value clear_dlq
perform (reschedule_c id) = without_value (reschedule_dlq_entry id)
perform (defer_c id reason) = without_value (defer_job id reason)
perform (resume_c id) = without_value (resume_deferred id)
perform enable_c = without_value enable_intercept
perform disable_c = without_value disable_intercept
perform (include_c id opts) = without_value (include_consumer id opts)
perform (ignore_c id) = without_value (ignore_consumer id)
perform (revert_c id) = without_value (revert_consumer id)

-- The request that changes something at the service.
abbrev pub request_of : Command → Request
request_of (add_backend_c url weight) = post_backend url weight
request_of (remove_backend_c url) = delete_backend url
request_of (weight_c url weight) = put_weight url weight
request_of (mode_c url mode) = put_inference_mode url mode
request_of (retry_c id) = post_dlq_retry id
request_of retry_all_c = post_dlq_retry_all
request_of (dismiss_c id) = post_dlq_dismiss id
request_of clear_c = delete_dlq
request_of (reschedule_c id) = post_dlq_reschedule id
request_of (defer_c id reason) = post_defer id reason
request_of (resume_c id) = post_resume id
request_of enable_c = post_intercept_enable
request_of disable_c = post_intercept_disable
request_of (include_c id opts) = post_include id opts
request_of (ignore_c id) = post_ignore id
request_of (revert_c id) = post_revert id

-- What the command is about.
pub data Topic : Type 0 where
  about_backends about_dlq about_deferred about_intercept about_consumers : Topic

abbrev pub topic : Command → Topic
topic (add_backend_c _ _) = about_backends
topic (remove_backend_c _) = about_backends
topic (weight_c _ _) = about_backends
topic (mode_c _ _) = about_backends
topic (retry_c _) = about_dlq
topic retry_all_c = about_dlq
topic (dismiss_c _) = about_dlq
topic clear_c = about_dlq
topic (reschedule_c _) = about_dlq
topic (defer_c _ _) = about_deferred
topic (resume_c _) = about_deferred
topic enable_c = about_intercept
topic disable_c = about_intercept
topic (include_c _ _) = about_consumers
topic (ignore_c _) = about_consumers
topic (revert_c _) = about_consumers

abbrev pub reload : Topic → Request
reload about_backends = get_backends
reload about_dlq = get_dlq
reload about_deferred = get_deferred
reload about_intercept = get_intercept
reload about_consumers = get_consumers

-- What the service gives for the topic: the status of the interception is an object, the others are
-- arrays.
abbrev pub given : Topic → Items → Members → Json
given about_backends js ms = array js
given about_dlq js ms = array js
given about_deferred js ms = array js
given about_intercept js ms = object ms
given about_consumers js ms = array js

-- The signals that show what the service gave for the topic.
abbrev pub shown : Topic → Items → Members → Signals → Signals
shown about_backends js ms s = record s { backends = array js; backends_error = none }
shown about_dlq js ms s = record s { dlq_entries = array js; dlq_count = some (item_count js) }
shown about_deferred js ms s = record s { deferred = array js }
shown about_intercept js ms s = record s { intercept = object ms }
shown about_consumers js ms s = record s { consumers = array js }

-- How a command reports that the service refused with the status `n`.
abbrev pub refusal : Command → ℕ → Body → Option Failure
refusal (retry_c _) n b = none
refusal retry_all_c n b = none
refusal (dismiss_c _) n b = none
refusal clear_c n b = none
refusal (reschedule_c _) n b = some (http n)
refusal (defer_c _ _) n b = some (http n)
refusal (resume_c _) n b = some (http n)
refusal (add_backend_c _ _) n b = some (complaint n b.json)
refusal (remove_backend_c _) n b = some (complaint n b.json)
refusal (weight_c _ _) n b = some (complaint n b.json)
refusal (mode_c _ _) n b = some (complaint n b.json)
refusal enable_c n b = some (complaint n b.json)
refusal disable_c n b = some (complaint n b.json)
refusal (include_c _ _) n b = some (complaint n b.json)
refusal (ignore_c _) n b = some (complaint n b.json)
refusal (revert_c _) n b = some (complaint n b.json)

-- A command that the service refuses sends that one request and leaves every signal as it was; the
-- commands on dead letters other than rescheduling report nothing, the others throw.
pub perform_refused :
    (c : Command) (s : Signals) (n : ℕ) (b : Body) (rest : List (Option Answer))
    (sent : List Request)
    → perform c (record { store = s; replies = some (refused n b) ∷ rest; sent = sent })
      ≡ (record { store = s; replies = rest; sent = sent ++ request_of c ∷ [] }, refusal c n b)
unfolding perform add_backend remove_backend update_backend_weight update_backend_inference_mode
    retry_dlq_entry retry_all_dlq dismiss_dlq_entry clear_dlq reschedule_dlq_entry defer_job
    resume_deferred enable_intercept disable_intercept include_consumer ignore_consumer
    revert_consumer fetch_backends fetch_dlq fetch_deferred fetch_intercept_status fetch_consumers
    length_of
perform_refused (add_backend_c url weight) s n b rest sent = refl
perform_refused (remove_backend_c url) s n b rest sent = refl
perform_refused (weight_c url weight) s n b rest sent = refl
perform_refused (mode_c url mode) s n b rest sent = refl
perform_refused (retry_c id) s n b rest sent = refl
perform_refused retry_all_c s n b rest sent = refl
perform_refused (dismiss_c id) s n b rest sent = refl
perform_refused clear_c s n b rest sent = refl
perform_refused (reschedule_c id) s n b rest sent = refl
perform_refused (defer_c id reason) s n b rest sent = refl
perform_refused (resume_c id) s n b rest sent = refl
perform_refused enable_c s n b rest sent = refl
perform_refused disable_c s n b rest sent = refl
perform_refused (include_c id opts) s n b rest sent = refl
perform_refused (ignore_c id) s n b rest sent = refl
perform_refused (revert_c id) s n b rest sent = refl

-- The signals and the requests after a command.
abbrev pub left : World Signals Request × Option Failure → Signals × List Request
left (w, _) = (w.store, w.sent)

-- A command that the service accepts reloads what it is about, once and after the change. When the
-- service answers that with what it gives for the topic, an object for the status of the
-- interception and an array otherwise, the signals then show it; no other signal changes.
pub perform_reloads :
    (c : Command) (s : Signals) (raw : String) (o : Option Json) (raw' : String) (js : Items)
    (ms : Members) (rest : List (Option Answer)) (sent : List Request)
    → left (
        perform c (record {
          store = s;
          replies =
              some (accepted (record { raw = raw; json = o }))
              ∷ some (accepted (record { raw = raw'; json = some (given (topic c) js ms) }))
              ∷ rest;
          sent = sent;
        }))
      ≡ (shown (topic c) js ms s, (sent ++ request_of c ∷ []) ++ reload (topic c) ∷ [])
unfolding perform add_backend remove_backend update_backend_weight update_backend_inference_mode
    retry_dlq_entry retry_all_dlq dismiss_dlq_entry clear_dlq reschedule_dlq_entry defer_job
    resume_deferred enable_intercept disable_intercept include_consumer ignore_consumer
    revert_consumer fetch_backends fetch_dlq fetch_deferred fetch_intercept_status fetch_consumers
    length_of
perform_reloads (add_backend_c url weight) s raw none raw' js ms rest sent = refl
perform_reloads (add_backend_c url weight) s raw (some j) raw' js ms rest sent = refl
perform_reloads (remove_backend_c url) s raw o raw' js ms rest sent = refl
perform_reloads (weight_c url weight) s raw o raw' js ms rest sent = refl
perform_reloads (mode_c url mode) s raw o raw' js ms rest sent = refl
perform_reloads (retry_c id) s raw o raw' js ms rest sent = refl
perform_reloads retry_all_c s raw o raw' js ms rest sent = refl
perform_reloads (dismiss_c id) s raw o raw' js ms rest sent = refl
perform_reloads clear_c s raw o raw' js ms rest sent = refl
perform_reloads (reschedule_c id) s raw none raw' js ms rest sent = refl
perform_reloads (reschedule_c id) s raw (some j) raw' js ms rest sent = refl
perform_reloads (defer_c id reason) s raw none raw' js ms rest sent = refl
perform_reloads (defer_c id reason) s raw (some j) raw' js ms rest sent = refl
perform_reloads (resume_c id) s raw none raw' js ms rest sent = refl
perform_reloads (resume_c id) s raw (some j) raw' js ms rest sent = refl
perform_reloads enable_c s raw o raw' js ms rest sent = refl
perform_reloads disable_c s raw o raw' js ms rest sent = refl
perform_reloads (include_c id opts) s raw none raw' js ms rest sent = refl
perform_reloads (include_c id opts) s raw (some j) raw' js ms rest sent = refl
perform_reloads (ignore_c id) s raw o raw' js ms rest sent = refl
perform_reloads (revert_c id) s raw o raw' js ms rest sent = refl
