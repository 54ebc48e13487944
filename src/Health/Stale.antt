-- ===== src/Health/Stale.antt =====
-- Commands that are accepted but not seen: the reload fails. And the scan, which has no reload.
use ollama_queue.Prelude.{
  ℕ, ◌≡◌, refl, false, Option, none, some, List, [], ◌∷◌, ◌++◌, String, ◌⊎◌, inl, inr,
}
use ollama_queue.Net.{
  Json, length_of, Answer, accepted, refused, Failure, network, http, ok, failed, complaint, Body,
}
use ollama_queue.Health.{
  Request, Signals, add_backend, remove_backend, update_backend_weight,
  update_backend_inference_mode, retry_dlq_entry, retry_all_dlq, dismiss_dlq_entry, clear_dlq,
  reschedule_dlq_entry, defer_job, resume_deferred, enable_intercept, disable_intercept,
  scan_consumers, start_scan, require_body, json_or_empty, include_consumer, ignore_consumer,
  revert_consumer, fetch_backends, fetch_dlq, fetch_deferred, fetch_intercept_status,
  fetch_consumers,
}
use ollama_queue.Health.Requests.{
  Command, perform, add_backend_c, remove_backend_c, weight_c, mode_c, retry_c, retry_all_c,
  dismiss_c, clear_c, reschedule_c, defer_c, resume_c, enable_c, disable_c, include_c, ignore_c,
  revert_c, Topic, topic, reload, about_backends, about_dlq, about_deferred, about_intercept,
  about_consumers, left, request_of,
}

-- What the signals show when the reload for the topic is refused with the status `n`.
abbrev pub stale : Topic → ℕ → Signals → Signals
stale about_backends n s = record s { backends_error = some (http n) }
stale about_dlq n s = s
stale about_deferred n s = s
stale about_intercept n s = s
stale about_consumers n s = s

-- When a command is accepted but its reload is refused, the old list stays on the screen; of the
-- signals only the message of the backends tells it.
pub perform-stale :
    (c : Command) (s : Signals) (raw : String) (o : Option Json) (n : ℕ) (b : Body)
    (rest : List (Option Answer)) (sent : List Request)
    → left (
        perform c (record {
          store = s;
          replies = some (accepted (record { raw = raw; json = o })) ∷ some (refused n b) ∷ rest;
          sent = sent;
        }))
      ≡ (stale (topic c) n s, (sent ++ request_of c ∷ []) ++ reload (topic c) ∷ [])
unfolding perform add_backend remove_backend update_backend_weight update_backend_inference_mode
    retry_dlq_entry retry_all_dlq dismiss_dlq_entry clear_dlq reschedule_dlq_entry defer_job
    resume_deferred enable_intercept disable_intercept include_consumer ignore_consumer
    revert_consumer fetch_backends fetch_dlq fetch_deferred fetch_intercept_status fetch_consumers
    length_of
perform-stale (add_backend_c url weight) s raw none n b rest sent = refl
perform-stale (add_backend_c url weight) s raw (some j) n b rest sent = refl
perform-stale (remove_backend_c url) s raw o n b rest sent = refl
perform-stale (weight_c url weight) s raw o n b rest sent = refl
perform-stale (mode_c url mode) s raw o n b rest sent = refl
perform-stale (retry_c id) s raw o n b rest sent = refl
perform-stale retry_all_c s raw o n b rest sent = refl
perform-stale (dismiss_c id) s raw o n b rest sent = refl
perform-stale clear_c s raw o n b rest sent = refl
perform-stale (reschedule_c id) s raw none n b rest sent = refl
perform-stale (reschedule_c id) s raw (some j) n b rest sent = refl
perform-stale (defer_c id reason) s raw none n b rest sent = refl
perform-stale (defer_c id reason) s raw (some j) n b rest sent = refl
perform-stale (resume_c id) s raw none n b rest sent = refl
perform-stale (resume_c id) s raw (some j) n b rest sent = refl
perform-stale enable_c s raw o n b rest sent = refl
perform-stale disable_c s raw o n b rest sent = refl
perform-stale (include_c id opts) s raw o n b rest sent = refl
perform-stale (ignore_c id) s raw o n b rest sent = refl
perform-stale (revert_c id) s raw o n b rest sent = refl

-- The scan has either thrown and left the consumers as they were, or it shows what came back; in
-- both cases, and for every reply, the scanning flag is off and no other signal has changed.
pub scan_consumers_settles :
    (s : Signals) (replies : List (Option Answer)) (sent : List Request)
    → let after = scan_consumers (record { store = s; replies = replies; sent = sent }) in
      ((e : Failure) × (after.1 ≡ failed e) × (after.0.store ≡ record s { scanning = false }))
      ⊎ ((j : Json) × (after.1 ≡ ok tt)
          × (after.0.store ≡ record s { consumers = j; scanning = false }))
unfolding scan_consumers start_scan require_body json_or_empty
scan_consumers_settles s [] sent = inl (network, refl, refl)
scan_consumers_settles s (none ∷ rest) sent = inl (network, refl, refl)
scan_consumers_settles s (some (accepted b) ∷ rest) sent = inr (json_or_empty b.json, refl, refl)
scan_consumers_settles s (some (refused n b) ∷ rest) sent = inl (complaint n b.json, refl, refl)
