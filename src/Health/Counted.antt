-- ===== src/Health/Counted.antt =====
-- The badge of dead letters against their list, over any commands and fetches.
use ollama_queue.Prelude.{◌≡◌, refl, true, Option, none, some, List, [], ◌∷◌, ◌⊎◌, inl, inr}
use ollama_queue.Net.{
  Json, null, bool, number, text, array, object, length_of, Answer, accepted, refused, Result, ok,
  failed, World, ◌>>=◌, ◌>>◌, return, assign, fetch, parsed, json_of, require, require_detail,
}
use ollama_queue.Net.Laws.{
  Keeps, >>=-Keeps, ask-Keeps, fetch-Keeps, json_of-Keeps, require-Keeps, require_detail-Keeps,
  load-Keeps,
}
use ollama_queue.Health.{
  Request, get_dlq, Signals, Do, fetch_backends, if_backends, keep_error, get_backends, fetch_dlq,
  if_entries, count_entries, require_body, start_scan, scan_consumers, post_scan,
  fetch_dlq_schedule_preview, fetch_model_performance, fetch_performance_curve,
  fetch_backend_metrics, test_backend, fetch_consumer_health, fetch_deferred,
  fetch_intercept_status, fetch_consumers, get_consumers, add_backend, remove_backend,
  update_backend_weight, update_backend_inference_mode, retry_dlq_entry, retry_all_dlq,
  dismiss_dlq_entry, clear_dlq, reschedule_dlq_entry, defer_job, resume_deferred, enable_intercept,
  disable_intercept, include_consumer, ignore_consumer, revert_consumer,
}
use ollama_queue.Health.Requests.{
  Command, perform, add_backend_c, remove_backend_c, weight_c, mode_c, retry_c, retry_all_c,
  dismiss_c, clear_c, reschedule_c, defer_c, resume_c, enable_c, disable_c, include_c, ignore_c,
  revert_c,
}

-- The badge shows the length of the list, unless the service gave `null` for the list.
abbrev pub IsCounted : Signals → Type 0
IsCounted s = (s.dlq_count ≡ length_of s.dlq_entries) ⊎ (s.dlq_entries ≡ null)

-- Everything that the module does to its signals.
pub data Event : Type 0 where
  command : Command → Event
  scan load_backends load_dlq load_preview load_deferred load_intercept load_consumers : Event
  load_model_performance load_performance_curve load_backend_metrics : Event
  test consumer_health : Json → Event

unfoldable pub step : Event → World Signals Request → World Signals Request
step (command c) w = (perform c w).0
step scan w = (scan_consumers w).0
step load_backends w = (fetch_backends w).0
step load_dlq w = (fetch_dlq w).0
step load_preview w = (fetch_dlq_schedule_preview w).0
step load_deferred w = (fetch_deferred w).0
step load_intercept w = (fetch_intercept_status w).0
step load_consumers w = (fetch_consumers w).0
step load_model_performance w = (fetch_model_performance w).0
step load_performance_curve w = (fetch_performance_curve w).0
step load_backend_metrics w = (fetch_backend_metrics w).0
step (test url) w = (test_backend url w).0
step (consumer_health id) w = (fetch_consumer_health id w).0

unfoldable pub run : World Signals Request → List Event → World Signals Request
run w [] = w
run w (e ∷ es) = run (step e w) es

abbrev Safe : {A : Type 0} → Do A → Type 0
Safe m = Keeps IsCounted m

if_entries-Safe : (a : Answer) → Safe (if_entries a)
unfolding if_entries count_entries
if_entries-Safe (accepted b) w p = entries-Safe b.json w p
  where
    entries-Safe :
        (o : Option Json)
        → Safe (parsed o >>= λ j. assign (λ s. record s { dlq_entries = j }) >> count_entries j)
    entries-Safe none w p = p
    entries-Safe (some null) w p = inr refl
    entries-Safe (some (array js)) w p = inl refl
    entries-Safe (some (bool _)) w p = inl refl
    entries-Safe (some (number _)) w p = inl refl
    entries-Safe (some (text _)) w p = inl refl
    entries-Safe (some (object _)) w p = inl refl
if_entries-Safe (refused n b) w p = p

fetch_dlq-Safe : Safe fetch_dlq
unfolding fetch_dlq
fetch_dlq-Safe w p =
    >>=-Keeps IsCounted (fetch get_dlq) if_entries (fetch-Keeps IsCounted get_dlq) if_entries-Safe w
      p

if_backends-Safe : (a : Answer) → Safe (if_backends a)
unfolding if_backends
if_backends-Safe (accepted b) w p =
    >>=-Keeps IsCounted (json_of b)
      (λ j. assign (λ s. record s { backends = j; backends_error = none }))
      (json_of-Keeps IsCounted b) (λ j v q. q) w p
if_backends-Safe (refused n b) w p = p

keep_error-Safe : (r : Result (Unit {0})) → Safe (keep_error r)
unfolding keep_error
keep_error-Safe (ok _) w p = p
keep_error-Safe (failed e) w p = p

fetch_backends-Safe : Safe fetch_backends
unfolding fetch_backends
fetch_backends-Safe w p =
    let m = fetch get_backends >>= if_backends in
    keep_error-Safe (m w).1 (m w).0 (
      >>=-Keeps IsCounted (fetch get_backends) if_backends (fetch-Keeps IsCounted get_backends)
        if_backends-Safe w p)

fetch_deferred-Safe : Safe fetch_deferred
unfolding fetch_deferred
fetch_deferred-Safe = load-Keeps IsCounted _ _ (λ j s p. p)

fetch_intercept_status-Safe : Safe fetch_intercept_status
unfolding fetch_intercept_status
fetch_intercept_status-Safe = load-Keeps IsCounted _ _ (λ j s p. p)

fetch_consumers-Safe : Safe fetch_consumers
unfolding fetch_consumers
fetch_consumers-Safe =
    >>=-Keeps IsCounted (fetch get_consumers >>= require >>= json_of)
      (λ j. assign (λ s. record s { consumers = j }))
      (ask-Keeps IsCounted get_consumers require json_of (require-Keeps IsCounted)
        (json_of-Keeps IsCounted))
      (λ j w p. p)

require_body-Safe : (a : Answer) → Safe (require_body a)
unfolding require_body
require_body-Safe (accepted b) w p = p
require_body-Safe (refused n b) w p = p

scan_consumers-Safe : Safe scan_consumers
unfolding scan_consumers start_scan
scan_consumers-Safe w p =
    ask-Keeps IsCounted post_scan require_body (λ j. assign (λ s. record s { consumers = j }))
      require_body-Safe (λ j v q. q) (record w { store = record w.store { scanning = true } }) p

-- A command: its request, the test of the reply, the reload, and perhaps the value.
command-Safe :
    {A : Type 0} (r : Request) (f : Answer → Do A) (m : Do (Unit {0}))
    → ((a : Answer) → Safe (f a))
    → Safe m
    → Safe (fetch r >>= f >>= λ _. m)
command-Safe r f m kf km = ask-Keeps IsCounted r f _ kf (λ _. km)

value_command-Safe :
    {A B : Type 0} (r : Request) (f : Answer → Do A) (m : Do (Unit {0})) (g : A → Do B)
    → ((a : Answer) → Safe (f a))
    → Safe m
    → ((a : A) → Safe (g a))
    → Safe (fetch r >>= f >>= λ a. m >> g a)
value_command-Safe r f m g kf km kg =
    ask-Keeps IsCounted r f _ kf (λ a. >>=-Keeps IsCounted m _ km (λ _. kg a))

perform-IsCounted :
    (c : Command) (w : World Signals Request) → IsCounted w.store → IsCounted (perform c w).0.store
unfolding perform add_backend remove_backend update_backend_weight update_backend_inference_mode
    retry_dlq_entry retry_all_dlq dismiss_dlq_entry clear_dlq reschedule_dlq_entry defer_job
    resume_deferred enable_intercept disable_intercept include_consumer ignore_consumer
    revert_consumer
perform-IsCounted (add_backend_c url weight) w p =
    value_command-Safe _ _ fetch_backends json_of (require_detail-Keeps IsCounted)
      fetch_backends-Safe (json_of-Keeps IsCounted) w p
perform-IsCounted (remove_backend_c url) w p =
    command-Safe _ _ _ (require_detail-Keeps IsCounted) fetch_backends-Safe w p
perform-IsCounted (weight_c url weight) w p =
    command-Safe _ _ _ (require_detail-Keeps IsCounted) fetch_backends-Safe w p
perform-IsCounted (mode_c url mode) w p =
    command-Safe _ _ _ (require_detail-Keeps IsCounted) fetch_backends-Safe w p
perform-IsCounted (retry_c id) w p = command-Safe _ _ _ (require-Keeps IsCounted) fetch_dlq-Safe w p
perform-IsCounted retry_all_c w p = command-Safe _ _ _ (require-Keeps IsCounted) fetch_dlq-Safe w p
perform-IsCounted (dismiss_c id) w p =
    command-Safe _ _ _ (require-Keeps IsCounted) fetch_dlq-Safe w p
perform-IsCounted clear_c w p = command-Safe _ _ _ (require-Keeps IsCounted) fetch_dlq-Safe w p
perform-IsCounted (reschedule_c id) w p =
    value_command-Safe _ _ fetch_dlq json_of (require-Keeps IsCounted) fetch_dlq-Safe
      (json_of-Keeps IsCounted) w p
perform-IsCounted (defer_c id reason) w p =
    value_command-Safe _ _ fetch_deferred json_of (require-Keeps IsCounted) fetch_deferred-Safe
      (json_of-Keeps IsCounted) w p
perform-IsCounted (resume_c id) w p =
    value_command-Safe _ _ fetch_deferred json_of (require-Keeps IsCounted) fetch_deferred-Safe
      (json_of-Keeps IsCounted) w p
perform-IsCounted enable_c w p =
    value_command-Safe _ _ fetch_intercept_status return require_body-Safe
      fetch_intercept_status-Safe (λ _ v q. q) w p
perform-IsCounted disable_c w p =
    command-Safe _ _ _ require_body-Safe fetch_intercept_status-Safe w p
perform-IsCounted (include_c id opts) w p =
    value_command-Safe _ _ fetch_consumers json_of (require_detail-Keeps IsCounted)
      fetch_consumers-Safe (json_of-Keeps IsCounted) w p
perform-IsCounted (ignore_c id) w p =
    command-Safe _ _ _ (require_detail-Keeps IsCounted) fetch_consumers-Safe w p
perform-IsCounted (revert_c id) w p =
    command-Safe _ _ _ (require_detail-Keeps IsCounted) fetch_consumers-Safe w p

step-IsCounted :
    (e : Event) (w : World Signals Request) → IsCounted w.store → IsCounted (step e w).store
unfolding step fetch_dlq_schedule_preview fetch_model_performance fetch_performance_curve
    fetch_backend_metrics test_backend fetch_consumer_health
step-IsCounted (command c) w p = perform-IsCounted c w p
step-IsCounted scan w p = scan_consumers-Safe w p
step-IsCounted load_backends w p = fetch_backends-Safe w p
step-IsCounted load_dlq w p = fetch_dlq-Safe w p
step-IsCounted load_preview w p = load-Keeps IsCounted _ _ (λ j s q. q) w p
step-IsCounted load_deferred w p = fetch_deferred-Safe w p
step-IsCounted load_intercept w p = fetch_intercept_status-Safe w p
step-IsCounted load_consumers w p = fetch_consumers-Safe w p
step-IsCounted load_model_performance w p = load-Keeps IsCounted _ _ (λ j s q. q) w p
step-IsCounted load_performance_curve w p = load-Keeps IsCounted _ _ (λ j s q. q) w p
step-IsCounted load_backend_metrics w p = load-Keeps IsCounted _ _ (λ j s q. q) w p
step-IsCounted (test url) w p =
    ask-Keeps IsCounted _ require_detail json_of (require_detail-Keeps IsCounted)
      (json_of-Keeps IsCounted) w p
step-IsCounted (consumer_health id) w p =
    ask-Keeps IsCounted _ require json_of (require-Keeps IsCounted) (json_of-Keeps IsCounted) w p

-- Whatever is asked of the module and whatever is replied, a badge of dead letters that shows the
-- length of their list still shows it afterwards, unless the service gave `null` as the list.
pub run-IsCounted :
    (es : List Event) (w : World Signals Request) → IsCounted w.store → IsCounted (run w es).store
unfolding run
run-IsCounted [] w p = p
run-IsCounted (e ∷ es) w p = run-IsCounted es (step e w) (step-IsCounted e w p)
