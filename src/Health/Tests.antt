-- ===== src/Health/Tests.antt =====
-- The commands on short scripts of replies.
use ollama_queue.Prelude.{◌≡◌, refl, true, Option, none, some, List, [], ◌∷◌}
use ollama_queue.Net.{
  bool, number, array, end, item, object, done, member, Members, Answer, accepted, Body, World,
  length_of, item_count,
}
use ollama_queue.Health.{
  Request, get_intercept, Signals, initial, fetch_dlq, if_entries, count_entries,
}
use ollama_queue.Health.Requests.{
  enable_c, perform, request_of, left, shown, about_intercept, perform_reloads,
}
use ollama_queue.Health.Counted.{load_dlq, run, step}

abbrev two : Body
two = record { raw = "[7,8]"; json = some (array (item (number "7") (item (number "8") end))) }

abbrev start_with : List (Option Answer) → World Signals Request
start_with l = record { store = initial; replies = l; sent = [] }

badge_after_load :
    (run (start_with (some (accepted two) ∷ [])) (load_dlq ∷ [])).store.dlq_count ≡ some 2
unfolding run step fetch_dlq if_entries count_entries length_of item_count
badge_after_load = refl

abbrev accepted_empty : Answer
accepted_empty = accepted (record { raw = ""; json = none })

-- The status of the interception, as the service gives it.
abbrev status_on : Members
status_on = member "enabled" (bool true) (member "rule_present" (bool true) done)

abbrev enabled_reply : Answer
enabled_reply = accepted (record { raw = "{}"; json = some (object status_on) })

perform_reloads_example :
    left (perform enable_c (start_with (some accepted_empty ∷ some enabled_reply ∷ [])))
    ≡ (shown about_intercept end status_on initial, request_of enable_c ∷ get_intercept ∷ [])
perform_reloads_example = perform_reloads enable_c initial "" none "{}" end status_on [] []
