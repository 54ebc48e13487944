-- ===== src/Pulls/Tests.antt =====
-- A download that is started, asked for and cancelled.
use ollama_queue.Prelude.{◌≡◌, refl, none, List, [], ◌∷◌}
use ollama_queue.Pulls.{Page, lookup_key, remove_key, put_key, pull_ids}
use ollama_queue.Pulls.Timers.{
  Event, click, begin, fire, progress, leave, step, run, AllFresh, IsTracked, leave_stops_all,
}

abbrev new_page : Page
new_page = record {
  active_pulls = [];
  pull_intervals = [];
  live = [];
  next_timer = 1;
  asked = [];
  pull_error = none;
  reloads = 0;
}

abbrev two : List Event
two = click ∷ begin 4 "m" 100 ∷ fire 1 ∷ begin 5 "n" 200 ∷ progress 4 "m" 100 "completed" ∷ []

asked_once : (run new_page two).asked ≡ 4 ∷ []
unfolding run step pull_ids put_key remove_key
asked_once = refl

new_page-IsTracked : IsTracked new_page
unfolding IsTracked
new_page-IsTracked = tt

two-AllFresh : AllFresh new_page two
unfolding step lookup_key put_key remove_key pull_ids
two-AllFresh = (tt, (refl, (tt, (refl, (tt, tt)))))

leave_stops_all_example : (step (run new_page two) leave).live ≡ []
leave_stops_all_example = leave_stops_all two new_page two-AllFresh new_page-IsTracked
