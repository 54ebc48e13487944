-- ===== src/Pages/Tests.antt =====
-- Tests of the pages at concrete values, and witnesses.
use ollama_queue.Prelude.{
  ℕ, ◌≡◌, refl, true, false, not, Option, none, some, String, List, [], ◌∷◌, All, arith,
}
use ollama_queue.Text.{
  codes, trim, trim_start, trim_end, is_space, span_digits, is_digit, value_from,
}
use ollama_queue.Pages.Results.{
  Classification, Table, tp, tn, fp, fn, filter_by, page, table_step, run_table,
  handle_filter_change, load_page, answered, show_page,
}
use ollama_queue.Pages.Results.Complete.{answer as answered_first, read_on, reading_ends}
use ollama_queue.Pages.Restart.{
  SettingValue, numeric, PrefsEvent, blur, answer, daemon_now, run_prefs, opened_prefs, nought,
  prefs_step, at_control, handle_blur, blurred, to_number, setting_of, if_changed, same_value,
  amounts_equal, ask_save, observe_daemon,
}
use ollama_queue.Pages.Restart.Banner.{banner_stays_hidden}
use ollama_queue.Pages.Weights.{
  CardEvent, type_weight, save_weight, run_card, new_card, AddEvent, write_url, write_weight,
  submit, add_done, run_add, empty_form,
}
use ollama_queue.Pages.Weights.Bounds.{IsWeight, run_card-weights, IsAddition, run_add-sends}
use ollama_queue.Plan.Detail.{parse_int, signed, digits_or_nan, not_negative}
use ollama_queue.Atmosphere.{operational, degraded, critical}
use ollama_queue.Eval.{
  opened, run_started, show_started, run, step, start_eval_poll, stop_eval_poll, set_interval,
}
use ollama_queue.Pages.Shell.{
  Shell, eval, plan, models, Press, on_key_down, handle_navigate, set_current_tab, is_k, tab_of,
  show_tab, is_eval, Alarm, health, acknowledge, run_alarm, is_alarmed,
}
use ollama_queue.Pages.Shell.Leaves.{leave-live}
use ollama_queue.Pages.Shell.Incident.{incident_lasts}
use ollama_queue.Text.{text_eq}
use ollama_queue.Prelude.{◌≤◌, length}
use ollama_queue.Pages.Recent.{
  PastJob, tags_of_jobs, tags_from, note_tag, add_tag, bears, shown_items,
}
use ollama_queue.Pages.Recent.Tags.{offered_tag_shows}

abbrev pairs : List ℕ
pairs =
    1 ∷ 2 ∷ 3 ∷ 4 ∷ 5 ∷ 6 ∷ 7 ∷ 8 ∷ 9 ∷ 10 ∷ 11 ∷ 12 ∷ 13 ∷ 14 ∷ 15 ∷ 16 ∷ 17 ∷ 18 ∷ 19 ∷ 20 ∷ 21
    ∷ []

abbrev nothing_asked : Table ℕ
nothing_asked = record {
  results = 99 ∷ [];
  offset = 1;
  has_more = false;
  loading = false;
  error = none;
  active_filter = none;
  waiting = [];
}

-- The service has those pairs as true positives, and none but one of another kind.
abbrev pairs_of : Option Classification → List ℕ
pairs_of (some tp) = pairs
pairs_of (some tn) = 99 ∷ []
pairs_of (some fp) = []
pairs_of (some fn) = []
pairs_of none = 99 ∷ pairs

reading_ends_example :
    let s =
      read_on pairs_of 1
        (answered_first pairs_of (table_step nothing_asked (filter_by (some tp)))) in
    (s.results ≡ pairs) × (s.has_more ≡ false) × (s.loading ≡ false) × (s.active_filter ≡ some tp)
reading_ends_example = reading_ends pairs_of (some tp) nothing_asked 1 refl (omega arith)

-- Two filters in quick succession, whose answers come in the other order: the pairs of the first
-- stand under the second.
abbrev crossed : Table ℕ
crossed =
    run_table nothing_asked
      (filter_by (some tp) ∷ filter_by (some fn) ∷ page 1 (7 ∷ []) ∷ page 0 (8 ∷ 9 ∷ []) ∷ [])

crossed_answers : (crossed.results ≡ 8 ∷ 9 ∷ []) × (crossed.active_filter ≡ some fn)
unfolding run_table table_step handle_filter_change load_page answered show_page
crossed_answers = (refl, refl)

abbrev few_settings : List (String × SettingValue)
few_settings =
    ("max_concurrent_jobs", numeric (record { negative = false; digits = 2; places = 0 })) ∷ []

-- An emptied field of a number is saved as 0.
empty_saved :
    (run_prefs (opened_prefs few_settings none) (blur 19 [] ∷ [])).sent
    ≡ record { key = "max_concurrent_jobs"; value = numeric nought } ∷ []
unfolding run_prefs opened_prefs prefs_step at_control handle_blur blurred to_number setting_of
    if_changed same_value amounts_equal ask_save observe_daemon trim trim_start trim_end
empty_saved = refl

abbrev one_change : List PrefsEvent
one_change = blur 19 (codes "4") ∷ answer 0 true ∷ daemon_now (some "running") ∷ []

banner_stays_hidden_example :
    (run_prefs (opened_prefs few_settings (some "idle")) one_change).restart_required ≡ false
banner_stays_hidden_example = banner_stays_hidden few_settings (some "idle") one_change

abbrev weighing : List CardEvent
weighing = type_weight (codes "12") ∷ save_weight ∷ type_weight (codes "0.5") ∷ save_weight ∷ []

run_card-weights_example :
    All IsWeight (run_card (new_card (codes "http://a:11434") (codes "1")) weighing).weights
run_card-weights_example = run_card-weights (codes "http://a:11434") (codes "1") weighing

abbrev adding : List AddEvent
adding = write_url (codes " http://b ") ∷ write_weight (codes "0") ∷ submit ∷ submit ∷ add_done ∷ []

run_add-sends_example :
    All IsAddition (run_add empty_form adding).added × ((run_add empty_form adding).adding ≤ 1)
run_add-sends_example = run_add-sends adding

abbrev at_eval : Shell
at_eval = record {
  current_tab = eval;
  page = run (opened none) (run_started 7 "pending" ∷ []);
  palette_open = false;
  model_requests = 0;
  schedule_requests = 0;
}

abbrev press_2 : Press
press_2 = record { key = codes "2"; ctrl = false; alt = false; meta = false; in_field = false }

-- The key leads to the plan, and the polling goes on.
key_leaves :
    ((on_key_down press_2 at_eval).current_tab ≡ plan)
    × ((on_key_down press_2 at_eval).page.live ≡ (1, 7) ∷ [])
unfolding on_key_down is_k tab_of show_tab set_current_tab parse_int signed digits_or_nan
    not_negative run step show_started start_eval_poll stop_eval_poll set_interval trim_start
    is_space span_digits is_digit value_from
key_leaves = (refl, refl)

leave-live_example :
    ((handle_navigate models at_eval).page.live ≡ [])
    × ((set_current_tab models at_eval).page.live ≡ at_eval.page.live)
    × ((on_key_down press_2 at_eval).page.live ≡ at_eval.page.live)
leave-live_example =
    leave-live at_eval none (run_started 7 "pending" ∷ []) models press_2 refl
      (unfold is_eval in refl)

abbrev quiet_alarm : Alarm
quiet_alarm = record { health_mode = operational; timestamp = none; acked = false }

incident_lasts_example :
    let b =
      run_alarm quiet_alarm
        (health degraded 10 ∷ health critical 20 ∷ health critical 30 ∷ acknowledge ∷ []) in
    (b.timestamp ≡ some 20) × (is_alarmed b ≡ not true)
incident_lasts_example =
    incident_lasts quiet_alarm [] degraded 10 20 (health critical 30 ∷ acknowledge ∷ []) refl
      (refl, (tt, tt))

abbrev past : List PastJob
past =
    record { id = 1; tag = some (codes "aria") }
    ∷ record { id = 2; tag = none }
    ∷ record { id = 3; tag = some (codes "eval") }
    ∷ record { id = 4; tag = some (codes "aria") }
    ∷ []

offered_tag_shows_example :
    (1 ≤ length (shown_items (some (codes "eval")) past))
    × (length (shown_items (some (codes "eval")) past) ≤ 20)
    × All (λ j. bears (codes "eval") j ≡ true) (shown_items (some (codes "eval")) past)
offered_tag_shows_example =
    offered_tag_shows past 1 (codes "eval")
      (unfold tags_of_jobs tags_from note_tag add_tag text_eq in refl)
