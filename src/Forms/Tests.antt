-- ===== src/Forms/Tests.antt =====
-- Runs of the dialogs, and instances of their theorems.
use mathlib.Core.List.{Perm}
use ollama_queue.Prelude.{
  ℕ, ◌+◌, ◌-◌, ◌≡◌, refl, true, false, none, some, List, [], ◌∷◌, ◌++◌, All, Pairs, Before, length,
  min, map,
}
use ollama_queue.Text.{Text, codes, trim, span_digits, to_lower, value_from}
use ollama_queue.Plan.Interval.{parse_interval}
use ollama_queue.Forms.ModelSelect
use ollama_queue.Forms.ModelSelect.Chosen
use ollama_queue.Forms.{nat, fraction, nan}
use ollama_queue.Forms.Submit as Submit
use ollama_queue.Forms.Submit.Sent as Sent
use ollama_queue.Forms.Recurring as Recurring
use ollama_queue.Forms.Recurring.Bodies.{IsComplete, run-Complete}
use ollama_queue.Forms.Suggest.{Window, IsWindow, windows_from, suggest_times, suggest_times-least}

abbrev defaults : Submit.Defaults
defaults = record { default_priority = some (nat 7); default_timeout = none }

abbrev listing : Submit.Fields
listing = record {
  command = codes " ls ";
  source = codes "cli";
  model = [];
  priority = nat 3;
  timeout = nat 60;
}

abbrev ready : Submit.Dialog
ready = record {
  fields = listing;
  error = none;
  busy = false;
  closing = 0;
  is_open = true;
  sent = [];
}

refused_timeout :
    Submit.validate (record listing { timeout = fraction 1 1 }) ≡ some Submit.timeout_invalid
unfolding Submit.validate trim
refused_timeout = refl

-- The first priority is replaced by the default when the settings come, also if it was chosen.
synced : (Submit.sync_settings defaults (record listing { priority = nat 5 })).priority ≡ nat 7
unfolding Submit.sync_settings
synced = refl

run-Valid_example :
    All Sent.IsValid
      (Submit.run defaults ready (
        Submit.submit
        ∷ Submit.edit (record listing { priority = nan })
        ∷ Submit.reply true
        ∷ Submit.submit
        ∷ [])).sent
run-Valid_example =
    Sent.run-Valid defaults
      (Submit.submit
        ∷ Submit.edit (record listing { priority = nan })
        ∷ Submit.reply true
        ∷ Submit.submit
        ∷ [])
      ready tt

abbrev hourly : Recurring.Fields
hourly = record Recurring.new_form { name = codes "scan"; command = codes "ls" }

abbrev filled : Recurring.Dialog
filled = record {
  is_open = true;
  submitting = false;
  error = none;
  show_advanced = false;
  schedule_mode = Recurring.by_interval;
  form = hourly;
  sent = [];
  load_maps = 1;
}

-- Less than half a second is accepted, as an interval of 0 seconds.
no_time :
    (Recurring.validate Recurring.by_interval (record hourly { interval = codes "0.4s" }) ≡ none)
    × (Recurring.interval_for Recurring.by_interval (record hourly { interval = codes "0.4s" })
        ≡ some 0)
unfolding Recurring.validate Recurring.interval_for parse_interval trim span_digits to_lower
    value_from
no_time = (refl, refl)

abbrev tries : List Recurring.Event
tries =
    Recurring.submit
    ∷ Recurring.reply (some [])
    ∷ Recurring.choose Recurring.by_cron
    ∷ Recurring.submit
    ∷ []

run-Complete_example : All IsComplete (Recurring.run filled tries).sent
run-Complete_example = run-Complete tries filled tt

abbrev loads : List ℕ
loads = 5 ∷ 1 ∷ 2 ∷ 0 ∷ 9 ∷ []

chosen_slots : map (λ w. w.slot) (suggest_times (some loads)) ≡ 2 ∷ 1 ∷ 0 ∷ []
unfolding suggest_times
chosen_slots = refl

suggest_times-least_example :
    let chosen = suggest_times (some loads) in
    let key : Window → ℕ = λ w. w.load in
    All (IsWindow loads) chosen
    × (length chosen ≡ min 3 (length loads - 1))
    × Pairs (Before key) chosen
    × ((others : List Window) × Perm (chosen ++ others) (windows_from 0 loads)
        × All (λ w. All (Before key w) others) chosen)
suggest_times-least_example = suggest_times-least loads

abbrev some_models : List Text
some_models = codes "llama3" ∷ codes "qwen3:8b" ∷ codes "Qwen3:32b" ∷ []

abbrev picking : List ModelSelect.SelectEvent
picking =
    ModelSelect.focus
    ∷ ModelSelect.type_in (codes "QWEN")
    ∷ ModelSelect.press ModelSelect.arrow_down
    ∷ ModelSelect.press ModelSelect.arrow_down
    ∷ ModelSelect.press ModelSelect.enter
    ∷ []

run_select-IsOffered_example :
    All Chosen.IsOffered
      (ModelSelect.run_select (ModelSelect.closed_select true false [] some_models) picking).chosen
run_select-IsOffered_example = Chosen.run_select-IsOffered true false [] some_models picking

asks_again_example :
    (ModelSelect.run_select
      (ModelSelect.closed_select true false [] [])
      (ModelSelect.focus ∷ Chosen.none_installed 3)).fetches
    ≡ 1 + 3
asks_again_example = Chosen.asks_again [] 3
