-- ===== src/Views/Options.antt =====
-- components/eval/GeneralSettings.jsx: the form of the evaluation's settings, as the events of its
-- page. The hints and labels are left out.
pub mod Amounts
pub mod Fields
pub mod Valid
use ollama_queue.Prelude.{
  ℕ, zero, suc, ◌+◌, Bool, true, false, not, ◌&&◌, ◌||◌, Option, none, some, List, [], ◌∷◌, ◌++◌,
  map, any, filter, ◌==◌, if◌then◌else◌,
}
use ollama_queue.Text.{Text, codes, is_nil}
use ollama_queue.Feedback.{clear}
use ollama_queue.Views.Options.Fields.{
  Key, key_index, FieldDef, counted, proportion, field_defs, improvement_defs,
  bayesian_promote_defs, bayesian_field_defs, all_defs, is_valid, per_cluster, error_budget,
  f1_threshold, stability_window, min_improvement, auc_threshold, min_posterior_separation,
  prior_probability, pairs_per_principle,
}
use ollama_queue.Views.Options.Amounts.{Amount, read_int, read_float, at_least, at_most}

pub data FieldError : Type 0 where
  no_error not_a_number out_of_range : FieldError

abbrev pub has_error : FieldError → Bool
has_error no_error = false
has_error not_a_number = true
has_error out_of_range = true

pub record Payload : Type 0 where
  pub numbers : List (Key × Option Amount)
  pub auto_promote : Bool
  pub judge_mode : Text
  pub analysis_model : Text

pub record OptionsForm : Type 0 where
  pub values : Key → Option Amount
  pub auto_promote : Bool
  pub judge_mode : Text
  pub analysis_model : Text
  pub errors : Key → FieldError
  pub saving : Bool
  pub save_error : Option Text
  pub save_ok : Bool
  pub save_timer : Option ℕ
  pub live : List ℕ  -- the timers that run
  pub next_timer : ℕ
  pub sent : List Payload  -- what saveEvalSettings is called with
  pub waiting : ℕ  -- calls of it under way

-- `{ ...prev, [key]: value }`
unfoldable pub with_key : {A : Type 0} → Key → A → (Key → A) → Key → A
with_key k value f j = if key_index j == key_index k then value else f j

-- The value of a field at the start: of the stored setting, if there is one, or the default.
unfoldable pub initial_value : Option Text → FieldDef → Option Amount
initial_value none d = some d.default
initial_value (some t) d = d.parse t

unfoldable pub initial_values :
    (Key → Option Text) → List FieldDef → (Key → Option Amount) → Key → Option Amount
unfolding initial_value with_key
initial_values settings [] init = init
initial_values settings (d ∷ ds) init =
    initial_values settings ds (with_key d.key (initial_value (settings d.key) d) init)

unfoldable pub change_by : Option Amount → FieldDef → OptionsForm → OptionsForm
unfolding with_key is_valid
change_by none d f = record f { errors = with_key d.key not_a_number f.errors }
change_by (some a) d f = record f {
  values = with_key d.key (some a) f.values;
  errors = with_key d.key (if is_valid d (some a) then no_error else out_of_range) f.errors;
}

unfoldable pub handle_change : FieldDef → Text → OptionsForm → OptionsForm
unfolding change_by
handle_change d raw f = change_by (d.parse raw) d f

-- `newErrors`
unfoldable pub new_errors :
    (Key → Option Amount) → List FieldDef → (Key → FieldError) → Key → FieldError
unfolding is_valid with_key
new_errors values [] errors = errors
new_errors values (d ∷ ds) errors =
    new_errors values ds
      (if is_valid d (values d.key) then errors else with_key d.key out_of_range errors)

-- `anyError`
unfoldable pub any_error : (Key → Option Amount) → List FieldDef → Bool
unfolding is_valid
any_error values ds = any (λ d. not (is_valid d (values d.key))) ds

unfoldable pub payload_of : OptionsForm → Payload
payload_of f = record {
  numbers = map (λ d. (d.key, f.values d.key)) all_defs;
  auto_promote = f.auto_promote;
  judge_mode = f.judge_mode;
  analysis_model = f.analysis_model;
}

-- What `handleSave` does after its checks: it returns when there is an error.
unfoldable pub save_unless : Bool → OptionsForm → OptionsForm
unfolding payload_of
save_unless true f = f
save_unless false f = record f {
  saving = true;
  save_error = none;
  save_ok = false;
  sent = f.sent ++ payload_of f ∷ [];
  waiting = f.waiting + 1;
}

-- `handleSave` up to its `await`.
unfoldable pub handle_save : OptionsForm → OptionsForm
unfolding any_error new_errors save_unless
handle_save f =
    save_unless (any_error f.values all_defs)
      (record f { errors = new_errors f.values all_defs (λ k. no_error) })

-- The button: it is disabled while a save is under way and while a field shows an error.
unfoldable pub click_save : OptionsForm → OptionsForm
unfolding handle_save
click_save f =
    if f.saving || any (λ d. has_error (f.errors d.key)) all_defs then f else handle_save f

-- The call of saveEvalSettings returns, or throws with a message that may be empty.
unfoldable pub saved : ℕ → OptionsForm → OptionsForm
saved zero f = f
saved (suc n) f = record f {
  saving = false;
  save_ok = true;
  live = f.next_timer ∷ clear f.save_timer f.live;
  save_timer = some f.next_timer;
  next_timer = f.next_timer + 1;
  waiting = n;
}

unfoldable pub save_failed : Text → ℕ → OptionsForm → OptionsForm
save_failed m zero f = f
save_failed m (suc n) f = record f {
  saving = false;
  save_error = some (if is_nil m then codes "Save failed" else m);
  waiting = n;
}

unfoldable pub hide_saved : ℕ → OptionsForm → OptionsForm
hide_saved t f =
    if any (λ u. u == t) f.live
    then record f { save_ok = false; live = filter (λ u. not (u == t)) f.live }
    else f

pub data OptionsEvent : Type 0 where
  change : FieldDef → Text → OptionsEvent
  set_auto_promote : Bool → OptionsEvent
  set_judge_mode set_analysis_model : Text → OptionsEvent
  save save_done : OptionsEvent
  save_refused : Text → OptionsEvent
  timer_ends : ℕ → OptionsEvent
  leave_form : OptionsEvent

unfoldable pub options_step : OptionsForm → OptionsEvent → OptionsForm
unfolding handle_change click_save saved save_failed hide_saved
options_step f (change d raw) = handle_change d raw f
options_step f (set_auto_promote b) = record f { auto_promote = b }
options_step f (set_judge_mode t) = record f { judge_mode = t }
options_step f (set_analysis_model t) = record f { analysis_model = t }
options_step f save = click_save f
options_step f save_done = saved f.waiting f
options_step f (save_refused m) = save_failed m f.waiting f
options_step f (timer_ends t) = hide_saved t f
options_step f leave_form = record f { live = clear f.save_timer f.live }

unfoldable pub run_options : OptionsForm → List OptionsEvent → OptionsForm
unfolding options_step
run_options f [] = f
run_options f (e ∷ es) = run_options (options_step f e) es

-- The form for the settings of the store: those with a number, and the other three.
unfoldable pub opened_form :
    (Key → Option Text) → Option Bool → Option Text → Option Text → OptionsForm
unfolding initial_values
opened_form settings auto mode model = record {
  values = initial_values settings all_defs (λ k. none);
  auto_promote = elim auto [ none ↦ false | some b ↦ b ];
  judge_mode = elim mode [ none ↦ codes "bayesian" | some t ↦ t ];
  analysis_model = elim model [ none ↦ [] | some t ↦ t ];
  errors = λ k. no_error;
  saving = false;
  save_error = none;
  save_ok = false;
  save_timer = none;
  live = [];
  next_timer = 1;
  sent = [];
  waiting = 0;
}
