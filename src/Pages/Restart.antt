-- ===== src/Pages/Restart.antt =====
-- components/SettingsForm/index.jsx with its controls, and of pages/Settings.jsx what a saved setting
-- does: the signal `settings`, and the banner that asks for a restart of the daemon. The buttons of
-- the daemon and the display of the monitor's effect are left out.
pub mod Banner
use ollama_queue.Prelude.{
  ℕ, ◌+◌, ◌*◌, ◌^◌, String, Bool, true, false, not, ◌&&◌, ◌||◌, Option, none, some, List, [], ◌∷◌,
  ◌++◌, ◌==◌, any, filter, get_elem?, take_out, str_eq, if◌then◌else◌,
}
use ollama_queue.Text.{Text, is_nil, trim, text_eq}
use ollama_queue.Feedback.{clear}
use ollama_queue.Views.Options.Amounts.{Amount, read_float}

-- The value of a setting; a number is exact.
pub data SettingValue : Type 0 where
  flag : Bool → SettingValue
  numeric : Amount → SettingValue
  word : Text → SettingValue

pub record SaveRequest : Type 0 where
  pub key : String
  pub value : SettingValue

pub record Prefs : Type 0 where
  pub settings : List (String × SettingValue)
  pub daemon_state : Option String  -- as the page was last rendered
  pub prev_daemon_state : Option String
  pub restart_required : Bool
  pub flash_key : Option String
  pub flash_timer : Option ℕ
  pub live : List ℕ  -- the timers that run
  pub next_timer : ℕ
  pub sent : List SaveRequest
  pub saving : List SaveRequest  -- those under way

-- RESTART_REQUIRED_KEYS.has(key)
unfoldable pub needs_restart : String → Bool
needs_restart key =
    str_eq key "concurrency"
    || str_eq key "stall_threshold_seconds"
    || str_eq key "burst_detection_enabled"

-- The keys of the form's controls, from its top.
abbrev pub form_keys : List String
form_keys =
    "ram_pause_pct" ∷ "ram_resume_pct" ∷ "load_pause_multiplier" ∷ "load_resume_multiplier"
    ∷ "swap_pause_pct" ∷ "swap_resume_pct" ∷ "yield_to_interactive" ∷ "default_priority"
    ∷ "default_timeout_seconds" ∷ "poll_interval_seconds" ∷ "job_log_retention_days"
    ∷ "health_log_retention_days" ∷ "duration_stats_retention_days" ∷ "default_max_retries"
    ∷ "retry_backoff_base_seconds" ∷ "retry_backoff_multiplier" ∷ "stall_posterior_threshold"
    ∷ "stall_action" ∷ "stall_kill_grace_seconds" ∷ "max_concurrent_jobs"
    ∷ "concurrent_shadow_hours" ∷ "vram_safety_factor" ∷ "cb_failure_threshold" ∷ "cb_base_cooldown"
    ∷ "cb_max_cooldown" ∷ "max_queue_depth" ∷ "min_model_vram_mb" ∷ "cpu_offload_efficiency"
    ∷ "sjf_aging_factor" ∷ "aoi_weight" ∷ "preemption_enabled" ∷ "preemption_window_seconds"
    ∷ "max_preemptions_per_job" ∷ "entropy_alert_window" ∷ "entropy_alert_sigma"
    ∷ "entropy_suspend_low_priority" ∷ "dlq.auto_reschedule" ∷ "dlq.sweep_fallback_minutes"
    ∷ "dlq.chronic_failure_threshold" ∷ "defer.enabled" ∷ "defer.burst_priority_threshold"
    ∷ "defer.thermal_threshold_c" ∷ "defer.resource_wait_timeout_s" ∷ []

unfoldable pub setting_of : String → List (String × SettingValue) → Option SettingValue
setting_of key [] = none
setting_of key (s ∷ rest) =
    let found = setting_of key rest in if str_eq s.0 key then some s.1 else found

-- `{ ...settings.value, [key]: value }`
unfoldable pub with_setting :
    String → SettingValue → List (String × SettingValue) → List (String × SettingValue)
with_setting key value [] = (key, value) ∷ []
with_setting key value (s ∷ rest) =
    let others = with_setting key value rest in
    if str_eq s.0 key then (key, value) ∷ rest else s ∷ others

-- `a === b` of numbers.
unfoldable pub amounts_equal : Amount → Amount → Bool
amounts_equal a b =
    (a.digits == 0 && b.digits == 0)
    || (a.digits * 10 ^ b.places == b.digits * 10 ^ a.places
        && ((a.negative && b.negative) || (not a.negative && not b.negative)))

unfoldable pub same_value : SettingValue → Option SettingValue → Bool
unfolding amounts_equal
same_value v none = false
same_value (flag a) (some (flag b)) = (a && b) || (not a && not b)
same_value (numeric a) (some (numeric b)) = amounts_equal a b
same_value (word a) (some (word b)) = text_eq a b
same_value (flag a) (some (numeric b)) = false
same_value (flag a) (some (word b)) = false
same_value (numeric a) (some (flag b)) = false
same_value (numeric a) (some (word b)) = false
same_value (word a) (some (flag b)) = false
same_value (word a) (some (numeric b)) = false

abbrev pub nought : Amount
nought = record { negative = false; digits = 0; places = 0 }

-- `Number(raw)` of what a number input gives: nothing, or a text of a number.
unfoldable pub to_number : Text → Option Amount
to_number raw = if is_nil (trim raw) then some nought else read_float raw

-- The value that `handleBlur` reads: `none` where it returns.
unfoldable pub blurred : Option SettingValue → Text → Option SettingValue
unfolding to_number
blurred (some (flag b)) raw = some (flag (not (is_nil raw)))
blurred (some (numeric a)) raw = elim (to_number raw) [ none ↦ none | some b ↦ some (numeric b) ]
blurred (some (word t)) raw = some (word raw)
blurred none raw = some (word raw)

-- `onSave(key, value)` up to its `await`.
unfoldable pub ask_save : String → SettingValue → Prefs → Prefs
ask_save key value p =
    let r : SaveRequest = record { key = key; value = value } in
    record p { sent = p.sent ++ r ∷ []; saving = p.saving ++ r ∷ [] }

unfoldable pub if_changed : String → Option SettingValue → Prefs → Prefs
unfolding ask_save same_value setting_of
if_changed key none p = p
if_changed key (some v) p = if same_value v (setting_of key p.settings) then p else ask_save key v p

unfoldable pub handle_blur : String → Text → Prefs → Prefs
unfolding if_changed blurred setting_of
handle_blur key raw p = if_changed key (blurred (setting_of key p.settings) raw) p

unfoldable pub flash : String → Prefs → Prefs
unfolding clear
flash key p = record p {
  flash_key = some key;
  live = p.next_timer ∷ clear p.flash_timer p.live;
  flash_timer = some p.next_timer;
  next_timer = p.next_timer + 1;
}

-- `handleSave` of the page from its answer on, and the flash; a refused or failed one changes nothing.
unfoldable pub save_answered : Bool → Option (SaveRequest × List SaveRequest) → Prefs → Prefs
unfolding flash with_setting needs_restart
save_answered accepted none p = p
save_answered false (some found) p = record p { saving = found.1 }
save_answered true (some found) p = flash found.0.key (record p {
  settings = with_setting found.0.key found.0.value p.settings;
  restart_required = if needs_restart found.0.key then true else p.restart_required;
  saving = found.1;
})

abbrev pub runs : Option String → Bool
runs none = false
runs (some s) = str_eq s "running"

-- The effect on the daemon's state.
unfoldable pub observe_daemon : Option String → Prefs → Prefs
observe_daemon s p = record p {
  daemon_state = s;
  restart_required = if runs s && not (runs p.prev_daemon_state) then false else p.restart_required;
  prev_daemon_state = s;
}

unfoldable pub flash_over : ℕ → Prefs → Prefs
flash_over t p =
    if any (λ u. u == t) p.live
    then record p { flash_key = none; live = filter (λ u. not (u == t)) p.live }
    else p

pub data PrefsEvent : Type 0 where
  blur : ℕ → Text → PrefsEvent  -- the `k`-th control of the form
  choose toggle : ℕ → SettingValue → PrefsEvent  -- a selection, a checkbox
  answer : ℕ → Bool → PrefsEvent  -- to the `k`-th request under way
  daemon_now : Option String → PrefsEvent
  flash_ends : ℕ → PrefsEvent

unfoldable pub at_control : (String → Prefs → Prefs) → Option String → Prefs → Prefs
at_control f none p = p
at_control f (some key) p = f key p

unfoldable pub prefs_step : Prefs → PrefsEvent → Prefs
unfolding at_control handle_blur if_changed ask_save save_answered observe_daemon flash_over
prefs_step p (blur k raw) = at_control (λ key. handle_blur key raw) (get_elem? form_keys k) p
prefs_step p (choose k v) = at_control (λ key. if_changed key (some v)) (get_elem? form_keys k) p
prefs_step p (toggle k v) = at_control (λ key. ask_save key v) (get_elem? form_keys k) p
prefs_step p (answer k accepted) = save_answered accepted (take_out k p.saving) p
prefs_step p (daemon_now s) = observe_daemon s p
prefs_step p (flash_ends t) = flash_over t p

unfoldable pub run_prefs : Prefs → List PrefsEvent → Prefs
unfolding prefs_step
run_prefs p [] = p
run_prefs p (e ∷ es) = run_prefs (prefs_step p e) es

unfoldable pub opened_prefs : List (String × SettingValue) → Option String → Prefs
unfolding observe_daemon
opened_prefs settings daemon = observe_daemon daemon (record {
  settings = settings;
  daemon_state = none;
  prev_daemon_state = none;
  restart_required = false;
  flash_key = none;
  flash_timer = none;
  live = [];
  next_timer = 1;
  sent = [];
  saving = [];
})
