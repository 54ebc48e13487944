-- ===== src/Pages/Shell.antt =====
-- app.jsx: the tabs with their keys, the theme, and the banner of an incident. The boot sequence, the
-- flash of a restored connection and the drawing are left out.
pub mod Leaves
pub mod Incident
use ollama_queue.Prelude.{
  ℕ, zero, suc, ◌+◌, String, Bool, true, false, not, ◌&&◌, ◌||◌, Option, none, some, List, [], ◌∷◌,
  get_elem?, str_eq, ◌==◌, if◌then◌else◌,
}
use ollama_queue.Text.{Text}
use ollama_queue.Plan.Detail.{parse_int}
use ollama_queue.Atmosphere.{HealthMode, operational, degraded, critical}
use ollama_queue.Eval.{Page, stop_eval_poll}

pub data Tab : Type 0 where
  now plan history models settings eval consumers performance backends : Tab

abbrev pub all_tabs : List Tab
all_tabs = now ∷ plan ∷ history ∷ models ∷ settings ∷ eval ∷ consumers ∷ performance ∷ backends ∷ []

pub record Shell : Type 0 where
  pub current_tab : Tab
  pub page : Page  -- the polling of evaluation runs
  pub palette_open : Bool
  pub model_requests : ℕ  -- calls of fetchModels
  pub schedule_requests : ℕ  -- calls of fetchSchedule

unfoldable pub is_eval : Tab → Bool
is_eval eval = true
is_eval now = false
is_eval plan = false
is_eval history = false
is_eval models = false
is_eval settings = false
is_eval consumers = false
is_eval performance = false
is_eval backends = false

-- What the last two lines of `handleNavigate` fetch.
unfoldable pub fetch_for : Tab → Shell → Shell
fetch_for models s = record s { model_requests = s.model_requests + 1 }
fetch_for plan s = record s { schedule_requests = s.schedule_requests + 1 }
fetch_for now s = s
fetch_for history s = s
fetch_for settings s = s
fetch_for eval s = s
fetch_for consumers s = s
fetch_for performance s = s
fetch_for backends s = s

unfoldable pub handle_navigate : Tab → Shell → Shell
unfolding fetch_for is_eval
handle_navigate tab s =
    fetch_for tab
      (record s { current_tab = tab; page = if is_eval tab then s.page else stop_eval_poll s.page })

-- A click of the other components that lead to a tab: they only set the signal `currentTab`.
unfoldable pub set_current_tab : Tab → Shell → Shell
set_current_tab tab s = record s { current_tab = tab }

-- A pressed key, and whether the focus is in a field.
pub record Press : Type 0 where
  pub key : Text
  pub ctrl : Bool
  pub alt : Bool
  pub meta : Bool
  pub in_field : Bool

unfoldable pub is_k : Text → Bool
is_k [] = false
is_k (c ∷ []) = c == b'k'
is_k (c ∷ d ∷ cs) = false

-- `idx >= 0 && idx < ALL_TABS.length`, for the number that the key spells.
unfoldable pub tab_of : Option ℕ → Option Tab
tab_of none = none
tab_of (some zero) = none
tab_of (some (suc n)) = get_elem? all_tabs n

unfoldable pub show_tab : Option Tab → Shell → Shell
show_tab none s = s
show_tab (some tab) s = set_current_tab tab s

unfoldable pub on_key_down : Press → Shell → Shell
unfolding is_k tab_of show_tab
on_key_down p s =
    if (p.meta || p.ctrl) && is_k p.key
    then record s { palette_open = not s.palette_open }
    else if p.ctrl || p.alt || p.meta || p.in_field
    then s
    else show_tab (tab_of (parse_int p.key)) s

pub data Theme : Type 0 where
  dark light : Theme

-- What the item `queue-theme` of the local storage is read as, and what is stored.
unfoldable pub read_theme : Option String → Theme
read_theme none = dark
read_theme (some saved) = if str_eq saved "light" then light else dark

unfoldable pub stored_theme : Theme → String
stored_theme dark = "dark"
stored_theme light = "light"

unfoldable pub toggle_theme : Theme → Theme
toggle_theme dark = light
toggle_theme light = dark

-- The incident that the banner shows.
pub record Alarm : Type 0 where
  pub health_mode : HealthMode
  pub timestamp : Option ℕ
  pub acked : Bool

abbrev pub is_critical : HealthMode → Bool
is_critical operational = false
is_critical degraded = false
is_critical critical = true

unfoldable pub begin_incident : ℕ → Option ℕ → Alarm → Alarm
begin_incident time none a = record a { timestamp = some time; acked = false }
begin_incident time (some t) a = a

-- The effect on the health mode.
unfoldable pub observe_health : HealthMode → ℕ → Alarm → Alarm
unfolding begin_incident
observe_health mode time a =
    let b : Alarm = record a { health_mode = mode } in
    if is_critical mode
    then begin_incident time b.timestamp b
    else record b { timestamp = none; acked = false }

-- `active` of the banner.
unfoldable pub is_alarmed : Alarm → Bool
is_alarmed a = is_critical a.health_mode && not a.acked

pub data AlarmEvent : Type 0 where
  health : HealthMode → ℕ → AlarmEvent  -- a mode and the time at which it is observed
  acknowledge : AlarmEvent

unfoldable pub alarm_step : Alarm → AlarmEvent → Alarm
unfolding observe_health
alarm_step a (health mode time) = observe_health mode time a
alarm_step a acknowledge = record a { acked = true }

unfoldable pub run_alarm : Alarm → List AlarmEvent → Alarm
unfolding alarm_step
run_alarm a [] = a
run_alarm a (e ∷ es) = run_alarm (alarm_step a e) es
