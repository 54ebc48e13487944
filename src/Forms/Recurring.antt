-- ===== src/Forms/Recurring.antt =====
-- components/AddRecurringJobModal.jsx: a job that comes back. The dialog's own state, what it sends,
-- and the copy of parseInterval that it reads the interval with (the one of Plan/Interval). What the
-- two loads after an accepted job bring is in Schedule; here they are the events that follow.
pub mod Bodies
use ollama_queue.Prelude.{
  ℕ, zero, suc, ◌*◌, ◌≤◌, ◌<◌, ◌≡◌, ◌≢◌, refl, ap, ◌∙◌, ◌⊎◌, Bool, true, false, not, Option, none,
  some, List, [], ◌∷◌, ◌++◌, if◌then◌else◌, arith, Bool-cases, inl, inr, All,
}
use ollama_queue.Text.{Text, codes, is_nil, trim, decimal}
use ollama_queue.Plan.Interval.{parse_interval, read_decimal, unit_of, max_safe}
use ollama_queue.Forms.{
  Num, nat, below_zero, fraction, nan, is_priority, or_number, unless_empty, is_some, ne-nil_of,
  in_range_of,
}

pub data Mode : Type 0 where
  by_interval by_cron : Mode

pub record Fields : Type 0 where
  pub name : Text
  pub command : Text
  pub interval : Text
  pub cron : Text
  pub model : Text
  pub priority : Num
  pub timeout : Num
  pub tag : Text
  pub source : Text
  pub max_retries : Num
  pub resource_profile : Text
  pub pinned : Bool
  pub check_command : Text
  pub max_runs : Option Num  -- an empty field is `none`

abbrev pub new_form : Fields
new_form = record {
  name = [];
  command = [];
  interval = codes "1h";
  cron = [];
  model = [];
  priority = nat 5;
  timeout = nat 600;
  tag = [];
  source = [];
  max_retries = nat 0;
  resource_profile = codes "ollama";
  pinned = false;
  check_command = [];
  max_runs = none;
}

pub data Complaint : Type 0 where
  name_required command_required interval_invalid cron_required priority_invalid : Complaint
  failed : Text → Complaint  -- `err.message || 'Add job failed'`

-- The members that the advanced part of the form adds.
pub record Advanced : Type 0 where
  pub timeout : Num
  pub tag : Option Text
  pub source : Option Text
  pub max_retries : Num
  pub resource_profile : Text
  pub pinned : Bool
  pub check_command : Option Text
  pub max_runs : Option Num

pub record RecurringBody : Type 0 where
  pub name : Text
  pub command : Text
  pub priority : Num
  pub interval_seconds : Option ℕ
  pub cron_expression : Option Text
  pub model : Option Text
  pub advanced : Option Advanced

pub record Dialog : Type 0 where
  pub is_open : Bool
  pub submitting : Bool
  pub error : Option Complaint
  pub show_advanced : Bool
  pub schedule_mode : Mode
  pub form : Fields
  pub sent : List RecurringBody  -- the bodies that addRecurringJob was given
  pub load_maps : ℕ  -- the calls of fetchLoadMap as the dialog opens

unfoldable pub open_modal : Dialog → Dialog
open_modal d = record d {
  error = none;
  show_advanced = false;
  is_open = true;
  load_maps = suc d.load_maps;
}

unfoldable pub apply_suggestion : Text → Dialog → Dialog
apply_suggestion label d =
    let f : Fields = d.form in
    record d { schedule_mode = by_interval; form = record f { interval = codes "24h" } }

unfoldable pub schedule_missing : Mode → Fields → Option Complaint
schedule_missing by_interval f =
    if is_some (parse_interval f.interval) then none else some interval_invalid
schedule_missing by_cron f = if is_nil (trim f.cron) then some cron_required else none

unfoldable pub priority_missing : Num → Option Complaint
unfolding is_priority
priority_missing p = if is_priority p then none else some priority_invalid

abbrev pub or_else : Option Complaint → Option Complaint → Option Complaint
or_else none d = d
or_else (some c) d = some c

unfoldable pub validate : Mode → Fields → Option Complaint
unfolding schedule_missing priority_missing
validate m f =
    if is_nil (trim f.name)
    then some name_required
    else if is_nil (trim f.command)
    then some command_required
    else or_else (schedule_missing m f) (priority_missing f.priority)

unfoldable pub interval_for : Mode → Fields → Option ℕ
interval_for by_interval f = parse_interval f.interval
interval_for by_cron f = none

unfoldable pub cron_for : Mode → Fields → Option Text
cron_for by_interval f = none
cron_for by_cron f = some (trim f.cron)

unfoldable pub advanced_of : Fields → Advanced
unfolding or_number unless_empty
advanced_of f = record {
  timeout = or_number f.timeout (nat 600);
  tag = unless_empty f.tag;
  source = unless_empty f.source;
  max_retries = or_number f.max_retries (nat 0);
  resource_profile = f.resource_profile;
  pinned = f.pinned;
  check_command = unless_empty f.check_command;
  max_runs = f.max_runs;
}

unfoldable pub body_of : Dialog → RecurringBody
unfolding interval_for cron_for advanced_of unless_empty
body_of d = record {
  name = trim d.form.name;
  command = trim d.form.command;
  priority = d.form.priority;
  interval_seconds = interval_for d.schedule_mode d.form;
  cron_expression = cron_for d.schedule_mode d.form;
  model = unless_empty d.form.model;
  advanced = if d.show_advanced then some (advanced_of d.form) else none;
}

unfoldable pub check_submit : Option Complaint → Dialog → Dialog
unfolding body_of
check_submit (some c) d = record d { error = some c }
check_submit none d = record d { error = none; submitting = true; sent = d.sent ++ body_of d ∷ [] }

-- The button is disabled while a job is being added.
unfoldable pub handle_submit : Dialog → Dialog
unfolding check_submit validate
handle_submit d = if d.submitting then d else check_submit (validate d.schedule_mode d.form) d

-- The end of the three requests: none of them failed, or one did with a message.
unfoldable pub added : Option Text → Dialog → Dialog
added none d = record d { is_open = false; submitting = false }
added (some message) d = record d {
  error = some (failed (if is_nil message then codes "Add job failed" else message));
  submitting = false;
}

unfoldable pub handle_cancel : Dialog → Dialog
handle_cancel d = record d { is_open = false }

pub data Event : Type 0 where
  open_it cancel submit toggle_advanced : Event
  choose : Mode → Event
  edit : Fields → Event
  suggest : Text → Event
  reply : Option Text → Event

unfoldable pub step : Dialog → Event → Dialog
unfolding open_modal handle_cancel handle_submit apply_suggestion added
step d open_it = open_modal d
step d cancel = handle_cancel d
step d submit = handle_submit d
step d toggle_advanced = record d { show_advanced = not d.show_advanced }
step d (choose m) = record d { schedule_mode = m }
step d (edit f) = record d { form = f }
step d (suggest label) = apply_suggestion label d
step d (reply r) = added r d

unfoldable pub run : Dialog → List Event → Dialog
run d [] = d
run d (e ∷ es) = run (step d e) es
