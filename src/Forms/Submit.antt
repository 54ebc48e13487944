-- ===== src/Forms/Submit.antt =====
-- components/SubmitJobModal.jsx: one job, now. The dialog's own state, its open flag and the
-- feedback of its button; the defaults come with the settings.
pub mod Sent
use ollama_queue.Prelude.{
  ℕ, zero, suc, ◌≤◌, ◌≡◌, ◌≢◌, refl, ap, ◌∙◌, Bool, true, false, not, Option, none, some, List, [],
  ◌∷◌, ◌++◌, ◌==◌, if◌then◌else◌, arith, All, All-snoc,
}
use ollama_queue.Text.{Text, codes, is_nil, trim}
use ollama_queue.Forms.{
  Num, nat, below_zero, fraction, nan, positive, is_priority, unless_empty, is_some, ne-nil_of,
  in_range_of,
}

pub data Complaint : Type 0 where
  command_required source_required priority_invalid timeout_invalid : Complaint

pub record Fields : Type 0 where
  pub command : Text
  pub source : Text
  pub model : Text
  pub priority : Num
  pub timeout : Num

-- `/api/settings`: `default_priority ?? 5` and `default_timeout_seconds ?? 120`.
pub record Defaults : Type 0 where
  pub default_priority : Option Num
  pub default_timeout : Option Num

abbrev pub or_default : Option Num → Num → Num
or_default none d = d
or_default (some n) d = n

unfoldable pub blank : Defaults → Fields
blank d = record {
  command = [];
  source = codes "dashboard";
  model = [];
  priority = or_default d.default_priority (nat 5);
  timeout = or_default d.default_timeout (nat 120);
}

unfoldable pub is_number : ℕ → Num → Bool
is_number k (nat n) = n == k
is_number k (below_zero n) = false
is_number k (fraction n b) = false
is_number k nan = false

-- The subscription to the settings: a field that still has the first value takes the default.
unfoldable pub sync_settings : Defaults → Fields → Fields
unfolding is_number
sync_settings d f = record f {
  priority = if is_number 5 f.priority then or_default d.default_priority (nat 5) else f.priority;
  timeout = if is_number 120 f.timeout then or_default d.default_timeout (nat 120) else f.timeout;
}

unfoldable pub validate : Fields → Option Complaint
unfolding is_priority positive
validate f =
    if is_nil (trim f.command)
    then some command_required
    else if is_nil (trim f.source)
    then some source_required
    else if not (is_priority f.priority)
    then some priority_invalid
    else if not (is_some (positive f.timeout))
    then some timeout_invalid
    else none

pub record SubmitBody : Type 0 where
  pub command : Text
  pub source : Text
  pub priority : Num
  pub timeout : Num
  pub model : Option Text

unfoldable pub body_of : Fields → SubmitBody
unfolding unless_empty
body_of f = record {
  command = trim f.command;
  source = trim f.source;
  priority = f.priority;
  timeout = f.timeout;
  model = unless_empty f.model;
}

pub record Dialog : Type 0 where
  pub fields : Fields
  pub error : Option Complaint
  pub busy : Bool  -- `fb.phase === 'loading'`
  pub closing : ℕ  -- timers of 1500 ms that close the dialog
  pub is_open : Bool
  pub sent : List SubmitBody

unfoldable pub check_submit : Option Complaint → Dialog → Dialog
unfolding body_of
check_submit (some c) d = record d { error = some c }
check_submit none d =
    let e : Dialog = record d { error = none } in
    if d.busy then e else record e { busy = true; sent = d.sent ++ body_of d.fields ∷ [] }

unfoldable pub handle_submit : Dialog → Dialog
unfolding check_submit validate
handle_submit d = check_submit (validate d.fields) d

-- The reply, and the timer that an accepted one starts.
unfoldable pub submitted : Bool → Dialog → Dialog
submitted true d = if d.busy then record d { busy = false; closing = suc d.closing } else d
submitted false d = record d { busy = false }

unfoldable pub reset_form : Defaults → Dialog → Dialog
unfolding blank
reset_form s d = record d { fields = blank s; error = none }

unfoldable pub close_by : ℕ → Defaults → Dialog → Dialog
unfolding reset_form
close_by zero s d = d
close_by (suc n) s d = record (reset_form s d) { closing = n; is_open = false }

unfoldable pub close_after : Defaults → Dialog → Dialog
unfolding close_by
close_after s d = close_by d.closing s d

unfoldable pub handle_cancel : Defaults → Dialog → Dialog
unfolding reset_form
handle_cancel s d = record (reset_form s d) { is_open = false }

unfoldable pub open_dialog : Dialog → Dialog
open_dialog d = record d { is_open = true }

pub data Event : Type 0 where
  open_it cancel submit : Event
  edit : Fields → Event  -- what the fields hold after an input
  settings : Defaults → Event
  reply : Bool → Event
  timer : Event

-- The defaults are those of the settings as they stand.
unfoldable pub step : Defaults → Dialog → Event → Dialog
unfolding open_dialog handle_cancel handle_submit sync_settings submitted close_after
step s d open_it = open_dialog d
step s d cancel = handle_cancel s d
step s d submit = handle_submit d
step s d (edit f) = record d { fields = f }
step s d (settings t) = record d { fields = sync_settings t d.fields }
step s d (reply ok) = submitted ok d
step s d timer = close_after s d

unfoldable pub run : Defaults → Dialog → List Event → Dialog
run s d [] = d
run s d (e ∷ es) = run s (step s d e) es
