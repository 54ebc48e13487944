-- ===== src/Plan/Detail.antt =====
-- pages/Plan/index.jsx: the detail panel of a recurring job, with the form that edits it
-- (toggleJobDetail, handleDetailSave) and the delete button of two clicks.
pub mod Save
pub mod Late
pub mod TwoClicks
use ollama_queue.Prelude.{
  ℕ, zero, suc, ◌+◌, ◌*◌, Bool, true, false, not, ◌&&◌, ◌||◌, Option, none, some, List, [], ◌∷◌,
  ◌++◌, leb, ◌==◌, if◌then◌else◌, find,
}
use ollama_queue.Text.{
  text_eq, Text, is_nil, is_space, trim_start, decimal, value_from, span_digits, is_digit,
}
use ollama_queue.Plan.Interval.{format_interval, parse_interval}

-- A recurring job, as far as the form shows it. `null` and a missing member are `none`.
pub record Job : Type 0 where
  pub id : ℕ
  pub interval_seconds : Option ℕ
  pub cron_expression : Option Text
  pub priority : ℕ
  pub model : Option Text
  pub timeout : Option ℕ
  pub max_retries : Option ℕ
  pub pinned : Bool
  pub enabled : Bool
  pub description : Option Text

pub record Form : Type 0 where
  pub id : ℕ
  pub interval : Text
  pub cron_expression : Text
  pub priority : Text
  pub model : Text
  pub timeout : Text
  pub max_retries : Text
  pub pinned : Bool
  pub enabled : Bool
  pub description : Text

-- `x || ''` and `n || 0`
abbrev pub or_empty : Option Text → Text
or_empty none = []
or_empty (some t) = t

abbrev pub or_zero : Option ℕ → ℕ
or_zero none = 0
or_zero (some n) = n

unfoldable pub open_form : Job → Form
open_form j = record {
  id = j.id;
  interval = format_interval j.interval_seconds;
  cron_expression = or_empty j.cron_expression;
  priority = decimal j.priority;
  model = or_empty j.model;
  timeout = format_interval j.timeout;
  max_retries = decimal (or_zero j.max_retries);
  pinned = j.pinned;
  enabled = j.enabled;
  description = or_empty j.description;
}

-- `parseInt(text, 10)`: `none` for NaN and for a negative number, which every use refuses alike.
unfoldable pub digits_or_nan : Text → Option ℕ
digits_or_nan t = if is_nil (span_digits t).0 then none else some (value_from 0 (span_digits t).0)

unfoldable pub not_negative : Option ℕ → Option ℕ
not_negative none = none
not_negative (some zero) = some 0
not_negative (some (suc n)) = none

unfoldable pub signed : Text → Option ℕ
unfolding digits_or_nan not_negative
signed [] = none
signed (c ∷ cs) =
    if c == b'-'
    then not_negative (digits_or_nan cs)
    else if c == b'+'
    then digits_or_nan cs
    else digits_or_nan (c ∷ cs)

unfoldable pub parse_int : Text → Option ℕ
unfolding signed
parse_int t = signed (trim_start t)

abbrev pub bool_eq : Bool → Bool → Bool
bool_eq true b = b
bool_eq false b = not b

-- The members of `updates`; a text that is sent as `null` is `some none`.
pub record Updates : Type 0 where
  pub interval_seconds : Option ℕ
  pub priority : Option ℕ
  pub model : Option (Option Text)
  pub timeout : Option ℕ
  pub max_retries : Option ℕ
  pub pinned : Option Bool
  pub enabled : Option Bool
  pub description : Option (Option Text)

abbrev pub no_updates : Updates
no_updates = record {
  interval_seconds = none;
  priority = none;
  model = none;
  timeout = none;
  max_retries = none;
  pinned = none;
  enabled = none;
  description = none;
}

-- `n !== old`
unfoldable pub differs : ℕ → Option ℕ → Bool
differs n none = true
differs n (some m) = not (n == m)

-- `secs && secs !== old`: a number that was read, is not 0, and is another one.
unfoldable pub changed_secs : Option ℕ → Option ℕ → Option ℕ
unfolding differs
changed_secs none old = none
changed_secs (some zero) old = none
changed_secs (some (suc n)) old = if differs (suc n) old then some (suc n) else none

unfoldable pub changed_interval : Text → Text → Option ℕ → Option ℕ
unfolding changed_secs
changed_interval [] interval old = changed_secs (parse_interval interval) old
changed_interval (c ∷ cs) interval old = none

unfoldable pub changed_priority : Option ℕ → ℕ → Option ℕ
changed_priority none old = none
changed_priority (some p) old = if leb 1 p && leb p 10 && not (p == old) then some p else none

unfoldable pub changed_retries : Option ℕ → ℕ → Option ℕ
changed_retries none old = none
changed_retries (some r) old = if r == old then none else some r

-- `text || null`
abbrev pub or_null : Text → Option Text
or_null [] = none
or_null (c ∷ cs) = some (c ∷ cs)

unfoldable pub changed_text : Text → Text → Option (Option Text)
unfolding text_eq
changed_text t old = if text_eq t old then none else some (or_null t)

unfoldable pub changed_flag : Bool → Bool → Option Bool
changed_flag b old = if bool_eq b old then none else some b

unfoldable pub updates_of : Job → Form → Updates
unfolding changed_interval changed_priority changed_retries changed_text changed_flag
updates_of j f = record {
  interval_seconds = changed_interval f.cron_expression f.interval j.interval_seconds;
  priority = changed_priority (parse_int f.priority) j.priority;
  model = changed_text f.model (or_empty j.model);
  timeout = changed_secs (parse_interval f.timeout) j.timeout;
  max_retries = changed_retries (parse_int f.max_retries) (or_zero j.max_retries);
  pinned = changed_flag f.pinned j.pinned;
  enabled = changed_flag f.enabled j.enabled;
  description = changed_text f.description (or_empty j.description);
}

abbrev pub is_none {ℓ} : {A : Type ℓ} → Option A → Bool
is_none none = true
is_none (some a) = false

-- `Object.keys(updates).length === 0`
unfoldable pub is_unchanged : Updates → Bool
is_unchanged u =
    is_none u.interval_seconds
    && is_none u.priority
    && is_none u.model
    && is_none u.timeout
    && is_none u.max_retries
    && is_none u.pinned
    && is_none u.enabled
    && is_none u.description

-- What the panel asks of the store: the runs of a job, a change, a deletion.
pub data Request : Type 0 where
  get_runs : ℕ → Request
  put_job : ℕ → Updates → Request
  delete_job : ℕ → Request

pub record Panel : Type 0 where
  pub expanded : Option ℕ  -- `expandedJobId`
  pub form : Option Form  -- `editForm`
  pub saving : Bool  -- `saveFb.phase === 'loading'`
  pub deleting : Bool  -- `deleteFb.phase === 'loading'`
  pub pending_delete : Option ℕ  -- `pendingDeleteId`
  pub sent : List Request

unfoldable pub close : Panel → Panel
close p = record p { expanded = none; form = none }

unfoldable pub send : Request → Panel → Panel
send r p = record p { sent = p.sent ++ r ∷ [] }

unfoldable pub find_job : ℕ → List Job → Option Job
find_job i js = find (λ j. j.id == i) js

-- Without the job the form stays as it was.
show_job : Option Job → Panel → Panel
unfolding open_form
show_job none p = p
show_job (some j) p = record p { form = some (open_form j) }

unfoldable pub is_id : ℕ → Option ℕ → Bool
is_id i none = false
is_id i (some k) = k == i

unfoldable pub toggle_job_detail : ℕ → List Job → Panel → Panel
unfolding close send find_job show_job is_id
toggle_job_detail i js p =
    if is_id i p.expanded
    then close p
    else send (get_runs i) (show_job (find_job i js) (record p { expanded = some i }))

send_or_close : ℕ → Updates → Panel → Panel
unfolding close send is_unchanged
send_or_close i u p =
    if is_unchanged u then close p else record (send (put_job i u) p) { saving = true }

save_job : Form → Option Job → Panel → Panel
unfolding send_or_close updates_of
save_job f none p = p
save_job f (some j) p = send_or_close f.id (updates_of j f) p

save_form : Option Form → List Job → Panel → Panel
unfolding save_job find_job
save_form none js p = p
save_form (some f) js p = if p.saving then p else save_job f (find_job f.id js) p

unfoldable pub handle_detail_save : List Job → Panel → Panel
unfolding save_form
handle_detail_save js p = save_form p.form js p

-- The reply to the change: whether it was accepted.
unfoldable pub saved : Bool → Panel → Panel
unfolding close
saved true p = record (close p) { saving = false }
saved false p = record p { saving = false }

unfoldable pub handle_delete_request : ℕ → Panel → Panel
handle_delete_request i p = record p { pending_delete = some i }

unfoldable pub handle_delete_cancel : Panel → Panel
handle_delete_cancel p = record p { pending_delete = none }

-- `deleteAct` does nothing while an earlier deletion is under way.
unfoldable pub handle_delete_confirm : ℕ → Panel → Panel
unfolding send
handle_delete_confirm i p =
    let q : Panel = record p { pending_delete = none } in
    if p.deleting then q else record (send (delete_job i) q) { deleting = true }

unfoldable pub deleted : Bool → Panel → Panel
unfolding close
deleted true p = record (close p) { deleting = false }
deleted false p = record p { deleting = false }
