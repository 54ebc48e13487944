-- ===== src/Forms/Recurring/Bodies.antt =====
-- What the dialog for recurring jobs sends, whatever is typed and clicked.
use ollama_queue.Prelude.{
  ℕ, ◌*◌, ◌≤◌, ◌<◌, ◌≡◌, ◌≢◌, refl, ap, ◌∙◌, ◌⊎◌, Bool, true, false, Option, none, some, List, [],
  ◌∷◌, ◌++◌, if◌then◌else◌, arith, inl, inr, All, All-snoc,
}
use ollama_queue.Text.{Text, is_nil, trim, decimal}
use ollama_queue.Plan.Interval.{parse_interval, read_decimal, unit_of, max_safe}
use ollama_queue.Forms.{nat, is_some, ne-nil_of, in_range_of}
use ollama_queue.Forms.Recurring.{
  Mode, by_interval, by_cron, Fields, Complaint, RecurringBody, Dialog, open_modal,
  apply_suggestion, schedule_missing, priority_missing, or_else, validate, interval_for, cron_for,
  body_of, check_submit, handle_submit, added, handle_cancel, Event, open_it, cancel, submit,
  toggle_advanced, choose, edit, suggest, reply, step, run,
}

-- One way to come back, and one only: an interval, or a cron expression that is not empty.
pub OneSchedule : RecurringBody → Type 0
OneSchedule b =
    ((n : ℕ) × (b.interval_seconds ≡ some n) × (b.cron_expression ≡ none))
    ⊎ ((c : Text) × (b.cron_expression ≡ some c) × (c ≢ []) × (b.interval_seconds ≡ none))

pub record IsComplete (b : RecurringBody) : Type 0 where
  pub has_name : b.name ≢ []
  pub has_command : b.command ≢ []
  pub in_range : (n : ℕ) × (b.priority ≡ nat n) × (1 ≤ n) × (n ≤ 10)
  pub scheduled : OneSchedule b

read_of : (o : Option ℕ) → is_some o ≡ true → (n : ℕ) × (o ≡ some n)
read_of none h = cc
read_of (some n) h = (n, refl)

body_of-schedule :
    (m : Mode) (f : Fields) (b : RecurringBody)
    → b.interval_seconds ≡ interval_for m f
    → b.cron_expression ≡ cron_for m f
    → schedule_missing m f ≡ none
    → OneSchedule b
unfolding OneSchedule interval_for cron_for schedule_missing
body_of-schedule by_interval f b i c h =
    let (n, e) = read_of (parse_interval f.interval) (ground arith) in inl (n, i ∙ e, c)
body_of-schedule by_cron f b i c h = inr (trim f.cron, c, ne-nil_of (trim f.cron) (ground arith), i)

or_else-none : (c d : Option Complaint) → or_else c d ≡ none → (c ≡ none) × (d ≡ none)
or_else-none none d h = (refl, h)
or_else-none (some c) d h = cc

complete :
    (m : Mode) (f : Fields)
    → validate m f ≡ none
    → (is_nil (trim f.name) ≡ false)
      × (is_nil (trim f.command) ≡ false)
      × (schedule_missing m f ≡ none)
      × (priority_missing f.priority ≡ none)
unfolding validate
complete m f h =
    let name : is_nil (trim f.name) ≡ false = ground arith in
    let command : is_nil (trim f.command) ≡ false = ground arith in
    let (schedule, priority) =
      or_else-none (schedule_missing m f) (priority_missing f.priority) (ground arith) in
    (name, command, schedule, priority)

body_of-IsComplete : (d : Dialog) → validate d.schedule_mode d.form ≡ none → IsComplete (body_of d)
unfolding body_of
body_of-IsComplete d h =
    let (name, command, schedule, priority) = complete d.schedule_mode d.form h in
    record {
      has_name = ne-nil_of (trim d.form.name) name;
      has_command = ne-nil_of (trim d.form.command) command;
      in_range = in_range_of d.form.priority (unfold priority_missing in ground arith);
      scheduled = body_of-schedule d.schedule_mode d.form _ refl refl schedule;
    }

check_submit-Complete :
    (o : Option Complaint) (d : Dialog)
    → (o ≡ none → IsComplete (body_of d))
    → All IsComplete d.sent
    → All IsComplete (check_submit o d).sent
unfolding check_submit
check_submit-Complete (some c) d h a = a
check_submit-Complete none d h a = All-snoc IsComplete d.sent (body_of d) a (h refl)

if_busy-Complete :
    (x : Bool) (d e : Dialog)
    → All IsComplete d.sent
    → All IsComplete e.sent
    → All IsComplete (if x then d else e).sent
if_busy-Complete true d e h k = h
if_busy-Complete false d e h k = k

step-Complete : (d : Dialog) (e : Event) → All IsComplete d.sent → All IsComplete (step d e).sent
unfolding step open_modal handle_cancel handle_submit apply_suggestion added
step-Complete d open_it a = a
step-Complete d cancel a = a
step-Complete d submit a =
    if_busy-Complete d.submitting d _ a
      (check_submit-Complete (validate d.schedule_mode d.form) d (body_of-IsComplete d) a)
step-Complete d toggle_advanced a = a
step-Complete d (choose m) a = a
step-Complete d (edit f) a = a
step-Complete d (suggest label) a = a
step-Complete d (reply none) a = a
step-Complete d (reply (some m)) a = a

-- Whatever is typed, clicked and replied, every job that the dialog adds has a name and a command,
-- a priority that is an integer from 1 to 10, and either an interval or a cron expression that is
-- not empty, never both, if this held of the jobs sent before.
pub run-Complete :
    (es : List Event) (d : Dialog) → All IsComplete d.sent → All IsComplete (run d es).sent
unfolding run
run-Complete [] d a = a
run-Complete (e ∷ es) d a = run-Complete es (step d e) (step-Complete d e a)

sending : Dialog → Dialog
sending d = record d { error = none; submitting = true; sent = d.sent ++ body_of d ∷ [] }

handle_submit-sending :
    (d : Dialog)
    → validate d.schedule_mode d.form ≡ none
    → d.submitting ≡ false
    → handle_submit d ≡ sending d
unfolding handle_submit check_submit sending
handle_submit-sending d h b =
    ap (λ x. if x then d else check_submit (validate d.schedule_mode d.form) d) b
    ∙ ap (λ o. check_submit o d) h

-- When the service refuses a job, the form is as it was and the dialog stays open: clicking again
-- sends the same body a second time.
pub retry_same :
    (d : Dialog) (message : Text)
    → validate d.schedule_mode d.form ≡ none
    → d.submitting ≡ false
    → d.is_open ≡ true
    → let after = run d (submit ∷ reply (some message) ∷ submit ∷ []) in
      (after.sent ≡ (d.sent ++ body_of d ∷ []) ++ body_of d ∷ []) × (after.is_open ≡ true)
unfolding run step sending added body_of
retry_same d message h b o =
    let refused : Dialog → Dialog = λ e. step e (reply (some message)) in
    let twice : run d (submit ∷ reply (some message) ∷ submit ∷ [])
        ≡ sending (refused (sending d)) =
      ap (λ e. handle_submit (refused e)) (handle_submit-sending d h b)
      ∙ handle_submit-sending (refused (sending d)) h refl in
    (ap (λ e. e.sent) twice, ap (λ e. e.is_open) twice ∙ o)

-- A valid form that says "n hours" sends n · 3600 seconds: whole hours up to the greatest safe
-- integer, in the way that the page prints them.
pub hours_sent :
    (d : Dialog) (n : ℕ)
    → d.schedule_mode ≡ by_interval
    → d.form.interval ≡ decimal n ++ b'h' ∷ []
    → 0 < n
    → n ≤ max_safe
    → (body_of d).interval_seconds ≡ some (n * 3600)
unfolding body_of interval_for
hours_sent d n m t pos safe =
    ap (λ m. interval_for m d.form) m
    ∙ ap parse_interval t
    ∙ read_decimal n b'h' 3600 pos safe (omega arith) (omega arith) (unfold unit_of in refl)
