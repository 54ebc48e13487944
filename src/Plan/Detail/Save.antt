-- ===== src/Plan/Detail/Save.antt =====
-- Saving the form: an untouched one, and what the others send.
use mathlib.Core.List.{append-nil}
use ollama_queue.Prelude.{
  ℕ, zero, suc, ◌≤◌, ◌≡◌, ◌≢◌, refl, sym, ap, subst, ◌∙◌, Bool, true, false, ◌&&◌, Option, none,
  some, List, [], ◌∷◌, ◌++◌, arith, leb, if◌then◌else◌, All, Bool-cases, inl, inr,
}
use ollama_queue.Text.{Text, decimal, value_from, span_digits}
use ollama_queue.Text.Digits.{
  IsDigit, decimal-IsDigit, decimal-ne-nil, value_from-decimal, span_digits-append,
  trim_start-plain,
}
use ollama_queue.Text.{text_eq}
use ollama_queue.Text.Equal.{text_eq_refl}
use ollama_queue.Plan.Interval.{
  max_safe, format_interval, parse_interval, parse_interval-format_interval, parse_interval-dash,
}
use ollama_queue.Plan.Detail.{
  Job, Form, or_empty, or_zero, open_form, digits_or_nan, signed, parse_int, Updates, no_updates,
  differs, changed_secs, changed_interval, changed_priority, changed_retries, or_null, get_runs,
  changed_text, changed_flag, updates_of, is_unchanged, Panel, close, find_job, send_or_close,
  save_job, save_form, handle_detail_save, toggle_job_detail, show_job, is_id, send,
}

span_whole : (ds : Text) → All IsDigit ds → span_digits ds ≡ (ds, [])
span_whole ds a =
    subst (λ t. span_digits t ≡ (ds, [])) (append-nil ds)
      (span_digits-append ds [] a (unfold span_digits in refl))

digits_or_nan-digits :
    (ds : Text) → ds ≢ [] → All IsDigit ds → digits_or_nan ds ≡ some (value_from 0 ds)
unfolding digits_or_nan
digits_or_nan-digits [] ne a = absurd (ne refl)
digits_or_nan-digits (d ∷ ds) ne a = rw (span_whole (d ∷ ds) a)

parse_int-digits : (ds : Text) → ds ≢ [] → All IsDigit ds → parse_int ds ≡ some (value_from 0 ds)
unfolding parse_int signed
parse_int-digits [] ne a = absurd (ne refl)
parse_int-digits (d ∷ ds) ne (hd, hs) =
    rw (trim_start-plain d ds hd.0 (omega arith))
      (ground (arith, digits_or_nan-digits (d ∷ ds) ne (hd, hs)))

-- `parseInt(String(n), 10)` is `n`.
pub parse_int-decimal : (n : ℕ) → parse_int (decimal n) ≡ some n
parse_int-decimal n =
    parse_int-digits (decimal n) (decimal-ne-nil n) (decimal-IsDigit n)
    ∙ ap some (value_from-decimal n)

-- A number of seconds that the form shows without loss: a safe integer, or none.
abbrev pub IsSafe : Option ℕ → Type 0
IsSafe none = Unit
IsSafe (some n) = n ≤ max_safe

changed_secs-same :
    (o : Option ℕ) → IsSafe o → changed_secs (parse_interval (format_interval o)) o ≡ none
unfolding changed_secs differs
changed_secs-same none h = rw parse_interval-dash
changed_secs-same (some zero) h = ground (arith, parse_interval-format_interval zero h)
changed_secs-same (some (suc n)) h = ground (arith, parse_interval-format_interval (suc n) h)

changed_interval-same :
    (cron : Text) (o : Option ℕ) → IsSafe o → changed_interval cron (format_interval o) o ≡ none
unfolding changed_interval
changed_interval-same [] o h = changed_secs-same o h
changed_interval-same (c ∷ cs) o h = refl

changed_priority-same : (p : ℕ) → changed_priority (parse_int (decimal p)) p ≡ none
unfolding changed_priority
changed_priority-same p = rw (parse_int-decimal p) (ground arith)

changed_retries-same : (r : ℕ) → changed_retries (parse_int (decimal r)) r ≡ none
unfolding changed_retries
changed_retries-same r = rw (parse_int-decimal r) (ground arith)

changed_text-same : (t : Text) → changed_text t t ≡ none
unfolding changed_text
changed_text-same t = rw (text_eq_refl t)

changed_flag-same : (b : Bool) → changed_flag b b ≡ none
unfolding changed_flag
changed_flag-same true = refl
changed_flag-same false = refl

updates_of-open_form :
    (j : Job)
    → IsSafe j.interval_seconds
    → IsSafe j.timeout
    → updates_of j (open_form j) ≡ no_updates
unfolding updates_of open_form
updates_of-open_form j h k = λ i. record {
  interval_seconds = changed_interval-same (or_empty j.cron_expression) j.interval_seconds h i;
  priority = changed_priority-same j.priority i;
  model = changed_text-same (or_empty j.model) i;
  timeout = changed_secs-same j.timeout k i;
  max_retries = changed_retries-same (or_zero j.max_retries) i;
  pinned = changed_flag-same j.pinned i;
  enabled = changed_flag-same j.enabled i;
  description = changed_text-same (or_empty j.description) i;
}

save_job-untouched :
    (j : Job) (p : Panel)
    → IsSafe j.interval_seconds
    → IsSafe j.timeout
    → save_job (open_form j) (some j) p ≡ close p
unfolding save_job send_or_close is_unchanged open_form
save_job-untouched j p h k = ap (λ u. send_or_close j.id u p) (updates_of-open_form j h k)

save_form-untouched :
    (j : Job) (js : List Job) (p : Panel)
    → p.saving ≡ false
    → find_job j.id js ≡ some j
    → IsSafe j.interval_seconds
    → IsSafe j.timeout
    → save_form (some (open_form j)) js p ≡ close p
unfolding save_form open_form
save_form-untouched j js p idle found h k =
    ap (λ b. if b then p else save_job (open_form j) (find_job j.id js) p) idle
    ∙ ap (λ o. save_job (open_form j) o p) found
    ∙ save_job-untouched j p h k

pub find_job-id : (i : ℕ) (js : List Job) (j : Job) → find_job i js ≡ some j → j.id ≡ i
unfolding find_job
find_job-id i [] j h = cc
find_job-id i (k ∷ js) j h = ground (arith, find_job-id i js j)

pub opens :
    (i : ℕ) (j : Job) (js : List Job) (p : Panel)
    → is_id i p.expanded ≡ false
    → find_job i js ≡ some j
    → toggle_job_detail i js p
      ≡ record p { expanded = some i; form = some (open_form j); sent = p.sent ++ get_runs i ∷ [] }
unfolding toggle_job_detail show_job send
opens i j js p closed found = rw (closed, found)

-- When the closed panel of a job is opened and saved with nothing changed, while nothing is being
-- saved and the list of jobs is the same at both clicks, no change is sent: the panel closes, and
-- only the runs of the job were asked for. The seconds of the job are safe integers or absent.
pub untouched_save :
    (i : ℕ) (j : Job) (js : List Job) (p : Panel)
    → is_id i p.expanded ≡ false
    → p.saving ≡ false
    → find_job i js ≡ some j
    → IsSafe j.interval_seconds
    → IsSafe j.timeout
    → handle_detail_save js (toggle_job_detail i js p)
      ≡ record p { expanded = none; form = none; sent = p.sent ++ get_runs i ∷ [] }
untouched_save i j js p closed idle found h k =
    ap (handle_detail_save js) (opens i j js p closed found)
    ∙ (unfold handle_detail_save in
        save_form-untouched j js
          (record p {
            expanded = some i;
            form = some (open_form j);
            sent = p.sent ++ get_runs i ∷ [];
          })
          idle (ap (λ n. find_job n js) (find_job-id i js j found) ∙ found) h k)

-- The job after the service has taken over the changes.
abbrev pub or_kept {ℓ} : {A : Type ℓ} → Option A → A → A
or_kept none old = old
or_kept (some a) old = a

abbrev pub or_kept? {ℓ} : {A : Type ℓ} → Option A → Option A → Option A
or_kept? none old = old
or_kept? (some a) old = some a

abbrev pub applied : Updates → Job → Job
applied u j = record j {
  interval_seconds = or_kept? u.interval_seconds j.interval_seconds;
  priority = or_kept u.priority j.priority;
  model = or_kept u.model j.model;
  timeout = or_kept? u.timeout j.timeout;
  max_retries = or_kept? u.max_retries j.max_retries;
  pinned = or_kept u.pinned j.pinned;
  enabled = or_kept u.enabled j.enabled;
  description = or_kept u.description j.description;
}

text_eq-eq : (s t : Text) → text_eq s t ≡ true → s ≡ t
unfolding text_eq
text_eq-eq [] [] h = refl
text_eq-eq [] (d ∷ ds) h = cc
text_eq-eq (c ∷ cs) [] h = cc
text_eq-eq (c ∷ cs) (d ∷ ds) h = ground (arith, text_eq-eq cs ds)

or_empty-or_null : (t : Text) → or_empty (or_null t) ≡ t
or_empty-or_null [] = refl
or_empty-or_null (c ∷ cs) = refl

kept_text :
    (t : Text) (old : Option Text) → or_empty (or_kept (changed_text t (or_empty old)) old) ≡ t
unfolding changed_text
kept_text t old = elim (Bool-cases (text_eq t (or_empty old))) [
  | inl h ↦ rw h (sym (text_eq-eq t (or_empty old) h))
  | inr h ↦ rw h (or_empty-or_null t)
]

kept_flag : (b old : Bool) → or_kept (changed_flag b old) old ≡ b
unfolding changed_flag
kept_flag true true = refl
kept_flag true false = refl
kept_flag false true = refl
kept_flag false false = refl

-- What the form asks for the priority: a number from 1 to 10, or the old one.
abbrev pub asked_priority : Option ℕ → ℕ → ℕ
asked_priority none old = old
asked_priority (some p) old = if leb 1 p && leb p 10 then p else old

kept_priority :
    (o : Option ℕ) (old : ℕ) → or_kept (changed_priority o old) old ≡ asked_priority o old
unfolding changed_priority
kept_priority none old = refl
kept_priority (some p) old = ground arith

kept_retries :
    (o : Option ℕ) (old : Option ℕ)
    → or_zero (or_kept? (changed_retries o (or_zero old)) old) ≡ or_kept o (or_zero old)
unfolding changed_retries
kept_retries none old = refl
kept_retries (some r) old = ground arith

-- What the form asks for a number of seconds: one that is read and is not 0, or the old one.
abbrev pub asked_secs : Option ℕ → Option ℕ → Option ℕ
asked_secs none old = old
asked_secs (some zero) old = old
asked_secs (some (suc n)) old = some (suc n)

kept_secs : (o old : Option ℕ) → or_kept? (changed_secs o old) old ≡ asked_secs o old
unfolding changed_secs differs
kept_secs none old = refl
kept_secs (some zero) old = refl
kept_secs (some (suc n)) none = refl
kept_secs (some (suc n)) (some m) = ground arith

-- What the form asks for the interval: with a cron expression the old one.
abbrev pub asked_interval : Text → Option ℕ → Option ℕ → Option ℕ
asked_interval [] o old = asked_secs o old
asked_interval (c ∷ cs) o old = old

kept_interval :
    (cron interval : Text) (old : Option ℕ)
    → or_kept? (changed_interval cron interval old) old
      ≡ asked_interval cron (parse_interval interval) old
unfolding changed_interval
kept_interval [] interval old = kept_secs (parse_interval interval) old
kept_interval (c ∷ cs) interval old = refl

-- After the changes that a form sends, the job has what the form says: its model, description and
-- flags, its priority if that is a number from 1 to 10, its retries if they are a number, its
-- timeout if it is a positive interval, its interval if that is a positive one and the form has no
-- cron expression; what cannot be read keeps its old value.
pub applied-updates_of :
    (j : Job) (f : Form)
    → let k = applied (updates_of j f) j in
      (or_empty k.model ≡ f.model)
      × (or_empty k.description ≡ f.description)
      × (k.pinned ≡ f.pinned)
      × (k.enabled ≡ f.enabled)
      × (k.priority ≡ asked_priority (parse_int f.priority) j.priority)
      × (or_zero k.max_retries ≡ or_kept (parse_int f.max_retries) (or_zero j.max_retries))
      × (k.timeout ≡ asked_secs (parse_interval f.timeout) j.timeout)
      × (k.interval_seconds
          ≡ asked_interval f.cron_expression (parse_interval f.interval) j.interval_seconds)
unfolding updates_of
applied-updates_of j f = (
  kept_text f.model j.model,
  kept_text f.description j.description,
  kept_flag f.pinned j.pinned,
  kept_flag f.enabled j.enabled,
  kept_priority (parse_int f.priority) j.priority,
  kept_retries (parse_int f.max_retries) j.max_retries,
  kept_secs (parse_interval f.timeout) j.timeout,
  kept_interval f.cron_expression f.interval j.interval_seconds,
)
