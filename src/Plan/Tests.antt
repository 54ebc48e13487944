-- ===== src/Plan/Tests.antt =====
-- Runs of the Plan page's functions, and instances of its theorems.
use ollama_queue.Prelude.{
  Option, filter, ℕ, ◌+◌, ◌≤◌, ◌≡◌, ◌≢◌, refl, Bool, true, false, none, some, List, [], ◌∷◌, ◌++◌,
  count, arith, if◌then◌else◌, ◌==◌,
}
use ollama_queue.Text.{Text, text_eq, codes, span_digits, trim, to_lower, value_from}
use ollama_queue.Plan.{group_next_due, earlier, Job as PlanJob}
use ollama_queue.Plan.Interval.{format_interval, parse_interval, parse_interval-format_interval}
use ollama_queue.Plan.Groups.{TaggedJob, Group, tag_of, is_inherited, group_jobs_by_tag}
use ollama_queue.Plan.Groups.Each.{has_tag, is_group}
use ollama_queue.Plan.Groups.Order.{group_of, group_jobs_by_tag_each, group_jobs_by_tag_throws}
use ollama_queue.Plan.Detail.{
  Job, Form, or_empty, or_zero, open_form, parse_int, updates_of, get_runs, Panel, is_id, find_job,
  toggle_job_detail, handle_detail_save,
}
use ollama_queue.Plan.Detail.Save.{
  applied, or_kept, asked_priority, asked_secs, asked_interval, untouched_save, applied-updates_of,
}
use ollama_queue.Plan.Detail.TwoClicks.{
  Click, ask, confirm, cancel, reply, run, deletes, asks, confirms, pending, run-deletes-le,
}

parse_hours_and_half : parse_interval (codes " 1.5H ") ≡ some 5400
unfolding parse_interval span_digits trim to_lower value_from
parse_hours_and_half = refl

-- A fraction of a second is rounded down to no time at all.
parse_fraction : parse_interval (codes "0.4s") ≡ some 0
unfolding parse_interval span_digits trim to_lower value_from
parse_fraction = refl

parse_week : parse_interval (codes "1w") ≡ none
unfolding parse_interval span_digits trim to_lower
parse_week = refl

abbrev nightly : Job
nightly = record {
  id = 7;
  interval_seconds = some 86400;
  cron_expression = none;
  priority = 5;
  model = some (codes "m");
  timeout = some 600;
  max_retries = none;
  pinned = false;
  enabled = true;
  description = none;
}

abbrev nightly_off : Job
nightly_off = record nightly { enabled = false }

abbrev closed_panel : Panel
closed_panel = record {
  expanded = none;
  form = none;
  saving = false;
  deleting = false;
  pending_delete = none;
  sent = [];
}

abbrev typed : Form
typed = record (open_form nightly) {
  interval = codes "2h";
  priority = codes "3";
  model = [];
  timeout = codes "soon";
}

parse_interval-format_interval_example :
    parse_interval (format_interval (some 5400)) ≡ (if 5400 == 0 then none else some 5400)
parse_interval-format_interval_example = parse_interval-format_interval 5400 (omega arith)

untouched_save_example :
    handle_detail_save (nightly ∷ []) (toggle_job_detail 7 (nightly ∷ []) closed_panel)
    ≡ record closed_panel { expanded = none; form = none; sent = [] ++ get_runs 7 ∷ [] }
untouched_save_example =
    untouched_save 7 nightly (nightly ∷ []) closed_panel (unfold is_id in refl) refl
      (unfold find_job in refl) (omega arith) (omega arith)

applied-updates_of_example :
    let k = applied (updates_of nightly typed) nightly in
    (or_empty k.model ≡ typed.model)
    × (or_empty k.description ≡ typed.description)
    × (k.pinned ≡ typed.pinned)
    × (k.enabled ≡ typed.enabled)
    × (k.priority ≡ asked_priority (parse_int typed.priority) nightly.priority)
    × (or_zero k.max_retries ≡ or_kept (parse_int typed.max_retries) (or_zero nightly.max_retries))
    × (k.timeout ≡ asked_secs (parse_interval typed.timeout) nightly.timeout)
    × (k.interval_seconds
        ≡ asked_interval typed.cron_expression
            (parse_interval typed.interval)
            nightly.interval_seconds)
applied-updates_of_example = applied-updates_of nightly typed

true-ne-false : true ≢ false
true-ne-false = cc

abbrev clicks : List Click
clicks = ask 7 ∷ ask 8 ∷ confirm 7 ∷ confirm 8 ∷ reply true ∷ ask 7 ∷ cancel ∷ []

run-deletes-le_example :
    (count (deletes 8) (run closed_panel clicks).sent
        + pending 8 (run closed_panel clicks).pending_delete
      ≤ count (deletes 8) closed_panel.sent
        + pending 8 closed_panel.pending_delete
        + count (asks 8) clicks)
    × (count (deletes 8) (run closed_panel clicks).sent
        ≤ count (deletes 8) closed_panel.sent + count (confirms 8) clicks)
run-deletes-le_example = run-deletes-le 8 clicks closed_panel

abbrev due_at : ℕ → Bool → PlanJob
due_at n on = record {
  enabled = on;
  next_run = n;
  model_profile = "ollama";
  estimated_duration = none;
}

abbrev group : List PlanJob
group = due_at 50 true ∷ due_at 10 false ∷ due_at 40 true ∷ []

group_due : group_next_due group ≡ some 40
unfolding group_next_due earlier
group_due = refl

abbrev tagged : ℕ → Option Text → TaggedJob
tagged n t = record { id = n; tag = t }

abbrev mixed : List TaggedJob
mixed =
    tagged 1 none
    ∷ tagged 2 (some (codes "zoo"))
    ∷ tagged 3 (some (codes "aria"))
    ∷ tagged 4 (some [])
    ∷ []

group_jobs_by_tag_each_example :
    (gs : List Group) × (group_jobs_by_tag mixed ≡ some gs)
    × ((t : Text) → filter (is_group t) gs ≡ group_of t (filter (has_tag t) mixed))
group_jobs_by_tag_each_example =
    group_jobs_by_tag_each mixed
      (unfold is_inherited tag_of text_eq in (refl, (refl, (refl, (refl, tt)))))

-- A tag that is the name of a member of every object.
inherited_tag : group_jobs_by_tag (tagged 1 (some (codes "constructor")) ∷ []) ≡ none
inherited_tag =
    group_jobs_by_tag_throws (tagged 1 (some (codes "constructor")) ∷ [])
      (unfold is_inherited tag_of text_eq in refl)
