-- ===== src/Eval/Tests.antt =====
-- Runs 7 and 9, of which one is cancelled while it is asked for.
use ollama_queue.Prelude.{
  ℕ, ◌↔◌, false, Option, String, All, Pairs, arith, ◌≡◌, refl, true, none, some, List, [], ◌∷◌,
}
use ollama_queue.Eval.{
  Progress, Event, run_started, tick_of, runs_reply, run, step, opened, start_eval_poll,
  stop_eval_poll, set_interval, is_active, show_runs, adopt, stop_from, detect,
}
use ollama_queue.Eval.Panel.{IsSteady, run-IsSteady}
use ollama_queue.Eval.Trends as Trends
use ollama_queue.Eval.Trends.Growing.{NoMoreThan, normalize_trends-growing}
use ollama_queue.Eval.Trigger as Trigger
use ollama_queue.Eval.Trigger.Sent as Sent
use ollama_queue.Text.{codes}
use ollama_queue.Forms.{nan}

abbrev seven : Progress
seven = record { run_id = 7; status = "generating" }

abbrev seven_over : Progress
seven_over = record { run_id = 7; status = "complete" }

-- Run 7 is polled, and the first request is under way.
abbrev asked : List Event
asked = run_started 7 "queued" ∷ tick_of 1 ∷ []

run-IsSteady_example : IsSteady (run (opened (some seven)) (asked))
run-IsSteady_example = run-IsSteady (some seven) asked

-- A run that was started elsewhere is polled.
detected :
    (run (opened none) (runs_reply (some (record { id = 3; status = "judging" } ∷ [])) ∷ [])).live
    ≡ (1, 3) ∷ []
unfolding run step show_runs adopt detect is_active start_eval_poll stop_eval_poll stop_from
    set_interval
detected = refl

abbrev with_items : ℕ → Trends.RawRun
with_items n = record { timestamp = some 1; started_at = ""; item_count = some n }

abbrev raw_trends : Trends.RawTrends
raw_trends = record {
  status = none;
  variants = some (
      record {
        id = "A";
        trend_direction = some "stable";
        judge_agreement_rate = none;
        runs = some (with_items 4 ∷ with_items 4 ∷ with_items 2 ∷ []);
      }
      ∷ []);
}

-- No date is read.
abbrev no_time : String → Option ℕ
no_time s = none

normalize_trends-growing_example :
    let trends = Trends.normalize_trends no_time raw_trends in
    (trends.item_count_growing ≡ false) ↔ All (λ v. Pairs NoMoreThan v.runs) trends.variants
normalize_trends-growing_example = normalize_trends-growing no_time raw_trends

abbrev new_panel : Trigger.TriggerPanel
new_panel = record {
  is_open = true;
  selected_variants = [];
  settings = record {
    per_cluster = nan;
    judge_model = codes "m";
    judge_mode = codes "bayesian";
    run_mode = codes "batch";
    mode_sub_fields = [];
    dry_run = false;
    gen_backend = [];
    judge_backend = [];
  };
  busy = false;
  sent = [];
  active_run = none;
  polled = [];
  reloads = 0;
}

abbrev choices : List Sent.Event
choices =
    Sent.submit
    ∷ Sent.toggle (codes "A")
    ∷ Sent.toggle (codes "B")
    ∷ Sent.toggle (codes "A")
    ∷ Sent.submit
    ∷ Sent.start false (some 5)
    ∷ Sent.submit
    ∷ []

new_panel-IsOrderly : Sent.IsOrderly new_panel
new_panel-IsOrderly = record { chosen = λ u. omega arith; fair = tt }

run-IsOrderly_example : Sent.IsOrderly (Sent.run new_panel choices)
run-IsOrderly_example = Sent.run-IsOrderly choices new_panel new_panel-IsOrderly
