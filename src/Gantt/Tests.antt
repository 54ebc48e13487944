-- ===== src/Gantt/Tests.antt =====
-- The chart on three jobs: runs of its functions, and its theorems at them.
use ollama_queue.Prelude.{
  false, ◌<◌, ℕ, zero, suc, ◌*◌, ◌<◌, ◌≡◌, ◌↔◌, refl, true, Option, none, some, List, [], ◌∷◌, map,
  All, Pairs, count,
}
use ollama_queue.Gantt.{
  second, row, id_eq, Job, duration_or_default, job_end, insert_job, sort_jobs, find_lane, put_lane,
  assign_from, assign_lanes, overlaps, pairs_with, get_conflicting_pairs, has_id, add_id, add_pairs,
  find_heavy_conflicts, tabulate, bucket_count, in_bucket, bump_buckets, add_jobs,
  build_density_buckets,
}
use ollama_queue.Gantt.Lanes.{InTurn, runs_at, assign_lanes-InTurn, assign_lanes_depth}
use ollama_queue.Gantt.Conflicts.{InConflict, find_heavy_conflicts_iff}
use ollama_queue.Gantt.Window.{Chart, behind, run_status, interval_or_hour}
use ollama_queue.Gantt.Density.{HaveDistinctIds}

abbrev job : ℕ → ℕ → Option ℕ → Job
job n start secs = record {
  id = row n;
  next_run = start * second;
  estimated_duration = secs;
  model_profile = "heavy";
}

-- The second has no estimate and takes ten minutes; the third starts while it runs.
abbrev three : List Job
three = job 3 700 (some (60 * second)) ∷ job 1 0 (some (100 * second)) ∷ job 2 200 none ∷ []

lanes_of_three : map (λ b. b.lane) (assign_lanes three) ≡ 0 ∷ 0 ∷ 1 ∷ []
unfolding assign_lanes assign_from sort_jobs insert_job find_lane put_lane job_end
    duration_or_default
lanes_of_three = refl

conflicts_of_three : find_heavy_conflicts three ≡ row 3 ∷ row 2 ∷ []
unfolding find_heavy_conflicts get_conflicting_pairs pairs_with overlaps add_pairs add_id has_id
    id_eq job_end duration_or_default
conflicts_of_three = refl

buckets_of_three : build_density_buckets three 0 (3600 * second) ≡ 3 ∷ 0 ∷ []
unfolding build_density_buckets add_jobs bump_buckets tabulate in_bucket bucket_count job_end
    duration_or_default
buckets_of_three = refl

three_distinct : HaveDistinctIds three
unfolding id_eq
three_distinct = ((refl, (refl, tt)), ((refl, tt), (tt, tt)))

assign_lanes-InTurn_example : Pairs InTurn (assign_lanes three)
assign_lanes-InTurn_example = assign_lanes-InTurn three

assign_lanes_depth_example :
    All (λ b. b.lane < count (runs_at b.next_run) three) (assign_lanes three)
assign_lanes_depth_example = assign_lanes_depth three

find_heavy_conflicts_iff_example :
    (has_id (find_heavy_conflicts three) (row 2) ≡ true) ↔ InConflict (row 2) three
find_heavy_conflicts_iff_example = find_heavy_conflicts_iff three (row 2)

abbrev slots_down : ℕ → List ℕ
slots_down zero = []
slots_down (suc n) = n ∷ slots_down n

abbrev day : List ℕ
day = slots_down 48

-- A job with a cron expression has no interval; it counts as late 63 minutes after its last run.
daily_is_late : run_status (some second) none (3800 * second) ≡ behind
unfolding run_status interval_or_hour
daily_is_late = refl

abbrev whole : Chart
whole = record {
  selected_bar = some (row 2);
  zoomed_anchor = none;
  bar_runs = [];
  fetching = [];
  is_loading = false;
}
