-- ===== src/Gantt.antt =====
-- components/GanttChart.jsx: the pure functions of the schedule chart. Times are natural numbers
-- of microseconds, so `second` below is one second of the source.
pub mod Lanes
pub mod Conflicts
pub mod Density
pub mod LoadMap
pub mod Window
mod Tests
use ollama_queue.Prelude.{
  ℕ, zero, suc, ◌+◌, ◌*◌, String, Bool, false, ◌&&◌, Option, none, some, List, [], ◌∷◌, ltb, leb,
  ◌==◌, if◌then◌else◌, str_eq, ◌/◌, ◌%◌, ◌-◌, ◌||◌, ◌++◌, true, length, filter, get_elem?, map,
}

abbrev pub second : ℕ
second = 1000000

-- A recurring job has the number of its row, a block of a scheduled eval run a text.
pub data JobId : Type 0 where
  row : ℕ → JobId
  block : String → JobId

pub id_eq : JobId → JobId → Bool
id_eq (row a) (row b) = a == b
id_eq (block s) (block t) = str_eq s t
id_eq (row _) (block _) = false
id_eq (block _) (row _) = false

pub record Job : Type 0 where
  pub id : JobId
  pub next_run : ℕ
  pub estimated_duration : Option ℕ
  pub model_profile : String

-- `estimated_duration || 600`: a missing and a zero duration are both replaced.
unfoldable pub duration_or_default : Option ℕ → ℕ
duration_or_default none = 600 * second
duration_or_default (some zero) = 600 * second
duration_or_default (some (suc n)) = suc n

unfoldable pub job_end : Job → ℕ
job_end j = j.next_run + duration_or_default j.estimated_duration

-- `[...jobs].sort((a, b) => a.next_run - b.next_run)`, which keeps the order of ties.
pub insert_job : Job → List Job → List Job
insert_job j [] = j ∷ []
insert_job j (k ∷ ks) =
    let rest = insert_job j ks in if leb j.next_run k.next_run then j ∷ k ∷ ks else k ∷ rest

pub sort_jobs : List Job → List Job
sort_jobs [] = []
sort_jobs (j ∷ js) = insert_job j (sort_jobs js)

pub record LaneJob : Type 0 where
  pub job : Job
  pub open job use *
  pub lane : ℕ
  pub end : ℕ

-- `laneEnds.findIndex(laneEnd => laneEnd <= start)`, with the length of the array for -1.
pub find_lane : ℕ → List ℕ → ℕ
find_lane start [] = 0
find_lane start (e ∷ es) = if leb e start then 0 else suc (find_lane start es)

-- `laneEnds[laneIdx] = end`, where the index is at most the length.
pub put_lane : List ℕ → ℕ → ℕ → List ℕ
put_lane [] i e = e ∷ []
put_lane (x ∷ xs) zero e = e ∷ xs
put_lane (x ∷ xs) (suc i) e = x ∷ put_lane xs i e

-- The callback of `sorted.map`, over the array `laneEnds` that it keeps.
pub assign_from : List ℕ → List Job → List LaneJob
assign_from ends [] = []
assign_from ends (j ∷ js) =
    let lane : ℕ = find_lane j.next_run ends in
    record { job = j; lane = lane; end = job_end j }
    ∷ assign_from (put_lane ends lane (job_end j)) js

pub assign_lanes : List Job → List LaneJob
assign_lanes jobs = assign_from [] (sort_jobs jobs)

-- The test of `getConflictingPairs`.
unfoldable pub overlaps : Job → Job → Bool
overlaps a b = ltb a.next_run (job_end b) && ltb b.next_run (job_end a)

-- `getConflictingPairs`: the inner loop over `j`, then the outer one over `i`.
pub pairs_with : Job → List Job → List (Job × Job)
pairs_with a [] = []
pairs_with a (b ∷ bs) = let rest = pairs_with a bs in if overlaps a b then (a, b) ∷ rest else rest

pub get_conflicting_pairs : List Job → List (Job × Job)
get_conflicting_pairs [] = []
get_conflicting_pairs (a ∷ js) = pairs_with a js ++ get_conflicting_pairs js

-- A `Set` of identifiers, in the order of insertion.
pub has_id : List JobId → JobId → Bool
has_id [] x = false
has_id (y ∷ ys) x = id_eq y x || has_id ys x

unfoldable pub add_id : JobId → List JobId → List JobId
add_id x ids = if has_id ids x then ids else ids ++ x ∷ []

pub add_pairs : List JobId → List (Job × Job) → List JobId
add_pairs ids [] = ids
add_pairs ids ((a, b) ∷ ps) = add_pairs (add_id b.id (add_id a.id ids)) ps

abbrev pub is_heavy : Job → Bool
is_heavy j = str_eq j.model_profile "heavy"

pub find_heavy_conflicts : List Job → List JobId
find_heavy_conflicts jobs = add_pairs [] (get_conflicting_pairs (filter is_heavy jobs))

-- `Array.from({ length: n }, (_, i) => f(i))`, from the index `i` on.
pub tabulate {ℓ} : {A : Type ℓ} → (ℕ → A) → ℕ → ℕ → List A
tabulate f i zero = []
tabulate f i (suc n) = f i ∷ tabulate f (i + 1) n

abbrev pub density_bucket : ℕ
density_bucket = 1800 * second

-- `Math.round(windowSecs / DENSITY_BUCKET_SECS)`.
unfoldable pub bucket_count : ℕ → ℕ
bucket_count window = (2 * window + density_bucket) / (2 * density_bucket)

-- A job meets bucket `i` of `n`. The bounds `now + i * (window / n)` are fractions, so both sides
-- of each comparison are multiplied by `n`.
unfoldable pub in_bucket : ℕ → ℕ → ℕ → ℕ → Job → Bool
in_bucket now window n i j =
    ltb (j.next_run * n) (now * n + (i + 1) * window) && ltb (now * n + i * window) (job_end j * n)

-- The loops of `buildDensityBuckets` over the buckets (from the index `i` on) and over the jobs.
pub bump_buckets : (ℕ → Bool) → ℕ → List ℕ → List ℕ
bump_buckets test i [] = []
bump_buckets test i (c ∷ cs) = (if test i then c + 1 else c) ∷ bump_buckets test (i + 1) cs

pub add_jobs : (ℕ → Job → Bool) → List ℕ → List Job → List ℕ
add_jobs test cs [] = cs
add_jobs test cs (j ∷ js) = add_jobs test (bump_buckets (λ i. test i j) 0 cs) js

pub build_density_buckets : List Job → ℕ → ℕ → List ℕ
build_density_buckets jobs now window =
    let n = bucket_count window in add_jobs (in_bucket now window n) (tabulate (λ _. 0) 0 n) jobs

-- The `ids` of one bucket.
pub collect_ids : (Job → Bool) → List JobId → List Job → List JobId
collect_ids test ids [] = ids
collect_ids test ids (j ∷ js) = collect_ids test (if test j then add_id j.id ids else ids) js

pub build_bucket_job_ids : List Job → ℕ → ℕ → ℕ → List (List JobId)
build_bucket_job_ids jobs now window n =
    tabulate (λ i. collect_ids (in_bucket now window n i) [] jobs) 0 n

-- `Math.floor(secondsInDay / DENSITY_BUCKET_SECS)`. The local time of day is the environment's.
abbrev pub now_slot : ℕ → ℕ
now_slot seconds_in_day = seconds_in_day / 1800

-- An element out of range is `undefined`, here `none`.
pub align_load_map_to_now {ℓ} : {A : Type ℓ} → List A → ℕ → List (Option A)
align_load_map_to_now slots seconds_in_day =
    let n = length slots in tabulate (λ i. get_elem? slots ((now_slot seconds_in_day + i) % n)) 0 n

-- `suggestDisplayIndices`, for one suggested slot of the 48 of a day.
unfoldable pub display_index : ℕ → ℕ → ℕ
display_index slot seconds_in_day = (slot + 48 - now_slot seconds_in_day) % 48

-- `visibleJobs` of the chart: the jobs that meet the window `now … now + window`.
unfoldable pub is_visible : ℕ → ℕ → Job → Bool
is_visible now window j = ltb j.next_run (now + window) && ltb now (job_end j)
