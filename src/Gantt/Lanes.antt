-- ===== src/Gantt/Lanes.antt =====
-- `assign_lanes`: the bars of one lane, the depth of the lanes, and the order of the bars.
use mathlib.Core.List.{Perm}
use mathlib.Core.List.Perm
use ollama_queue.Prelude.{
  ℕ, zero, suc, ◌+◌, ◌≤◌, ◌<◌, ◌≡◌, refl, ap, Bool, Bool-cases, inl, inr, leb→le, ◌&&◌, List, [],
  ◌∷◌, map, arith, ltb, leb, if◌then◌else◌, All, All-map, Pairs, count,
}
use ollama_queue.Gantt.{
  Job, LaneJob, duration_or_default, job_end, insert_job, sort_jobs, find_lane, put_lane,
  assign_from, assign_lanes,
}

-- The end of the last bar in a lane, 0 for a lane that is not open.
abbrev lane_end : List ℕ → ℕ → ℕ
lane_end [] i = 0
lane_end (e ∷ es) zero = e
lane_end (e ∷ es) (suc i) = lane_end es i

lane_end-find_lane : (s : ℕ) (ends : List ℕ) → lane_end ends (find_lane s ends) ≤ s
unfolding find_lane
lane_end-find_lane s [] = omega arith
lane_end-find_lane s (e ∷ es) = ground (arith, lane_end-find_lane s es)

lane_end-put_lane_self :
    (s e : ℕ) (ends : List ℕ) → lane_end (put_lane ends (find_lane s ends) e) (find_lane s ends) ≡ e
unfolding find_lane put_lane
lane_end-put_lane_self s e [] = refl
lane_end-put_lane_self s e (x ∷ xs) = ground (arith, lane_end-put_lane_self s e xs)

lane_end-le-put_lane :
    (s e : ℕ) (ends : List ℕ) (m : ℕ)
    → s ≤ e
    → lane_end ends m ≤ lane_end (put_lane ends (find_lane s ends) e) m
unfolding find_lane put_lane
lane_end-le-put_lane s e [] m h = omega arith
lane_end-le-put_lane s e (x ∷ xs) zero h = ground arith
lane_end-le-put_lane s e (x ∷ xs) (suc m) h = ground (arith, lane_end-le-put_lane s e xs m)

next_run-lt-job_end : (j : Job) → j.next_run < job_end j
unfolding job_end duration_or_default
next_run-lt-job_end j = ground arith

-- Every bar starts at or after the end that its lane had before.
lane_end-le-next_run :
    (ends : List ℕ) (js : List Job)
    → All (λ b. lane_end ends b.lane ≤ b.next_run) (assign_from ends js)
unfolding assign_from
lane_end-le-next_run ends [] = tt
lane_end-le-next_run ends (j ∷ js) = (
  lane_end-find_lane j.next_run ends,
  All-map
      (λ b h. omega (
        arith,
        h,
        lane_end-le-put_lane j.next_run (job_end j) ends b.lane
            (omega (arith, next_run-lt-job_end j)),
      ))
      _ (lane_end-le-next_run (put_lane ends (find_lane j.next_run ends) (job_end j)) js),
)

abbrev pub InTurn : LaneJob → LaneJob → Type 0
InTurn a b = a.lane ≡ b.lane → a.end ≤ b.next_run

assign_from-InTurn : (ends : List ℕ) (js : List Job) → Pairs InTurn (assign_from ends js)
unfolding assign_from
assign_from-InTurn ends [] = tt
assign_from-InTurn ends (j ∷ js) = (
  All-map (λ b h e. grind (arith, h, e, lane_end-put_lane_self j.next_run (job_end j) ends)) _
      (lane_end-le-next_run (put_lane ends (find_lane j.next_run ends) (job_end j)) js),
  assign_from-InTurn (put_lane ends (find_lane j.next_run ends) (job_end j)) js,
)

-- Of two bars in one lane the earlier one has ended when the later one starts.
pub assign_lanes-InTurn : (jobs : List Job) → Pairs InTurn (assign_lanes jobs)
unfolding assign_lanes
assign_lanes-InTurn jobs = assign_from-InTurn [] (sort_jobs jobs)

-- How many lanes are still busy after `t`, and whether a job runs at `t`.
abbrev busy : ℕ → List ℕ → ℕ
busy t ends = count (ltb t) ends

abbrev pub runs_at : ℕ → Job → Bool
runs_at t j = leb j.next_run t && ltb t (job_end j)

find_lane-le-busy : (s : ℕ) (ends : List ℕ) → find_lane s ends ≤ busy s ends
unfolding find_lane
find_lane-le-busy s [] = omega arith
find_lane-le-busy s (e ∷ es) = ground (arith, find_lane-le-busy s es)

busy-put_lane :
    (t s e : ℕ) (ends : List ℕ)
    → s ≤ t
    → busy t (put_lane ends (find_lane s ends) e) ≡ busy t ends + (if ltb t e then 1 else 0)
unfolding find_lane put_lane
busy-put_lane t s e [] h = ground arith
busy-put_lane t s e (x ∷ xs) h = ground (arith, busy-put_lane t s e xs)

-- The jobs start at `s` at the earliest, and in order.
abbrev pub StartsFrom : ℕ → List Job → Type 0
StartsFrom s [] = Unit
StartsFrom s (j ∷ js) = (s ≤ j.next_run) × StartsFrom j.next_run js

StartsFrom-insert_job :
    (s : ℕ) (j : Job) (ks : List Job)
    → s ≤ j.next_run
    → StartsFrom s ks
    → StartsFrom s (insert_job j ks)
unfolding insert_job
StartsFrom-insert_job s j [] h k = (h, tt)
StartsFrom-insert_job s j (x ∷ ks) h (a, b) = elim (Bool-cases (leb j.next_run x.next_run)) [
  | inl e ↦ rw e (h, (leb→le _ _ e, b))
  | inr e ↦ rw e (a, StartsFrom-insert_job x.next_run j ks (ground arith) b)
]

StartsFrom-sort_jobs : (js : List Job) → StartsFrom 0 (sort_jobs js)
unfolding sort_jobs
StartsFrom-sort_jobs [] = tt
StartsFrom-sort_jobs (j ∷ js) =
    StartsFrom-insert_job 0 j (sort_jobs js) (omega arith) (StartsFrom-sort_jobs js)

-- `placed t` bounds the lanes busy after `t` by the jobs placed so far that run at `t`.
assign_from_depth :
    (s : ℕ) (ends : List ℕ) (placed : ℕ → ℕ) (js : List Job)
    → ((t : ℕ) → s ≤ t → busy t ends ≤ placed t)
    → StartsFrom s js
    → All (λ b. b.lane < placed b.next_run + count (runs_at b.next_run) js) (assign_from ends js)
unfolding assign_from
assign_from_depth s ends placed [] inv from = tt
assign_from_depth s ends placed (j ∷ js) inv (h, from) = (
  ground (arith, inv j.next_run h, find_lane-le-busy j.next_run ends, next_run-lt-job_end j),
  All-map (λ b k. ground (arith, k)) _
      (assign_from_depth j.next_run (put_lane ends (find_lane j.next_run ends) (job_end j))
        (λ t. placed t + (if runs_at t j then 1 else 0)) js
        (λ t k. ground (arith, busy-put_lane t j.next_run (job_end j) ends k, inv t)) from),
)

count-insert_job :
    (p : Job → Bool) (j : Job) (ks : List Job) → count p (insert_job j ks) ≡ count p (j ∷ ks)
unfolding insert_job
count-insert_job p j [] = refl
count-insert_job p j (k ∷ ks) = ground (arith, count-insert_job p j ks)

count-sort_jobs : (p : Job → Bool) (js : List Job) → count p (sort_jobs js) ≡ count p js
unfolding sort_jobs
count-sort_jobs p [] = refl
count-sort_jobs p (j ∷ js) =
    ground (arith, count-insert_job p j (sort_jobs js), count-sort_jobs p js)

-- A bar in lane k starts at a moment at which more than k of the jobs run, so the chart never has
-- more lanes than jobs that run at once.
pub assign_lanes_depth :
    (jobs : List Job) → All (λ b. b.lane < count (runs_at b.next_run) jobs) (assign_lanes jobs)
unfolding assign_lanes
assign_lanes_depth jobs =
    All-map (λ b h. omega (arith, h, count-sort_jobs (runs_at b.next_run) jobs)) _
      (assign_from_depth 0 [] (λ _. 0) (sort_jobs jobs) (λ t h. omega arith)
        (StartsFrom-sort_jobs jobs))

insert_job-perm : (j : Job) (ks : List Job) → Perm (insert_job j ks) (j ∷ ks)
unfolding insert_job
insert_job-perm j [] = Perm.refl _
insert_job-perm j (k ∷ ks) = elim (Bool-cases (leb j.next_run k.next_run)) [
  | inl e ↦ rw e (Perm.refl _)
  | inr e ↦ rw e (Perm.trans (Perm.cons k (insert_job-perm j ks)) (Perm.swap _ _ _))
]

sort_jobs-perm : (js : List Job) → Perm (sort_jobs js) js
unfolding sort_jobs
sort_jobs-perm [] = Perm.refl _
sort_jobs-perm (j ∷ js) =
    Perm.trans (insert_job-perm j (sort_jobs js)) (Perm.cons j (sort_jobs-perm js))

map-job-assign_from : (ends : List ℕ) (js : List Job) → map (λ b. b.job) (assign_from ends js) ≡ js
unfolding assign_from
map-job-assign_from ends [] = refl
map-job-assign_from ends (j ∷ js) =
    ap (λ l. j ∷ l) (map-job-assign_from (put_lane ends (find_lane j.next_run ends) (job_end j)) js)

-- The bars are the given jobs, each once, in the order of their start.
pub assign_lanes-perm :
    (jobs : List Job)
    → Perm (map (λ b. b.job) (assign_lanes jobs)) jobs
      × StartsFrom 0 (map (λ b. b.job) (assign_lanes jobs))
unfolding assign_lanes
assign_lanes-perm jobs =
    rw (map-job-assign_from [] (sort_jobs jobs)) (sort_jobs-perm jobs, StartsFrom-sort_jobs jobs)
