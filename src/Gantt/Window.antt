-- ===== src/Gantt/Window.antt =====
-- components/GanttChart.jsx: the window that the chart shows, the click on a bar that zooms in, and
-- the two states of a job, by the clock (runStatus) and by its exit code (lastRunOutcome). The left
-- edge of the window may lie before the time 0: it is kept as the time half a window later.
use ollama_queue.Prelude.{
  ℕ, zero, suc, ◌+◌, ◌*◌, ◌<◌, ◌≡◌, refl, ap, ◌∙◌, Bool, true, false, not, ◌&&◌, Option, none, some,
  List, [], ◌∷◌, leb, ltb, if◌then◌else◌, arith, filter, max, All, All-map, any, eq_iff,
}
use ollama_queue.Gantt.{
  second, JobId, row, block, id_eq, Job, LaneJob, job_end, duration_or_default,
}

pub data RunStatus : Type 0 where
  never_run_yet on_schedule behind : RunStatus

-- `intervalSeconds || 3600`
unfoldable pub interval_or_hour : Option ℕ → ℕ
interval_or_hour none = 3600 * second
interval_or_hour (some zero) = 3600 * second
interval_or_hour (some (suc n)) = suc n

-- `drift <= interval * 0.05`, twenty times and without the differences.
unfoldable pub run_status : Option ℕ → Option ℕ → ℕ → RunStatus
unfolding interval_or_hour
run_status none interval now = never_run_yet
run_status (some zero) interval now = never_run_yet
run_status (some (suc t)) interval now =
    if leb (20 * now) (20 * suc t + 21 * interval_or_hour interval) then on_schedule else behind

pub data Outcome : Type 0 where
  never_run succeeded unknown : Outcome
  exited : ℕ → Outcome

unfoldable pub last_run_outcome : Option ℕ → Option ℕ → Outcome
last_run_outcome code none = never_run
last_run_outcome code (some zero) = never_run
last_run_outcome none (some (suc t)) = unknown
last_run_outcome (some zero) (some (suc t)) = succeeded
last_run_outcome (some (suc c)) (some (suc t)) = exited (suc c)

abbrev zoom_window : ℕ
zoom_window = 2 * 3600 * second

pub record Chart : Type 0 where
  pub selected_bar : Option JobId
  pub zoomed_anchor : Option ℕ
  pub bar_runs : List JobId  -- the jobs whose runs were brought
  pub fetching : List JobId  -- the requests of runs that are under way
  pub is_loading : Bool

-- `zoomedAnchor ? … : …`: 0 is no anchor. The width, and the left edge and an hour.
unfoldable pub window_secs : Option ℕ → ℕ → ℕ
window_secs none hours = hours * 3600 * second
window_secs (some zero) hours = hours * 3600 * second
window_secs (some (suc t)) hours = zoom_window

unfoldable pub left_and_hour : Option ℕ → ℕ → ℕ
left_and_hour none now = now + 3600 * second
left_and_hour (some zero) now = now + 3600 * second
left_and_hour (some (suc t)) now = suc t

-- `job.next_run < windowEnd && jobEnd > now`
unfoldable pub is_shown : Option ℕ → ℕ → ℕ → Job → Bool
unfolding window_secs left_and_hour job_end
is_shown anchor hours now j =
    ltb (j.next_run + 3600 * second) (left_and_hour anchor now + window_secs anchor hours)
    && ltb (left_and_hour anchor now) (job_end j + 3600 * second)

unfoldable pub lane_count : List LaneJob → ℕ
lane_count [] = 1
lane_count (b ∷ bs) = max (b.lane + 1) (lane_count bs)

unfoldable pub is_selected : Job → Option JobId → Bool
unfolding id_eq
is_selected j none = false
is_selected j (some i) = id_eq i j.id

has_runs : JobId → List JobId → Bool
unfolding id_eq
has_runs i is = any (id_eq i) is

-- The click on a bar that is not selected.
unfoldable pub zoom_to : Job → Chart → Chart
unfolding has_runs
zoom_to j c =
    let z : Chart = record c { selected_bar = some j.id; zoomed_anchor = some j.next_run } in
    if has_runs j.id c.bar_runs
    then z
    else record z { fetching = j.id ∷ c.fetching; is_loading = true }

unfoldable pub zoom_out : Chart → Chart
zoom_out c = record c { selected_bar = none; zoomed_anchor = none }

unfoldable pub handle_bar_click : Job → Chart → Chart
unfolding is_selected zoom_out zoom_to
handle_bar_click j c = if is_selected j c.selected_bar then zoom_out c else zoom_to j c

-- The end of a request of runs: they came, or it failed.
unfoldable pub runs_brought : JobId → Bool → Chart → Chart
unfolding id_eq
runs_brought i true c = record c {
  bar_runs = i ∷ c.bar_runs;
  fetching = filter (λ k. not (id_eq k i)) c.fetching;
  is_loading = false;
}
runs_brought i false c = record c {
  fetching = filter (λ k. not (id_eq k i)) c.fetching;
  is_loading = false;
}

id_eq_refl : (i : JobId) → id_eq i i ≡ true
unfolding id_eq
id_eq_refl (row n) = ground arith
id_eq_refl (block s) = ground (arith, eq_iff s s)

if_bar :
    (x : Bool) (c d : Chart)
    → c.selected_bar ≡ d.selected_bar
    → (if x then c else d).selected_bar ≡ d.selected_bar
if_bar true c d e = e
if_bar false c d e = refl

if_anchor :
    (x : Bool) (c d : Chart)
    → c.zoomed_anchor ≡ d.zoomed_anchor
    → (if x then c else d).zoomed_anchor ≡ d.zoomed_anchor
if_anchor true c d e = e
if_anchor false c d e = refl

zoom_to-selected : (j : Job) (c : Chart) → (zoom_to j c).selected_bar ≡ some j.id
unfolding zoom_to
zoom_to-selected j c = if_bar (has_runs j.id c.bar_runs) _ _ refl

zoom_to-anchor : (j : Job) (c : Chart) → (zoom_to j c).zoomed_anchor ≡ some j.next_run
unfolding zoom_to
zoom_to-anchor j c = if_anchor (has_runs j.id c.bar_runs) _ _ refl

left_zoomed : (n now : ℕ) → 0 < n → left_and_hour (some n) now ≡ n
unfolding left_and_hour
left_zoomed zero now h = absurd (omega arith)
left_zoomed (suc n) now h = refl

width_zoomed : (n hours : ℕ) → 0 < n → window_secs (some n) hours ≡ zoom_window
unfolding window_secs
width_zoomed zero hours h = absurd (omega arith)
width_zoomed (suc n) hours h = refl

duration_or_default-pos : (o : Option ℕ) → 0 < duration_or_default o
unfolding duration_or_default
duration_or_default-pos none = omega arith
duration_or_default-pos (some zero) = omega arith
duration_or_default-pos (some (suc n)) = omega arith

shown_zoomed :
    (hours now : ℕ) (j : Job) → 0 < j.next_run → is_shown (some j.next_run) hours now j ≡ true
unfolding is_shown job_end
shown_zoomed hours now j h =
    rw (left_zoomed j.next_run now h, width_zoomed j.next_run hours h)
      (ground (arith, duration_or_default-pos j.estimated_duration))

-- A click on a bar of a job that is due after the time 0 shows a window in which the job is, wherever
-- the window was; a second click gives the whole window back.
pub handle_bar_click_shows :
    (j : Job) (c : Chart) (hours now : ℕ)
    → is_selected j c.selected_bar ≡ false
    → 0 < j.next_run
    → let zoomed = handle_bar_click j c in
      let again = handle_bar_click j zoomed in
      (is_shown zoomed.zoomed_anchor hours now j ≡ true)
      × (again.zoomed_anchor ≡ none)
      × (again.selected_bar ≡ none)
unfolding handle_bar_click
handle_bar_click_shows j c hours now h due =
    let first : handle_bar_click j c ≡ zoom_to j c =
      ap (λ b. if b then zoom_out c else zoom_to j c) h in
    let hit : is_selected j (zoom_to j c).selected_bar ≡ true =
      ap (is_selected j) (zoom_to-selected j c) ∙ (unfold is_selected in id_eq_refl j.id) in
    let second_click : handle_bar_click j (zoom_to j c) ≡ zoom_out (zoom_to j c) =
      ap (λ b. if b then zoom_out (zoom_to j c) else zoom_to j (zoom_to j c)) hit in
    let twice = ap (handle_bar_click j) first ∙ second_click in
    (
      ap (λ d. is_shown d.zoomed_anchor hours now j) first
          ∙ ap (λ o. is_shown o hours now j) (zoom_to-anchor j c)
          ∙ shown_zoomed hours now j due,
      ap (λ d. d.zoomed_anchor) twice ∙ (unfold zoom_out in refl),
      ap (λ d. d.selected_bar) twice ∙ (unfold zoom_out in refl),
    )

-- No bar lies below the chart: its lane is one of those that the height counts.
pub lane_count-above : (bs : List LaneJob) → All (λ b. b.lane < lane_count bs) bs
unfolding lane_count
lane_count-above [] = tt
lane_count-above (b ∷ bs) =
    (omega arith, All-map (λ c h. omega (arith, h)) bs (lane_count-above bs))
