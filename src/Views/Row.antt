-- ===== src/Views/Row.antt =====
-- components/eval/RunRow.jsx: how far the row of a run is unfolded, and the analysis that it loads,
-- as the events of its page. `A` is the type of an analysis.
pub mod Loads
use ollama_queue.Prelude.{
  ℕ, zero, suc, ◌+◌, String, Bool, true, false, not, ◌&&◌, Option, none, some, List, [], ◌∷◌, ◌==◌,
  leb, str_eq, if◌then◌else◌,
}

pub record RunRow (A : Type 0) : Type 0 where
  pub status : String  -- `run.status`
  pub level : ℕ
  pub analysis : Option A
  pub analysis_loading : Bool
  pub tooltip : Option String
  pub asked : ℕ  -- fetches of the analysis under way that `toggleLevel` has begun
  pub refreshing : ℕ  -- those that a recomputation has begun

abbrev pub is_none : {A : Type 0} → Option A → Bool
is_none none = true
is_none (some a) = false

unfoldable pub ask_analysis : {A : Type 0} → RunRow A → RunRow A
ask_analysis r = record r { analysis_loading = true; asked = r.asked + 1 }

unfoldable pub toggle_level : {A : Type 0} → ℕ → RunRow A → RunRow A
unfolding ask_analysis
toggle_level next r =
    let new_level : ℕ = if r.level == next then 1 else next in
    if leb 2 new_level && is_none r.analysis && str_eq r.status "complete"
    then ask_analysis (record r { level = new_level })
    else record r { level = new_level }

is_shown : Option String → String → Bool
is_shown none key = false
is_shown (some t) key = str_eq t key

unfoldable pub handle_tooltip : {A : Type 0} → String → RunRow A → RunRow A
unfolding is_shown
handle_tooltip key r = record r { tooltip = if is_shown r.tooltip key then none else some key }

-- `fetchRunAnalysis(id).then(…)`: the promise is never rejected, and is fulfilled with null for a
-- reply that is not ok or a failed request. One that does not wait cannot be.
unfoldable pub show_loaded : {A : Type 0} → Option A → ℕ → RunRow A → RunRow A
show_loaded found zero r = r
show_loaded found (suc n) r = record r { analysis = found; analysis_loading = false; asked = n }

show_recomputed : {A : Type 0} → Option A → ℕ → RunRow A → RunRow A
show_recomputed found zero r = r
show_recomputed found (suc n) r = record r { analysis = found; refreshing = n }

pub data RowEvent (A : Type 0) : Type 0 where
  open_row open_items : RowEvent A  -- `toggleLevel(2)`, `toggleLevel(3)`
  hint : String → RowEvent A
  analysis_loaded : Option A → RowEvent A
  recomputed : RowEvent A  -- the request of the button “Compute” is accepted
  analysis_reloaded : Option A → RowEvent A
  status_now : String → RowEvent A  -- the row is rendered with another status

unfoldable pub row_step : {A : Type 0} → RunRow A → RowEvent A → RunRow A
unfolding toggle_level handle_tooltip show_loaded show_recomputed
row_step r open_row = toggle_level 2 r
row_step r open_items = toggle_level 3 r
row_step r (hint key) = handle_tooltip key r
row_step r (analysis_loaded found) = show_loaded found r.asked r
row_step r recomputed = record r { refreshing = r.refreshing + 1 }
row_step r (analysis_reloaded found) = show_recomputed found r.refreshing r
row_step r (status_now s) = record r { status = s }

unfoldable pub run_row : {A : Type 0} → RunRow A → List (RowEvent A) → RunRow A
unfolding row_step
run_row r [] = r
run_row r (e ∷ es) = run_row (row_step r e) es

abbrev pub closed_row : {A : Type 0} → String → RunRow A
closed_row s = record {
  status = s;
  level = 1;
  analysis = none;
  analysis_loading = false;
  tooltip = none;
  asked = 0;
  refreshing = 0;
}
