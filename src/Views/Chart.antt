-- ===== src/Views/Chart.antt =====
-- components/eval/F1LineChart.jsx: the arrays of numbers that the chart of the trends draws, for
-- measurements of any type `V`.
pub mod Drawn
pub mod Metric
pub mod InOrder
use ollama_queue.Prelude.{
  ℕ, ◌==◌, String, Option, none, some, List, [], ◌∷◌, ◌++◌, map, any, sort_by, if◌then◌else◌, Bool,
  true, false, ◌||◌, str_eq,
}

-- A run of the trends: `run.timestamp` and `run[metricKey]`.
pub record ChartRun (V : Type 0) : Type 0 where
  pub timestamp : ℕ
  pub value : Option V

pub record ChartVariant (V : Type 0) : Type 0 where
  pub id : String
  pub runs : List (ChartRun V)

-- `allTimestamps.add(t)`: a Set keeps the order of insertion and no value twice.
unfoldable pub add_timestamp : List ℕ → ℕ → List ℕ
add_timestamp seen t = if any (λ u. u == t) seen then seen else seen ++ t ∷ []

unfoldable pub add_runs : {V : Type 0} → List ℕ → List (ChartRun V) → List ℕ
unfolding add_timestamp
add_runs seen [] = seen
add_runs seen (r ∷ rs) = add_runs (add_timestamp seen r.timestamp) rs

unfoldable pub all_timestamps : {V : Type 0} → List ℕ → List (ChartVariant V) → List ℕ
unfolding add_runs
all_timestamps seen [] = seen
all_timestamps seen (v ∷ vs) = all_timestamps (add_runs seen v.runs) vs

unfoldable pub x_values : {V : Type 0} → List (ChartVariant V) → List ℕ
unfolding all_timestamps
x_values vs = sort_by (λ t. t) (all_timestamps [] vs)

-- `runMap`: a later assignment to a timestamp replaces an earlier one.
unfoldable pub run_map :
    {V : Type 0} → List (ℕ × Option V) → List (ChartRun V) → List (ℕ × Option V)
run_map m [] = m
run_map m (r ∷ rs) = run_map ((r.timestamp, r.value) ∷ m) rs

-- `runMap[ts] ?? null`
unfoldable pub value_at : {V : Type 0} → List (ℕ × Option V) → ℕ → Option V
value_at [] t = none
value_at (e ∷ m) t = let rest = value_at m t in if e.0 == t then e.1 else rest

unfoldable pub series : {V : Type 0} → List ℕ → ChartVariant V → List (Option V)
unfolding value_at run_map
series xs v = map (λ t. value_at (run_map [] v.runs) t) xs

-- `[xValues, ...seriesData]`
unfoldable pub chart_data : {V : Type 0} → List (ChartVariant V) → List ℕ × List (List (Option V))
unfolding x_values series
chart_data vs = (x_values vs, map (series (x_values vs)) vs)

-- A run and a variant as the signal `evalTrends` has them.
pub record TrendEntry (V : Type 0) : Type 0 where
  pub timestamp : ℕ
  pub f1 : Option V
  pub auc : Option V
  pub judge_mode : Option String

pub record TrendLine (V : Type 0) : Type 0 where
  pub id : String
  pub entries : List (TrendEntry V)

unfoldable pub is_bayesian : Option String → Bool
is_bayesian none = false
is_bayesian (some m) = str_eq m "bayesian" || str_eq m "tournament"

-- `hasBayesian`
unfoldable pub has_bayesian : {V : Type 0} → List (TrendLine V) → Bool
unfolding is_bayesian
has_bayesian lines = any (λ l. any (λ e. is_bayesian e.judge_mode) l.entries) lines

-- `run[metricKey]`, where the key is `auc` or `f1`.
unfoldable pub measured : {V : Type 0} → Bool → TrendEntry V → ChartRun V
measured bayesian e = record { timestamp = e.timestamp; value = if bayesian then e.auc else e.f1 }

unfoldable pub plotted : {V : Type 0} → Bool → TrendLine V → ChartVariant V
unfolding measured
plotted bayesian l = record { id = l.id; runs = map (measured bayesian) l.entries }

unfoldable pub f1_line_chart : {V : Type 0} → List (TrendLine V) → List ℕ × List (List (Option V))
unfolding has_bayesian plotted chart_data
f1_line_chart lines = chart_data (map (plotted (has_bayesian lines)) lines)
