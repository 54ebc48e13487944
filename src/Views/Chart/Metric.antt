-- ===== src/Views/Chart/Metric.antt =====
-- Which measurement of the trends the chart draws, and where.
use ollama_queue.Prelude.{
  ℕ, ◌≡◌, ◌≢◌, refl, ap, ◌∙◌, Bool, some, List, [], ◌∷◌, ◌++◌, map, get_elem?, All, if◌then◌else◌,
}
use ollama_queue.Views.Chart.{
  ChartRun, TrendEntry, TrendLine, has_bayesian, measured, plotted, f1_line_chart,
}
use ollama_queue.Views.Chart.Drawn.{cell, get_elem?-map, chart_data-drawn}

module _ {V : Type 0} (bayesian : Bool) where
  measured-append :
      (before : List (TrendEntry V)) (e : TrendEntry V) (after : List (TrendEntry V))
      → map (measured bayesian) (before ++ e ∷ after)
        ≡ map (measured bayesian) before ++ measured bayesian e ∷ map (measured bayesian) after
  measured-append [] e after = refl
  measured-append (b ∷ bs) e after = ap (λ l. measured bayesian b ∷ l) (measured-append bs e after)

  later_differ :
      (t : ℕ) (es : List (TrendEntry V))
      → All (λ s. s.timestamp ≢ t) es
      → All (λ (s : ChartRun V). s.timestamp ≢ t) (map (measured bayesian) es)
  unfolding measured
  later_differ t [] h = tt
  later_differ t (e ∷ es) h = (h.0, later_differ t es h.1)

-- A run whose variant has no later run of the same time is drawn: its time is one of the times of the
-- chart, and at that position the series of its variant has its measurement, which is the AUC if any
-- run of any variant was judged by a Bayesian or a tournament, and the F1 otherwise.
pub f1_line_chart-drawn :
    {V : Type 0} (lines : List (TrendLine V)) (k : ℕ) (l : TrendLine V)
    (before : List (TrendEntry V)) (e : TrendEntry V) (after : List (TrendEntry V))
    → get_elem? lines k ≡ some l
    → l.entries ≡ before ++ e ∷ after
    → All (λ s. s.timestamp ≢ e.timestamp) after
    → (i : ℕ) × (get_elem? (f1_line_chart lines).0 i ≡ some e.timestamp)
      × (cell (f1_line_chart lines) k i ≡ some (if has_bayesian lines then e.auc else e.f1))
unfolding f1_line_chart plotted measured
f1_line_chart-drawn lines k l before e after h split last =
    let b = has_bayesian lines in
    chart_data-drawn (map (plotted b) lines) k (plotted b l) (map (measured b) before)
      (measured b e) (map (measured b) after) (get_elem?-map (plotted b) lines k l h)
      (ap (map (measured b)) split ∙ measured-append b before e after)
      (later_differ b e.timestamp after last)
