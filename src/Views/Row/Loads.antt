-- ===== src/Views/Row/Loads.antt =====
-- What the row of a run shows while its analysis is loaded.
use ollama_queue.Prelude.{ℕ, zero, suc, ◌≤◌, ◌≡◌, String, true, Option, List, [], ◌∷◌, arith}
use ollama_queue.Views.Row.{
  RunRow, ask_analysis, toggle_level, handle_tooltip, show_loaded, show_recomputed, RowEvent,
  open_row, open_items, hint, analysis_loaded, recomputed, analysis_reloaded, status_now, row_step,
  run_row, closed_row,
}

-- The spinner turns only while a request for the analysis is under way, and the level is one of
-- three.
pub record IsLoading {A : Type 0} (r : RunRow A) : Type 0 where
  pub spins : r.analysis_loading ≡ true → 1 ≤ r.asked
  pub low : 1 ≤ r.level
  pub high : r.level ≤ 3

module _ {A : Type 0} where
  toggle_level-IsLoading :
      (next : ℕ) (r : RunRow A)
      → 1 ≤ next
      → next ≤ 3
      → IsLoading r
      → IsLoading (toggle_level next r)
  unfolding toggle_level ask_analysis
  toggle_level-IsLoading next r l h v = record {
    spins = ground (arith, v.spins);
    low = ground (arith, l);
    high = ground (arith, h);
  }

  show_loaded-IsLoading :
      (found : Option A) (n : ℕ) (r : RunRow A) → IsLoading r → IsLoading (show_loaded found n r)
  unfolding show_loaded
  show_loaded-IsLoading found zero r v = v
  show_loaded-IsLoading found (suc n) r v = record { spins = λ e. cc; low = v.low; high = v.high }

  show_recomputed-IsLoading :
      (found : Option A) (n : ℕ) (r : RunRow A)
      → IsLoading r
      → IsLoading (show_recomputed found n r)
  unfolding show_recomputed
  show_recomputed-IsLoading found zero r v = v
  show_recomputed-IsLoading found (suc n) r v = record {
    spins = v.spins;
    low = v.low;
    high = v.high;
  }

  row_step-IsLoading : (r : RunRow A) (e : RowEvent A) → IsLoading r → IsLoading (row_step r e)
  unfolding row_step handle_tooltip
  row_step-IsLoading r open_row v = toggle_level-IsLoading 2 r (omega arith) (omega arith) v
  row_step-IsLoading r open_items v = toggle_level-IsLoading 3 r (omega arith) (omega arith) v
  row_step-IsLoading r (hint key) v = record { spins = v.spins; low = v.low; high = v.high }
  row_step-IsLoading r (analysis_loaded found) v = show_loaded-IsLoading found r.asked r v
  row_step-IsLoading r recomputed v = record { spins = v.spins; low = v.low; high = v.high }
  row_step-IsLoading r (analysis_reloaded found) v =
      show_recomputed-IsLoading found r.refreshing r v
  row_step-IsLoading r (status_now s) v = record { spins = v.spins; low = v.low; high = v.high }

  run_row_from-IsLoading :
      (r : RunRow A) (es : List (RowEvent A)) → IsLoading r → IsLoading (run_row r es)
  unfolding run_row
  run_row_from-IsLoading r [] v = v
  run_row_from-IsLoading r (e ∷ es) v =
      run_row_from-IsLoading (row_step r e) es (row_step-IsLoading r e v)

-- Whatever the user clicks and whatever the service answers, in any order, the spinner of a row
-- turns only while one of its requests for the analysis is under way, and the level stays between
-- 1 and 3.
pub run_row-IsLoading :
    {A : Type 0} (status : String) (es : List (RowEvent A))
    → IsLoading (run_row (closed_row status) es)
run_row-IsLoading status es =
    run_row_from-IsLoading (closed_row status) es
      (record { spins = λ e. cc; low = omega arith; high = omega arith })
