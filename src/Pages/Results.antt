-- ===== src/Pages/Results.antt =====
-- components/eval/ResultsTable.jsx: the scored pairs of a run, page by page, as the events of the
-- table; `R` is the type of a pair. A request is its offset and its filter, the answers may come in
-- any order.
pub mod Complete
use ollama_queue.Prelude.{
  ℕ, zero, suc, ◌+◌, String, Bool, true, false, not, ◌&&◌, Option, none, some, List, [], ◌∷◌, ◌++◌,
  ◌==◌, length, take, drop, take_out, if◌then◌else◌,
}

abbrev pub page_size : ℕ
page_size = 20

-- The filters besides “All”, which is `none`.
pub data Classification : Type 0 where
  tp tn fp fn : Classification

abbrev pub PageRequest : Type 0
PageRequest = ℕ × Option Classification

pub record Table (R : Type 0) : Type 0 where
  pub results : List R
  pub offset : ℕ
  pub has_more : Bool
  pub loading : Bool
  pub error : Option String
  pub active_filter : Option Classification
  pub waiting : List PageRequest  -- the requests under way

unfoldable pub load_page : {R : Type 0} → ℕ → Option Classification → Table R → Table R
load_page off filter t = record t {
  loading = true;
  error = none;
  waiting = t.waiting ++ (off, filter) ∷ [];
}

-- `loadPage` from its answer on: a page, or what is thrown.
unfoldable pub show_page : {R : Type 0} → ℕ → List R → Table R → Table R
show_page off page t = record t {
  results = if off == 0 then page else t.results ++ page;
  has_more = length page == page_size;
  offset = off + length page;
  loading = false;
}

unfoldable pub page_fails : {R : Type 0} → String → Table R → Table R
page_fails message t = record t { error = some message; loading = false }

unfoldable pub handle_filter_change : {R : Type 0} → Option Classification → Table R → Table R
unfolding load_page
handle_filter_change filter t =
    load_page 0 filter
      (record t { active_filter = filter; results = []; offset = 0; has_more = true })

-- The button “Load more”, which is there while more is expected and nothing loads.
unfoldable pub load_more : {R : Type 0} → Table R → Table R
unfolding load_page
load_more t = if t.has_more && not t.loading then load_page t.offset t.active_filter t else t

-- The link “Retry” of an error.
unfoldable pub retry : {R : Type 0} → Table R → Table R
unfolding load_page
retry t = elim t.error [ none ↦ t | some m ↦ load_page 0 t.active_filter t ]

unfoldable pub answered :
    {R : Type 0}
    → (PageRequest → Table R → Table R)
    → Option (PageRequest × List PageRequest)
    → Table R
    → Table R
answered show none t = t
answered show (some found) t = show found.0 (record t { waiting = found.1 })

pub data TableEvent (R : Type 0) : Type 0 where
  filter_by : Option Classification → TableEvent R
  more again : TableEvent R
  page : ℕ → List R → TableEvent R  -- the answer to the `k`-th request under way
  no_page : ℕ → String → TableEvent R

unfoldable pub table_step : {R : Type 0} → Table R → TableEvent R → Table R
unfolding handle_filter_change load_more retry answered show_page page_fails
table_step t (filter_by filter) = handle_filter_change filter t
table_step t more = load_more t
table_step t again = retry t
table_step t (page k rows) = answered (λ r. show_page r.0 rows) (take_out k t.waiting) t
table_step t (no_page k m) = answered (λ r. page_fails m) (take_out k t.waiting) t

unfoldable pub run_table : {R : Type 0} → Table R → List (TableEvent R) → Table R
unfolding table_step
run_table t [] = t
run_table t (e ∷ es) = run_table (table_step t e) es

-- The table after the effect of its first rendering.
unfoldable pub opened_table : {R : Type 0} → Table R
unfolding load_page
opened_table = load_page 0 none (record {
  results = [];
  offset = 0;
  has_more = false;
  loading = false;
  error = none;
  active_filter = none;
  waiting = [];
})
