-- ===== src/Views/Chart/Drawn.antt =====
-- What the chart draws: its times in order, and each run at its time.
use ollama_queue.Prelude.{
  ℕ, zero, suc, ◌≡◌, ◌≢◌, refl, ap, ◌∙◌, Bool, true, ◌||◌, Option, none, some, List, [], ◌∷◌, ◌++◌,
  map, any, get_elem?, All, sort_by, insert_by, ◌==◌, arith, Bool-cases, inl, inr,
}
use mathlib.Core.Option.{some-injective}
use ollama_queue.Views.Chart.{
  ChartRun, ChartVariant, add_timestamp, add_runs, all_timestamps, x_values, run_map, value_at,
  series, chart_data,
}

abbrev has : ℕ → List ℕ → Bool
has t xs = any (λ u. u == t) xs

abbrev sort_times : List ℕ → List ℕ
sort_times xs = sort_by (λ (t : ℕ). t) xs

has-snoc : (t u : ℕ) (xs : List ℕ) → has t (xs ++ u ∷ []) ≡ (has t xs || (u == t))
has-snoc t u [] = ground arith
has-snoc t u (x ∷ xs) = ground (arith, has-snoc t u xs)

has_itself : (t : ℕ) → (t == t) ≡ true
has_itself t = ground arith

add_timestamp-has : (t : ℕ) (xs : List ℕ) → has t (add_timestamp xs t) ≡ true
unfolding add_timestamp
add_timestamp-has t xs = elim (Bool-cases (has t xs)) [
  | inl h ↦ rw h h
  | inr h ↦ rw h (ground (arith, has-snoc t t xs, has_itself t))
]

add_timestamp-keeps : (t u : ℕ) (xs : List ℕ) → has t xs ≡ true → has t (add_timestamp xs u) ≡ true
unfolding add_timestamp
add_timestamp-keeps t u xs e = elim (Bool-cases (has u xs)) [
  | inl h ↦ rw h e
  | inr h ↦ rw h (ground (arith, has-snoc t u xs))
]

has-insert :
    (t x : ℕ) (xs : List ℕ) → has t (insert_by (λ (u : ℕ). u) x xs) ≡ ((x == t) || has t xs)
has-insert t x [] = refl
has-insert t x (y ∷ ys) = ground (arith, has-insert t x ys)

has-sort : (t : ℕ) (xs : List ℕ) → has t (sort_times xs) ≡ has t xs
has-sort t [] = refl
has-sort t (x ∷ xs) = ground (arith, has-insert t x (sort_times xs), has-sort t xs)

has-index : (t : ℕ) (xs : List ℕ) → has t xs ≡ true → (i : ℕ) × (get_elem? xs i ≡ some t)
has-index t [] h = cc
has-index t (x ∷ xs) h = elim (Bool-cases (x == t)) [
  | inl e ↦ (0, ap some (ground arith))
  | inr e ↦ let (i, k) = has-index t xs (ground arith) in (suc i, k)
]

pub get_elem?-map :
    {A B : Type 0} (f : A → B) (xs : List A) (i : ℕ) (x : A)
    → get_elem? xs i ≡ some x
    → get_elem? (map f xs) i ≡ some (f x)
get_elem?-map f [] i x e = cc
get_elem?-map f (y ∷ ys) zero x e = ap some (ap f (some-injective _ _ e))
get_elem?-map f (y ∷ ys) (suc i) x e = get_elem?-map f ys i x e

module _ {V : Type 0} where
  add_runs-keeps :
      (t : ℕ) (xs : List ℕ) (rs : List (ChartRun V))
      → has t xs ≡ true
      → has t (add_runs xs rs) ≡ true
  unfolding add_runs
  add_runs-keeps t xs [] h = h
  add_runs-keeps t xs (r ∷ rs) h =
      add_runs-keeps t (add_timestamp xs r.timestamp) rs (add_timestamp-keeps t r.timestamp xs h)

  add_runs-has :
      (xs : List ℕ) (before : List (ChartRun V)) (r : ChartRun V) (after : List (ChartRun V))
      → has r.timestamp (add_runs xs (before ++ r ∷ after)) ≡ true
  unfolding add_runs
  add_runs-has xs [] r after = add_runs-keeps r.timestamp _ after (add_timestamp-has r.timestamp xs)
  add_runs-has xs (b ∷ bs) r after = add_runs-has (add_timestamp xs b.timestamp) bs r after

  all_timestamps-keeps :
      (t : ℕ) (xs : List ℕ) (vs : List (ChartVariant V))
      → has t xs ≡ true
      → has t (all_timestamps xs vs) ≡ true
  unfolding all_timestamps
  all_timestamps-keeps t xs [] h = h
  all_timestamps-keeps t xs (v ∷ vs) h =
      all_timestamps-keeps t (add_runs xs v.runs) vs (add_runs-keeps t xs v.runs h)

  all_timestamps-has :
      (t : ℕ) (xs : List ℕ) (vs : List (ChartVariant V)) (k : ℕ) (v : ChartVariant V)
      → get_elem? vs k ≡ some v
      → ((ys : List ℕ) → has t (add_runs ys v.runs) ≡ true)
      → has t (all_timestamps xs vs) ≡ true
  unfolding all_timestamps
  all_timestamps-has t xs [] k v e h = cc
  all_timestamps-has t xs (w ∷ vs) zero v e h =
      let own : has t (add_runs xs w.runs) ≡ true =
        ap
          (λ (o : Option (ChartVariant V)). elim o [
            | none ↦ true
            | some z ↦ has t (add_runs xs z.runs)
          ])
          e
        ∙ h xs in
      all_timestamps-keeps t (add_runs xs w.runs) vs own
  all_timestamps-has t xs (w ∷ vs) (suc k) v e h =
      all_timestamps-has t (add_runs xs w.runs) vs k v e h

  value_at-passed :
      (t : ℕ) (m : List (ℕ × Option V)) (rs : List (ChartRun V))
      → All (λ s. s.timestamp ≢ t) rs
      → value_at (run_map m rs) t ≡ value_at m t
  unfolding run_map value_at
  value_at-passed t m [] h = refl
  value_at-passed t m (r ∷ rs) h =
      value_at-passed t ((r.timestamp, r.value) ∷ m) rs h.1 ∙ ground (arith, h.0)

  value_at-last :
      (m : List (ℕ × Option V)) (before : List (ChartRun V)) (r : ChartRun V)
      (after : List (ChartRun V))
      → All (λ s. s.timestamp ≢ r.timestamp) after
      → value_at (run_map m (before ++ r ∷ after)) r.timestamp ≡ r.value
  unfolding run_map value_at
  value_at-last m [] r after h =
      value_at-passed r.timestamp ((r.timestamp, r.value) ∷ m) after h
      ∙ ground (arith, has_itself r.timestamp)
  value_at-last m (b ∷ bs) r after h = value_at-last ((b.timestamp, b.value) ∷ m) bs r after h

  abbrev in_row : ℕ → Option (List (Option V)) → Option (Option V)
  in_row i none = none
  in_row i (some row) = get_elem? row i

  -- The value of the `k`-th variant's series at a position of the chart.
  abbrev pub cell : List ℕ × List (List (Option V)) → ℕ → ℕ → Option (Option V)
  cell d k i = in_row i (get_elem? d.1 k)

  cell-chart_data :
      (vs : List (ChartVariant V)) (k : ℕ) (v : ChartVariant V) (i t : ℕ)
      → get_elem? vs k ≡ some v
      → get_elem? (x_values vs) i ≡ some t
      → cell (chart_data vs) k i ≡ some (value_at (run_map [] v.runs) t)
  unfolding chart_data series
  cell-chart_data vs k v i t e h =
      ap (in_row i) (get_elem?-map (series (x_values vs)) vs k v e)
      ∙ (get_elem?-map (λ u. value_at (run_map [] v.runs) u) (x_values vs) i t h)

pub chart_data-drawn :
    {V : Type 0} (vs : List (ChartVariant V)) (k : ℕ) (v : ChartVariant V)
    (before : List (ChartRun V)) (r : ChartRun V) (after : List (ChartRun V))
    → get_elem? vs k ≡ some v
    → v.runs ≡ before ++ r ∷ after
    → All (λ s. s.timestamp ≢ r.timestamp) after
    → (i : ℕ) × (get_elem? (chart_data vs).0 i ≡ some r.timestamp)
      × (cell (chart_data vs) k i ≡ some r.value)
unfolding chart_data
chart_data-drawn vs k v before r after e split last =
    let own : (ys : List ℕ) → has r.timestamp (add_runs ys v.runs) ≡ true =
      λ ys. ap (λ rs. has r.timestamp (add_runs ys rs)) split ∙ add_runs-has ys before r after in
    let shown : has r.timestamp (x_values vs) ≡ true =
      unfold x_values in
      has-sort r.timestamp (all_timestamps [] vs)
      ∙ all_timestamps-has r.timestamp [] vs k v e own in
    let (i, h) = has-index r.timestamp (x_values vs) shown in
    (
      i,
      h,
      cell-chart_data vs k v i r.timestamp e h
          ∙ ap (λ rs. some (value_at (run_map [] rs) r.timestamp)) split
          ∙ ap some (value_at-last [] before r after last),
    )
