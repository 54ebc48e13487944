-- ===== src/Views/Chart/InOrder.antt =====
-- The times of the chart are in order, and none is there twice.
use ollama_queue.Prelude.{
  ℕ, ◌<◌, ◌≡◌, ◌≢◌, sym, false, List, [], ◌∷◌, ◌++◌, any, All, All-snoc, All-insert_by, Pairs,
  sort_by, insert_by, sort_by-Pairs, Before, Before-le, leb, ◌==◌, arith, Bool-cases, inl, inr,
}
use ollama_queue.Views.Chart.{
  ChartRun, ChartVariant, add_timestamp, add_runs, all_timestamps, x_values,
}

Differ : ℕ → ℕ → Type 0
Differ a b = a ≢ b

absent : (t : ℕ) (xs : List ℕ) → any (λ u. u == t) xs ≡ false → All (λ u. Differ u t) xs
unfolding Differ
absent t [] h = tt
absent t (x ∷ xs) h = (ground arith, absent t xs (ground arith))

Pairs-snoc :
    (xs : List ℕ) (y : ℕ) → Pairs Differ xs → All (λ u. Differ u y) xs → Pairs Differ (xs ++ y ∷ [])
Pairs-snoc [] y h k = (tt, tt)
Pairs-snoc (x ∷ xs) y h k = (All-snoc (Differ x) xs y h.0 k.0, Pairs-snoc xs y h.1 k.1)

add_timestamp-Pairs : (xs : List ℕ) (t : ℕ) → Pairs Differ xs → Pairs Differ (add_timestamp xs t)
unfolding add_timestamp
add_timestamp-Pairs xs t h = elim (Bool-cases (any (λ u. u == t) xs)) [
  | inl e ↦ rw e h
  | inr e ↦ rw e (Pairs-snoc xs t h (absent t xs e))
]

add_runs-Pairs :
    {V : Type 0} (xs : List ℕ) (rs : List (ChartRun V))
    → Pairs Differ xs
    → Pairs Differ (add_runs xs rs)
unfolding add_runs
add_runs-Pairs xs [] h = h
add_runs-Pairs xs (r ∷ rs) h =
    add_runs-Pairs (add_timestamp xs r.timestamp) rs (add_timestamp-Pairs xs r.timestamp h)

all_timestamps-Pairs :
    {V : Type 0} (xs : List ℕ) (vs : List (ChartVariant V))
    → Pairs Differ xs
    → Pairs Differ (all_timestamps xs vs)
unfolding all_timestamps
all_timestamps-Pairs xs [] h = h
all_timestamps-Pairs xs (v ∷ vs) h =
    all_timestamps-Pairs (add_runs xs v.runs) vs (add_runs-Pairs xs v.runs h)

insert_by-Differ :
    (x : ℕ) (xs : List ℕ)
    → All (Differ x) xs
    → Pairs Differ xs
    → Pairs Differ (insert_by (λ (u : ℕ). u) x xs)
insert_by-Differ x [] h k = (tt, tt)
insert_by-Differ x (y ∷ ys) h k = elim (Bool-cases (leb x y)) [
  | inl e ↦ rw e ((h.0, h.1), (k.0, k.1))
  | inr e ↦ rw e (
    All-insert_by (λ (u : ℕ). u) (Differ y) x ys (unfold Differ in λ e. h.0 (sym e)) k.0,
    insert_by-Differ x ys h.1 k.1,
  )
]

All-sort_times : (P : ℕ → Type 0) (xs : List ℕ) → All P xs → All P (sort_by (λ (u : ℕ). u) xs)
All-sort_times P [] h = tt
All-sort_times P (x ∷ xs) h =
    All-insert_by (λ (u : ℕ). u) P x (sort_by (λ (u : ℕ). u) xs) h.0 (All-sort_times P xs h.1)

sort_times-Differ : (xs : List ℕ) → Pairs Differ xs → Pairs Differ (sort_by (λ (u : ℕ). u) xs)
sort_times-Differ [] h = tt
sort_times-Differ (x ∷ xs) h =
    insert_by-Differ x (sort_by (λ (u : ℕ). u) xs) (All-sort_times (Differ x) xs h.0)
      (sort_times-Differ xs h.1)

Earlier : ℕ → ℕ → Type 0
Earlier a b = Before (λ (u : ℕ). u) a b

All-below : (x : ℕ) (xs : List ℕ) → All (Earlier x) xs → All (Differ x) xs → All (λ y. x < y) xs
unfolding Earlier Differ
All-below x [] h k = tt
All-below x (y ∷ ys) h k =
    (ground (arith, Before-le (λ (u : ℕ). u) x y h.0, k.0), All-below x ys h.1 k.1)

Pairs-below : (xs : List ℕ) → Pairs Earlier xs → Pairs Differ xs → Pairs (λ x y. x < y) xs
Pairs-below [] h k = tt
Pairs-below (x ∷ xs) h k = (All-below x xs h.0 k.0, Pairs-below xs h.1 k.1)

-- The times of the chart ascend strictly, whatever runs the variants have and in whatever order.
pub x_values-ascend : {V : Type 0} (vs : List (ChartVariant V)) → Pairs (λ x y. x < y) (x_values vs)
unfolding x_values Earlier
x_values-ascend vs =
    Pairs-below _ (sort_by-Pairs (λ (u : ℕ). u) (all_timestamps [] vs))
      (sort_times-Differ _ (all_timestamps-Pairs [] vs tt))
