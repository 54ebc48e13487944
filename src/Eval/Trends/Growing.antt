-- ===== src/Eval/Trends/Growing.antt =====
-- What the flag `item_count_growing` of the normalised trends says of the runs.
use ollama_queue.Prelude.{
  ℕ, ◌≤◌, ◌≡◌, refl, ◌↔◌, String, false, Option, List, [], ◌∷◌, map, arith, any, All, Pairs,
  All-map,
}
use ollama_queue.Eval.Trends.{
  RawTrends, TrendRun, TrendVariant, items_of, grows_after, grows, or_none, normalize_variant,
  normalize_trends,
}

-- The later of two runs has no more items than the earlier one.
abbrev pub NoMoreThan : TrendRun → TrendRun → Type 0
NoMoreThan r s = items_of s ≤ items_of r

no_growth :
    (last : ℕ) (rs : List TrendRun)
    → grows_after last rs ≡ false
    → All (λ s. items_of s ≤ last) rs × Pairs NoMoreThan rs
unfolding grows_after
no_growth last [] h = (tt, tt)
no_growth last (r ∷ rs) h =
    let step : items_of r ≤ last = ground arith in
    let (later, ordered) = no_growth (items_of r) rs (ground arith) in
    ((step, All-map (λ s k. omega arith) rs later), (later, ordered))

growth_free :
    (last : ℕ) (rs : List TrendRun)
    → All (λ s. items_of s ≤ last) rs
    → Pairs NoMoreThan rs
    → grows_after last rs ≡ false
unfolding grows_after
growth_free last [] h k = refl
growth_free last (r ∷ rs) h k = ground (arith, growth_free (items_of r) rs k.0 k.1)

grows-Pairs : (rs : List TrendRun) → (grows rs ≡ false) ↔ Pairs NoMoreThan rs
unfolding grows
grows-Pairs [] = (λ h. tt, λ h. refl)
grows-Pairs (r ∷ rs) = (no_growth (items_of r) rs, λ h. growth_free (items_of r) rs h.0 h.1)

any-grows :
    (vs : List TrendVariant)
    → (any (λ v. grows v.runs) vs ≡ false) ↔ All (λ v. Pairs NoMoreThan v.runs) vs
any-grows [] = (λ h. tt, λ h. refl)
any-grows (v ∷ vs) = (
  λ h. ((grows-Pairs v.runs).0 (ground arith), (any-grows vs).0 (ground arith)),
  λ h. let e = (grows-Pairs v.runs).1 h.0 in let f = (any-grows vs).1 h.1 in ground arith,
)

-- The item count is said not to grow exactly if in every variant no run has more items than any run
-- before it.
pub normalize_trends-growing :
    (time_of : String → Option ℕ) (raw : RawTrends)
    → let trends = normalize_trends time_of raw in
      (trends.item_count_growing ≡ false) ↔ All (λ v. Pairs NoMoreThan v.runs) trends.variants
unfolding normalize_trends
normalize_trends-growing time_of raw =
    any-grows (map (normalize_variant time_of) (or_none raw.variants))
