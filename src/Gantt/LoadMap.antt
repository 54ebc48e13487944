-- ===== src/Gantt/LoadMap.antt =====
-- The load map starts at midnight, the chart at the present: the rotation, and the slots that the
-- scheduler suggests in it.
use ollama_queue.Prelude.{
  ℕ, zero, suc, ◌+◌, ◌%◌, ◌<◌, ◌≡◌, refl, ◌∙◌, ap, some, List, arith, length, get_elem?,
}
use ollama_queue.Gantt.{tabulate, now_slot, align_load_map_to_now, display_index}

get_elem?-tabulate {ℓ} :
    {A : Type ℓ} (f : ℕ → A) (i n k : ℕ) → k < n → get_elem? (tabulate f i n) k ≡ some (f (i + k))
unfolding tabulate
get_elem?-tabulate f i zero k h = absurd (omega arith)
get_elem?-tabulate f i (suc n) zero h = ap (λ m. some (f m)) (omega arith)
get_elem?-tabulate f i (suc n) (suc k) h =
    get_elem?-tabulate f (i + 1) n k (omega arith) ∙ ap (λ m. some (f m)) (omega arith)

pub length-tabulate {ℓ} : {A : Type ℓ} (f : ℕ → A) (i n : ℕ) → length (tabulate f i n) ≡ n
unfolding tabulate
length-tabulate f i zero = refl
length-tabulate f i (suc n) = ap suc (length-tabulate f (i + 1) n)

-- Position `i` of the strip shows the slot `i` steps after the present one, around the day.
pub get_elem?-align_load_map_to_now {ℓ} :
    {A : Type ℓ} (slots : List A) (seconds i : ℕ)
    → i < length slots
    → get_elem? (align_load_map_to_now slots seconds) i
      ≡ some (get_elem? slots ((now_slot seconds + i) % length slots))
unfolding align_load_map_to_now
get_elem?-align_load_map_to_now slots seconds i h =
    get_elem?-tabulate _ 0 (length slots) i h
    ∙ ap (λ m. some (get_elem? slots ((now_slot seconds + m) % length slots))) (omega arith)

-- In a day of 48 slots the strip shows each suggested slot at its display index.
pub align_load_map_to_now-display_index {ℓ} :
    {A : Type ℓ} (slots : List A) (seconds slot : ℕ)
    → length slots ≡ 48
    → seconds < 86400
    → slot < 48
    → get_elem? (align_load_map_to_now slots seconds) (display_index slot seconds)
      ≡ some (get_elem? slots slot)
unfolding display_index
align_load_map_to_now-display_index slots seconds slot n h k =
    get_elem?-align_load_map_to_now slots seconds _ (omega arith)
    ∙ ap (λ m. some (get_elem? slots m)) (rw n (omega arith))
