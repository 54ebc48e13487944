-- ===== src/Plan/Ranges.antt =====
-- The ranges of priorities, which the source writes three times.
use ollama_queue.Prelude.{ℕ, ◌≡◌, arith}
use ollama_queue.Plan.{
  priority_category, priority_border_width, priority_border_opacity, value_to_level,
}

-- The level that the selector shows for a priority is in the category of the priority.
value_to_level-category : (p : ℕ) → priority_category (value_to_level p) ≡ priority_category p
unfolding priority_category value_to_level
value_to_level-category p = ground arith

-- Priorities of one category have the same border.
same_border :
    (p q : ℕ)
    → priority_category p ≡ priority_category q
    → (priority_border_width p ≡ priority_border_width q)
      × (priority_border_opacity p ≡ priority_border_opacity q)
unfolding priority_category priority_border_width priority_border_opacity
same_border p q e = (ground arith, ground arith)
