-- ===== src/Queue.antt =====
-- components/QueueList.jsx: the waiting list, its tag filter, the drag that renumbers priorities,
-- and the five seconds in which a cancel can be undone.
pub mod Drop
pub mod Persist
pub mod Filter
pub mod Cancel
mod Tests
use ollama_queue.Prelude.{
  ℕ, zero, suc, ◌+◌, String, Bool, true, false, not, Option, none, some, List, [], ◌∷◌, ◌++◌, map,
  ◌==◌, if◌then◌else◌, filter, find, get_elem?, str_eq,
}
use mathlib.Core.Option

pub record Job : Type 0 where
  pub id : ℕ
  pub priority : ℕ
  pub tag : Option String

-- `j.tag === tagFilter`
pub has_tag : String → Job → Bool
has_tag t j = elim j.tag [ none ↦ false | some s ↦ str_eq s t ]

-- `tagFilter ? allItems.filter(j => j.tag === tagFilter) : allItems`
unfoldable pub items : Option String → List Job → List Job
items none jobs = jobs
items (some t) jobs = filter (has_tag t) jobs

-- `xs.splice(i, 1)` and `xs.splice(i, 0, x)`: an index past the end removes nothing and appends.
abbrev pub remove_at {ℓ} : {A : Type ℓ} → ℕ → List A → List A
remove_at i [] = []
remove_at zero (x ∷ xs) = xs
remove_at (suc i) (x ∷ xs) = x ∷ remove_at i xs

abbrev pub insert_at {ℓ} : {A : Type ℓ} → ℕ → A → List A → List A
insert_at zero y xs = y ∷ xs
insert_at (suc i) y [] = y ∷ []
insert_at (suc i) y (x ∷ xs) = x ∷ insert_at i y xs

-- `{ ...job, priority }`. Where the dragged index is out of range `job` is `undefined`, and the
-- row has a priority alone.
pub record Row : Type 0 where
  pub job : Option Job
  pub priority : ℕ

abbrev pub row_id : Row → Option ℕ
row_id r = Option.map (λ (j : Job). j.id) r.job

pub renumber : ℕ → List (Option Job) → List Row
renumber i [] = []
renumber i (o ∷ os) = record { job = o; priority = i } ∷ renumber (i + 1) os

-- `reordered`, and `updated` with the priorities 1 … N.
pub reorder : ℕ → ℕ → List Job → List (Option Job)
reorder drag target js = insert_at target (get_elem? js drag) (map some (remove_at drag js))

unfoldable pub updated_rows : ℕ → ℕ → List Job → List Row
updated_rows drag target js = renumber 1 (reorder drag target js)

-- Whether the row's priority is sent: `!original || original.priority !== i + 1`.
pub needs_put : List Job → Row → Bool
needs_put js r = elim r.job [
  | none ↦ true
  | some j ↦ elim (find (λ k. k.id == j.id) js) [
    | none ↦ true
    | some original ↦ not (original.priority == r.priority)
  ]
]

-- The requests `PUT /api/queue/{id}/priority`, in order.
pub puts : List Job → List Row → List (Option ℕ × ℕ)
puts js [] = []
puts js (r ∷ rs) =
    let rest = puts js rs in if needs_put js r then (row_id r, r.priority) ∷ rest else rest

pub record View : Type 0 where
  pub queue : List Row
  pub etas : List ℕ
  pub drag_idx : Option ℕ
  pub drop_idx : Option ℕ
  pub sent : List (Option ℕ × ℕ)

-- `handleDrop`; `jobs` are the component's jobs.
drop_from : Option ℕ → List Job → ℕ → View → View
drop_from none js target v = record v { drag_idx = none; drop_idx = none }
drop_from (some d) js target v =
    if d == target then record v { drag_idx = none; drop_idx = none } else record {
      queue = updated_rows d target js;
      etas = [];
      drag_idx = none;
      drop_idx = none;
      sent = v.sent ++ puts js (updated_rows d target js);
    }

unfoldable pub handle_drop : Option String → List Job → ℕ → View → View
unfolding drop_from
handle_drop tag_filter jobs target v = drop_from v.drag_idx (items tag_filter jobs) target v
