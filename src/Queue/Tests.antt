-- ===== src/Queue/Tests.antt =====
-- The waiting list on three jobs: a drag from the end to the front, and an undone cancel.
use mathlib.Core.List.{Perm}
use ollama_queue.Prelude.{
  ℕ, ◌+◌, ◌≤◌, ◌≡◌, refl, none, some, List, [], ◌∷◌, map, arith, ==_iff, ◌==◌, if◌then◌else◌, All,
  count, get_elem?, filter,
}
use ollama_queue.Queue.{
  Job, items, remove_at, Row, View, renumber, reorder, updated_rows, needs_put, puts, handle_drop,
}
use ollama_queue.Queue.Drop.{is_listed, handle_drop_moves}
use ollama_queue.Queue.Persist.{Stored, apply_puts, handle_drop_persists}
use ollama_queue.Queue.Cancel.{Cancels, accepted, lookup, undo, expire, leave, step, run, IsTracked}
use ollama_queue.Queue.Cancel.Undo.{posts, undo_is_final}

abbrev job : ℕ → ℕ → Job
job n p = record { id = n; priority = p; tag = some "aria" }

abbrev three : List Job
three = job 7 2 ∷ job 8 2 ∷ job 9 5 ∷ []

abbrev dragging : View
dragging = record { queue = []; etas = []; drag_idx = some 2; drop_idx = none; sent = [] }

-- The last job goes to the front: its priority and that of the second change, the rest follows.
drop_of_three : (handle_drop none three 0 dragging).sent ≡ (some 9, 1) ∷ (some 8, 3) ∷ []
unfolding handle_drop items updated_rows renumber reorder needs_put puts
drop_of_three = refl

abbrev server : ℕ → ℕ
server k = if k == 9 then 5 else 2

distinct : (x : ℕ) → count (λ (j : Job). j.id == x) three ≤ 1
distinct x = ground (arith, ==_iff 7 x, ==_iff 8 x, ==_iff 9 x)

handle_drop_moves_example :
    let rows = (handle_drop none three 0 dragging).queue in
    let shown = items none three in
    (get_elem? (map (λ r. r.job) rows) 0 ≡ some (get_elem? shown 2))
    × (remove_at 0 (map (λ r. r.job) rows) ≡ map some (remove_at 2 shown))
    × Perm (map (λ r. r.job) rows) (map some (filter (is_listed none) three))
    × ((k : ℕ) (r : Row) → get_elem? rows k ≡ some r → r.priority ≡ k + 1)
unfolding items
handle_drop_moves_example =
    handle_drop_moves none three 0 dragging refl (omega arith) (omega arith) (omega arith)

handle_drop_persists_example :
    let v' = handle_drop none three 0 dragging in All (Stored (apply_puts server v'.sent)) v'.queue
unfolding items
handle_drop_persists_example =
    handle_drop_persists none three 0 dragging server refl (omega arith) refl (omega arith)
      (omega arith) distinct (refl, (refl, (refl, tt)))

abbrev one_pending : Cancels
one_pending = record {
  pending = (7, 1) ∷ (8, 2) ∷ [];
  live = (2, 8) ∷ (1, 7) ∷ [];
  next_timer = 3;
  posted = [];
  refreshes = 0;
  error = none;
}

one_pending-IsTracked : IsTracked one_pending
unfolding lookup
one_pending-IsTracked = (refl, (refl, tt))

undo_is_final_example :
    posts 7 (run (step one_pending (undo 7)) (expire 1 accepted ∷ expire 2 accepted ∷ leave ∷ []))
    ≡ 0
undo_is_final_example =
    undo_is_final one_pending 7 (expire 1 accepted ∷ expire 2 accepted ∷ leave ∷ [])
      one_pending-IsTracked ((λ e. cc), ((λ e. cc), ((λ e. cc), tt)))
