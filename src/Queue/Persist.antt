-- ===== src/Queue/Persist.antt =====
-- The priority requests of a drag, run on the server, whose route accepts priorities up to 10 and
-- answers 400 to others.
use ollama_queue.Prelude.{
  ℕ, zero, suc, ◌+◌, ◌≤◌, ◌<◌, ◌≡◌, ◌≢◌, refl, ◌∙◌, sym, ap, subst, String, Bool, true, false, ◌&&◌,
  Option, none, some, List, [], ◌∷◌, map, arith, ◌==◌, leb, if◌then◌else◌, Bool-cases, Option-cases,
  inl, inr, find, get_elem?, length, All, count,
}
use ollama_queue.Queue.{
  Job, items, remove_at, insert_at, Row, row_id, renumber, reorder, updated_rows, needs_put, puts,
  View, handle_drop,
}
use ollama_queue.Queue.Drop.{
  count-insert_at, length-insert_at, length-map-some, length-remove_at, queue-handle_drop,
}

-- The priorities on the server, by the number of the job, and one accepted or refused request.
abbrev pub apply_put : (ℕ → ℕ) → Option ℕ → ℕ → ℕ → ℕ
apply_put server none p x = server x
apply_put server (some k) p x = if k == x && leb p 10 then p else server x

abbrev pub apply_puts : (ℕ → ℕ) → List (Option ℕ × ℕ) → ℕ → ℕ
apply_puts server [] = server
apply_puts server ((o, p) ∷ rest) = apply_puts (apply_put server o p) rest

-- The server has the row's priority, where the row is a job's.
abbrev pub Stored : (ℕ → ℕ) → Row → Type 0
Stored server r = (j : Job) → r.job ≡ some j → server j.id ≡ r.priority

abbrev has_number : ℕ → Option Job → Bool
has_number x o = elim o [ none ↦ false | some j ↦ j.id == x ]

-- How many of the rows show the job with the number `x`.
abbrev shows : ℕ → List Row → ℕ
shows x rs = count (λ (r : Row). has_number x r.job) rs

apply_puts_other :
    (js : List Job) (x : ℕ) (server : ℕ → ℕ) (rs : List Row)
    → shows x rs ≡ 0
    → apply_puts server (puts js rs) x ≡ server x
unfolding puts
apply_puts_other js x server [] h = refl
apply_puts_other js x server (r ∷ rs) h = elim (Bool-cases (needs_put js r)) [
  | inl e ↦ rw e (
      apply_puts_other js x (apply_put server (row_id r) r.priority) rs (ground arith)
      ∙ ground arith)
  | inr e ↦ rw e (apply_puts_other js x server rs (ground arith))
]

-- Requests about other jobs keep what is stored for the rows that need none.
Stored-apply_put :
    (js : List Job) (server : ℕ → ℕ) (r : Row) (rs : List Row)
    → ((x : ℕ) → shows x (r ∷ rs) ≤ 1)
    → All (λ s. needs_put js s ≡ false → Stored server s) rs
    → All (λ s. needs_put js s ≡ false → Stored (apply_put server (row_id r) r.priority) s) rs
Stored-apply_put js server r [] d h = tt
Stored-apply_put js server r (s ∷ rs) d h = (
  λ e j at. ground (arith, d j.id, h.0 e j at),
  Stored-apply_put js server r rs (λ x. ground (arith, d x)) h.1,
)

puts-cons_of_needs_put :
    (js : List Job) (r : Row) (rs : List Row)
    → needs_put js r ≡ true
    → puts js (r ∷ rs) ≡ (row_id r, r.priority) ∷ puts js rs
unfolding puts
puts-cons_of_needs_put js r rs e = rw e

puts-cons_of_not_needs_put :
    (js : List Job) (r : Row) (rs : List Row)
    → needs_put js r ≡ false
    → puts js (r ∷ rs) ≡ puts js rs
unfolding puts
puts-cons_of_not_needs_put js r rs e = rw e

All-Stored-puts :
    (js : List Job) (server : ℕ → ℕ) (rs : List Row)
    → ((x : ℕ) → shows x rs ≤ 1)
    → All (λ r. r.priority ≤ 10) rs
    → All (λ r. needs_put js r ≡ false → Stored server r) rs
    → All (Stored (apply_puts server (puts js rs))) rs
All-Stored-puts js server [] d small h = tt
All-Stored-puts js server (r ∷ rs) d small h = elim (Bool-cases (needs_put js r)) [
  | inl e ↦ subst Holds (sym (puts-cons_of_needs_put js r rs e)) (
    λ j at.
        (apply_puts_other js j.id (apply_put server (row_id r) r.priority) rs
            (ground (arith, d j.id))
          ∙ ground (arith, small.0)),
    All-Stored-puts js (apply_put server (row_id r) r.priority) rs (λ x. ground (arith, d x))
        small.1 (Stored-apply_put js server r rs d h.1),
  )
  | inr e ↦ subst Holds (sym (puts-cons_of_not_needs_put js r rs e)) (
    λ j at. (apply_puts_other js j.id server rs (ground (arith, d j.id)) ∙ h.0 e j at),
    All-Stored-puts js server rs (λ x. ground (arith, d x)) small.1 h.1,
  )
]
  where
    Holds : List (Option ℕ × ℕ) → Type 0
    Holds sent = All (Stored (apply_puts server sent)) (r ∷ rs)

-- The server has every listed job at the priority that the list shows.
find_stored :
    (server : ℕ → ℕ) (x : ℕ) (js : List Job) {o : Job}
    → All (λ j. server j.id ≡ j.priority) js
    → find (λ k. k.id == x) js ≡ some o
    → (o.id ≡ x) × (server x ≡ o.priority)
find_stored server x [] h e = absurd (cc)
find_stored server x (j ∷ js) {o} h e = elim (Bool-cases (j.id == x)) [
  | inl y ↦ ground (arith, h.0)
  | inr n ↦ find_stored server x js h.1 (rw n at e)
]

Stored-of_needs_put :
    (js : List Job) (server : ℕ → ℕ) (r : Row)
    → All (λ j. server j.id ≡ j.priority) js
    → needs_put js r ≡ false
    → Stored server r
unfolding needs_put
Stored-of_needs_put js server r h e j at = elim (Option-cases (find (λ k. k.id == j.id) js)) [
  | inl n ↦ ground (arith, n, at)
  | inr (o, f) ↦ ground (arith, find_stored server j.id js h f, f, at)
]

shows-renumber :
    (x i : ℕ) (os : List (Option Job)) → shows x (renumber i os) ≡ count (has_number x) os
unfolding renumber
shows-renumber x i [] = refl
shows-renumber x i (o ∷ os) = ground (arith, shows-renumber x (i + 1) os)

count-map-some :
    (x : ℕ) (js : List Job) → count (has_number x) (map some js) ≡ count (λ (j : Job). j.id == x) js
count-map-some x [] = refl
count-map-some x (j ∷ js) = ground (arith, count-map-some x js)

count-remove_at :
    (x d : ℕ) (js : List Job)
    → count (has_number x) (get_elem? js d ∷ map some (remove_at d js))
      ≤ count (λ (j : Job). j.id == x) js
count-remove_at x d [] = omega arith
count-remove_at x zero (j ∷ js) = ground (arith, count-map-some x js)
count-remove_at x (suc d) (j ∷ js) = ground (arith, count-remove_at x d js)

shows-updated_rows :
    (x d target : ℕ) (js : List Job)
    → shows x (updated_rows d target js) ≤ count (λ (j : Job). j.id == x) js
unfolding updated_rows reorder
shows-updated_rows x d target js = omega (
  arith,
  shows-renumber x 1 (insert_at target (get_elem? js d) (map some (remove_at d js))),
  count-insert_at (has_number x) target (get_elem? js d) (map some (remove_at d js)),
  count-remove_at x d js,
)

renumber_small :
    (i : ℕ) (os : List (Option Job))
    → i + length os ≤ 11
    → All (λ r. r.priority ≤ 10) (renumber i os)
unfolding renumber
renumber_small i [] h = tt
renumber_small i (o ∷ os) h = (omega arith, renumber_small (i + 1) os (omega arith))

length-reorder :
    (d target : ℕ) (js : List Job) → d < length js → length (reorder d target js) ≡ length js
unfolding reorder
length-reorder d target js h =
    length-insert_at target _ _
    ∙ ap suc (length-map-some (remove_at d js))
    ∙ length-remove_at d js h

All-of_All {ℓ κ} : {A : Type ℓ} {P : A → Type κ} → ((a : A) → P a) → (xs : List A) → All P xs
All-of_All f [] = tt
All-of_All f (x ∷ xs) = (f x, All-of_All f xs)

sent-handle_drop :
    (tag_filter : Option String) (jobs : List Job) (target : ℕ) (v : View) {d : ℕ}
    → v.drag_idx ≡ some d
    → d ≢ target
    → v.sent ≡ []
    → (handle_drop tag_filter jobs target v).sent
      ≡ puts (items tag_filter jobs) (updated_rows d target (items tag_filter jobs))
unfolding handle_drop
sent-handle_drop tag_filter jobs target v e ne fresh = ground (arith, e, fresh)

-- A row is dragged to another position of the shown list, which has at most ten jobs with distinct
-- numbers; nothing was sent before, and the server has the priority that the list shows for every
-- shown job. When the server has handled the requests of the drag, it has the priority of every row
-- of the new list.
pub handle_drop_persists :
    (tag_filter : Option String) (jobs : List Job) (target : ℕ) (v : View) (server : ℕ → ℕ) {d : ℕ}
    → v.drag_idx ≡ some d
    → d ≢ target
    → v.sent ≡ []
    → d < length (items tag_filter jobs)
    → length (items tag_filter jobs) ≤ 10
    → ((x : ℕ) → count (λ (j : Job). j.id == x) (items tag_filter jobs) ≤ 1)
    → All (λ j. server j.id ≡ j.priority) (items tag_filter jobs)
    → let v' = handle_drop tag_filter jobs target v in
      All (Stored (apply_puts server v'.sent)) v'.queue
handle_drop_persists tag_filter jobs target v server {d} e ne fresh hd small distinct known =
    rw
      (
        queue-handle_drop tag_filter jobs target v e ne,
        sent-handle_drop tag_filter jobs target v e ne fresh,
      )
      (All-Stored-puts (items tag_filter jobs) server
        (updated_rows d target (items tag_filter jobs))
        (λ x. omega (arith, distinct x, shows-updated_rows x d target (items tag_filter jobs)))
        (unfold updated_rows in
          renumber_small 1 (reorder d target (items tag_filter jobs))
            (omega (arith, length-reorder d target (items tag_filter jobs) hd)))
        (All-of_All (λ r n. Stored-of_needs_put (items tag_filter jobs) server r known n) _))
