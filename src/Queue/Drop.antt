-- ===== src/Queue/Drop.antt =====
-- `handleDrop` on the shown queue.
use mathlib.Core.List.{Perm}
use mathlib.Core.List.Perm
use mathlib.Core.Option.{some-injective}
use ollama_queue.Prelude.{
  ℕ, zero, suc, ◌+◌, ◌≤◌, ◌<◌, ◌≡◌, ◌≢◌, refl, ap, subst, String, Bool, true, Option, none, some,
  List, [], ◌∷◌, map, arith, get_elem?, length, All, count, filter,
}
use ollama_queue.Queue.{
  Job, has_tag, items, remove_at, insert_at, Row, renumber, reorder, updated_rows, View,
  handle_drop,
}

module _ {ℓ} {A : Type ℓ} where
  get_elem?-insert_at_self :
      (i : ℕ) (y : A) (xs : List A) → i ≤ length xs → get_elem? (insert_at i y xs) i ≡ some y
  get_elem?-insert_at_self zero y xs h = refl
  get_elem?-insert_at_self (suc i) y [] h = absurd (omega arith)
  get_elem?-insert_at_self (suc i) y (x ∷ xs) h = get_elem?-insert_at_self i y xs (omega arith)

  remove_at-insert_at :
      (i : ℕ) (y : A) (xs : List A) → i ≤ length xs → remove_at i (insert_at i y xs) ≡ xs
  remove_at-insert_at zero y xs h = refl
  remove_at-insert_at (suc i) y [] h = absurd (omega arith)
  remove_at-insert_at (suc i) y (x ∷ xs) h =
      ap (λ l. x ∷ l) (remove_at-insert_at i y xs (omega arith))

  pub length-remove_at :
      (d : ℕ) (xs : List A) → d < length xs → suc (length (remove_at d xs)) ≡ length xs
  length-remove_at d [] h = absurd (omega arith)
  length-remove_at zero (x ∷ xs) h = refl
  length-remove_at (suc d) (x ∷ xs) h = ap suc (length-remove_at d xs (omega arith))

  pub length-insert_at : (i : ℕ) (y : A) (xs : List A) → length (insert_at i y xs) ≡ suc (length xs)
  length-insert_at zero y xs = refl
  length-insert_at (suc i) y [] = refl
  length-insert_at (suc i) y (x ∷ xs) = ap suc (length-insert_at i y xs)

  get_elem?_in_range : (d : ℕ) (xs : List A) → d < length xs → (x : A) × (get_elem? xs d ≡ some x)
  get_elem?_in_range d [] h = absurd (omega arith)
  get_elem?_in_range zero (x ∷ xs) h = (x, refl)
  get_elem?_in_range (suc d) (x ∷ xs) h = get_elem?_in_range d xs (omega arith)

  insert_at-perm : (i : ℕ) (y : A) (xs : List A) → Perm (insert_at i y xs) (y ∷ xs)
  insert_at-perm zero y xs = Perm.refl _
  insert_at-perm (suc i) y [] = Perm.refl _
  insert_at-perm (suc i) y (x ∷ xs) =
      Perm.trans (Perm.cons x (insert_at-perm i y xs)) (Perm.swap _ _ _)

  remove_at-perm :
      (d : ℕ) (xs : List A) {x : A} → get_elem? xs d ≡ some x → Perm (x ∷ remove_at d xs) xs
  remove_at-perm d [] h = absurd (cc)
  remove_at-perm zero (x ∷ xs) h =
      subst (λ y. Perm (y ∷ xs) (x ∷ xs)) (some-injective _ _ h) (Perm.refl (x ∷ xs))
  remove_at-perm (suc d) (y ∷ xs) h =
      Perm.trans (Perm.swap _ _ _) (Perm.cons y (remove_at-perm d xs h))

  pub count-insert_at :
      (p : A → Bool) (i : ℕ) (y : A) (xs : List A) → count p (insert_at i y xs) ≡ count p (y ∷ xs)
  count-insert_at p zero y xs = refl
  count-insert_at p (suc i) y [] = refl
  count-insert_at p (suc i) y (x ∷ xs) = ground (arith, count-insert_at p i y xs)

  pub All-insert_at {κ} :
      (P : A → Type κ) (i : ℕ) (y : A) (xs : List A) → P y → All P xs → All P (insert_at i y xs)
  All-insert_at P zero y xs h k = (h, k)
  All-insert_at P (suc i) y [] h k = (h, tt)
  All-insert_at P (suc i) y (x ∷ xs) h k = (k.0, All-insert_at P i y xs h k.1)

pub length-map-some : (js : List Job) → length (map {B = Option Job} some js) ≡ length js
length-map-some [] = refl
length-map-some (j ∷ js) = ap suc (length-map-some js)

pub map-job-renumber : (i : ℕ) (os : List (Option Job)) → map (λ r. r.job) (renumber i os) ≡ os
unfolding renumber
map-job-renumber i [] = refl
map-job-renumber i (o ∷ os) = ap (λ l. o ∷ l) (map-job-renumber (i + 1) os)

priority-renumber :
    (i : ℕ) (os : List (Option Job)) (k : ℕ) (r : Row)
    → get_elem? (renumber i os) k ≡ some r
    → r.priority ≡ i + k
unfolding renumber
priority-renumber i [] k r h = absurd (cc)
priority-renumber i (o ∷ os) zero r h = ground arith
priority-renumber i (o ∷ os) (suc k) r h = omega (arith, priority-renumber (i + 1) os k r h)

map_some-perm : {xs ys : List Job} → Perm xs ys → Perm (map {B = Option Job} some xs) (map some ys)
map_some-perm p = Perm.map some p

pub queue-handle_drop :
    (tag_filter : Option String) (jobs : List Job) (target : ℕ) (v : View) {d : ℕ}
    → v.drag_idx ≡ some d
    → d ≢ target
    → (handle_drop tag_filter jobs target v).queue ≡ updated_rows d target (items tag_filter jobs)
unfolding handle_drop
queue-handle_drop tag_filter jobs target v e ne = ground (arith, e)

-- The jobs that the list shows: with a tag chosen those that bear it, otherwise all.
abbrev pub is_listed : Option String → Job → Bool
is_listed none j = true
is_listed (some t) j = has_tag t j

items-filter : (o : Option String) (jobs : List Job) → items o jobs ≡ filter (is_listed o) jobs
unfolding items
items-filter none [] = refl
items-filter none (j ∷ js) = ap (λ l. j ∷ l) (items-filter none js)
items-filter (some t) jobs = refl

-- A drag from one position of the shown list to another makes a queue of exactly the shown jobs, each
-- once, with the dragged job at the target and the others in their order, and numbers the rows from
-- 1. The shown jobs are all jobs, or with a tag chosen those that bear it: the queue then loses the
-- others.
pub handle_drop_moves :
    (tag_filter : Option String) (jobs : List Job) (target : ℕ) (v : View) {d : ℕ}
    → v.drag_idx ≡ some d
    → d ≢ target
    → d < length (items tag_filter jobs)
    → target < length (items tag_filter jobs)
    → let rows = (handle_drop tag_filter jobs target v).queue in
      let shown = items tag_filter jobs in
      (get_elem? (map (λ r. r.job) rows) target ≡ some (get_elem? shown d))
      × (remove_at target (map (λ r. r.job) rows) ≡ map some (remove_at d shown))
      × Perm (map (λ r. r.job) rows) (map some (filter (is_listed tag_filter) jobs))
      × ((k : ℕ) (r : Row) → get_elem? rows k ≡ some r → r.priority ≡ k + 1)
unfolding updated_rows reorder
handle_drop_moves tag_filter jobs target v {d} e ne hd ht =
    rw (queue-handle_drop tag_filter jobs target v e ne, map-job-renumber)
      (
        get_elem?-insert_at_self target _ _ fits,
        remove_at-insert_at target _ _ fits,
        subst
            (λ l.
              Perm (insert_at target (get_elem? shown d) (map some (remove_at d shown)))
                (map some l))
            (items-filter tag_filter jobs)
            (Perm.trans (insert_at-perm target _ _) (
              let (x, at) = get_elem?_in_range d shown hd in
              rw at (map_some-perm (remove_at-perm d shown at)))),
        λ k r h. omega (arith, priority-renumber 1 _ k r h),
      )
  where
    shown : List Job
    shown = items tag_filter jobs

    fits : target ≤ length (map {B = Option Job} some (remove_at d shown))
    fits = omega (arith, length-map-some (remove_at d shown), length-remove_at d shown hd)
