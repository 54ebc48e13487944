-- ===== src/Queue/Filter.antt =====
-- What a drag does to the shown queue while a tag filter is set.
use ollama_queue.Prelude.{
  ℕ, zero, suc, ◌+◌, ◌≡◌, ◌≢◌, String, true, Option, some, List, [], ◌∷◌, map, Bool-cases, inl, inr,
  filter, get_elem?, All, arith,
}
use ollama_queue.Queue.{
  Job, has_tag, items, remove_at, renumber, reorder, updated_rows, View, handle_drop,
}
use ollama_queue.Queue.Drop.{All-insert_at, queue-handle_drop}

abbrev pub Tagged : String → Option Job → Type 0
Tagged t o = (j : Job) → o ≡ some j → has_tag t j ≡ true

All-filter : (t : String) (js : List Job) → All (λ j. has_tag t j ≡ true) (filter (has_tag t) js)
All-filter t [] = tt
All-filter t (j ∷ js) = elim (Bool-cases (has_tag t j)) [
  | inl e ↦ rw e (e, All-filter t js)
  | inr e ↦ rw e (All-filter t js)
]

Tagged-get_elem? :
    (t : String) (d : ℕ) (js : List Job)
    → All (λ j. has_tag t j ≡ true) js
    → Tagged t (get_elem? js d)
Tagged-get_elem? t d [] h j e = absurd (cc)
Tagged-get_elem? t zero (k ∷ js) h j e = ground (arith, h.0)
Tagged-get_elem? t (suc d) (k ∷ js) h j e = Tagged-get_elem? t d js h.1 j e

Tagged-map-some :
    (t : String) (js : List Job) → All (λ j. has_tag t j ≡ true) js → All (Tagged t) (map some js)
Tagged-map-some t [] h = tt
Tagged-map-some t (k ∷ js) h = (λ j e. ground (arith, h.0), Tagged-map-some t js h.1)

Tagged-remove_at :
    (t : String) (d : ℕ) (js : List Job)
    → All (λ j. has_tag t j ≡ true) js
    → All (Tagged t) (map some (remove_at d js))
Tagged-remove_at t d [] h = tt
Tagged-remove_at t zero (k ∷ js) h = Tagged-map-some t js h.1
Tagged-remove_at t (suc d) (k ∷ js) h = (λ j e. ground (arith, h.0), Tagged-remove_at t d js h.1)

Tagged-renumber :
    (t : String) (i : ℕ) (os : List (Option Job))
    → All (Tagged t) os
    → All (λ r. Tagged t r.job) (renumber i os)
unfolding renumber
Tagged-renumber t i [] h = tt
Tagged-renumber t i (o ∷ os) h = (h.0, Tagged-renumber t (i + 1) os h.1)

-- A drag under a tag filter leaves in the queue only jobs with that tag: the others are gone from
-- the shown queue, although they still wait on the server.
pub handle_drop_filtered :
    (t : String) (jobs : List Job) (target : ℕ) (v : View) {d : ℕ}
    → v.drag_idx ≡ some d
    → d ≢ target
    → All (λ r. Tagged t r.job) (handle_drop (some t) jobs target v).queue
handle_drop_filtered t jobs target v {d} e ne = rw (queue-handle_drop (some t) jobs target v e ne) (
    unfold updated_rows reorder items in
    Tagged-renumber t 1 _ (
      All-insert_at (Tagged t) target _ _
        (Tagged-get_elem? t d (filter (has_tag t) jobs) (All-filter t jobs))
        (Tagged-remove_at t d (filter (has_tag t) jobs) (All-filter t jobs))))
