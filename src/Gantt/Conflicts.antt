-- ===== src/Gantt/Conflicts.antt =====
-- What `findHeavyConflicts` finds, against a description by positions in the list.
use ollama_queue.Prelude.{
  ◌<◌, ◌≡◌, refl, ◌↔◌, ◌⊎◌, inl, inr, Bool, true, ◌&&◌, ◌||◌, List, [], ◌∷◌, ◌++◌, arith,
  Bool-cases, any, filter, eq_iff, ==_iff,
}
use ollama_queue.Gantt.{
  JobId, row, block, id_eq, Job, job_end, overlaps, pairs_with, get_conflicting_pairs, has_id,
  add_id, add_pairs, is_heavy, find_heavy_conflicts,
}

pub id_eq_iff : (a b : JobId) → (id_eq a b ≡ true) ↔ (a ≡ b)
unfolding id_eq
id_eq_iff (row a) (row b) = ground (arith, ==_iff a b)
id_eq_iff (block s) (block t) = ground (arith, eq_iff s t)
id_eq_iff (row _) (block _) = ground arith
id_eq_iff (block _) (row _) = ground arith

pub has_id-append :
    (xs ys : List JobId) (x : JobId) → has_id (xs ++ ys) x ≡ (has_id xs x || has_id ys x)
unfolding has_id
has_id-append [] ys x = refl
has_id-append (y ∷ xs) ys x = ground (arith, has_id-append xs ys x)

pub has_id-add_id :
    (ids : List JobId) (y x : JobId) → has_id (add_id y ids) x ≡ (has_id ids x || id_eq y x)
unfolding add_id has_id
has_id-add_id ids y x = ground (arith, has_id-append ids (y ∷ []) x, id_eq_iff y x)

abbrev touches : JobId → Job × Job → Bool
touches x p = id_eq p.0.id x || id_eq p.1.id x

has_id-add_pairs :
    (x : JobId) (ids : List JobId) (ps : List (Job × Job))
    → has_id (add_pairs ids ps) x ≡ (has_id ids x || any (touches x) ps)
unfolding add_pairs
has_id-add_pairs x ids [] = ground arith
has_id-add_pairs x ids ((a, b) ∷ ps) = ground (
  arith,
  has_id-add_pairs x (add_id b.id (add_id a.id ids)) ps,
  has_id-add_id (add_id a.id ids) b.id x,
  has_id-add_id ids a.id x,
)

-- The element stands in the list; the first stands before the second.
abbrev pub In : Job → List Job → Type 0
In b [] = ⊥
In b (x ∷ xs) = (x ≡ b) ⊎ In b xs

abbrev pub Before : Job → Job → List Job → Type 0
Before a b [] = ⊥
Before a b (x ∷ xs) = ((x ≡ a) × In b xs) ⊎ Before a b xs

any-append :
    (q : Job × Job → Bool) (xs ys : List (Job × Job)) → any q (xs ++ ys) ≡ (any q xs || any q ys)
any-append q [] ys = refl
any-append q (x ∷ xs) ys = ground (arith, any-append q xs ys)

module _ (q : Job × Job → Bool) where
  any-pairs_with :
      (a : Job) (js : List Job)
      → any q (pairs_with a js) ≡ true
      → (b : Job) × In b js × (overlaps a b ≡ true) × (q (a, b) ≡ true)
  unfolding pairs_with
  any-pairs_with a [] h = cc
  any-pairs_with a (b ∷ js) h = elim (Bool-cases (overlaps a b && q (a, b))) [
    | inl e ↦ (b, inl refl, ground arith, ground arith)
    | inr e ↦ let (c, at, o, t) = any-pairs_with a js (ground arith) in (c, inr at, o, t)
  ]

  any-pairs_with_of_In :
      (a b : Job) (js : List Job)
      → In b js
      → overlaps a b ≡ true
      → q (a, b) ≡ true
      → any q (pairs_with a js) ≡ true
  unfolding pairs_with
  any-pairs_with_of_In a b [] at o t = absurd at
  any-pairs_with_of_In a b (c ∷ js) (inl e) o t = ground arith
  any-pairs_with_of_In a b (c ∷ js) (inr at) o t =
      ground (arith, any-pairs_with_of_In a b js at o t)

  any-get_conflicting_pairs :
      (js : List Job)
      → any q (get_conflicting_pairs js) ≡ true
      → (a : Job) × (b : Job) × Before a b js × (overlaps a b ≡ true) × (q (a, b) ≡ true)
  unfolding get_conflicting_pairs
  any-get_conflicting_pairs [] h = cc
  any-get_conflicting_pairs (a ∷ js) h = elim (Bool-cases (any q (pairs_with a js))) [
    | inl e ↦ let (b, at, o, t) = any-pairs_with a js e in (a, b, inl (refl, at), o, t)
    | inr e ↦
        let (c, d, at, o, t) =
          any-get_conflicting_pairs js
            (ground (arith, any-append q (pairs_with a js) (get_conflicting_pairs js))) in
        (c, d, inr at, o, t)
  ]

  any-get_conflicting_pairs_of_Before :
      (a b : Job) (js : List Job)
      → Before a b js
      → overlaps a b ≡ true
      → q (a, b) ≡ true
      → any q (get_conflicting_pairs js) ≡ true
  unfolding get_conflicting_pairs
  any-get_conflicting_pairs_of_Before a b [] at o t = absurd at
  any-get_conflicting_pairs_of_Before a b (c ∷ js) (inl (e, at)) o t = rw e (
      ground (
        arith,
        any-append q (pairs_with a js) (get_conflicting_pairs js),
        any-pairs_with_of_In a b js at o t,
      ))
  any-get_conflicting_pairs_of_Before a b (c ∷ js) (inr at) o t = ground (
    arith,
    any-append q (pairs_with c js) (get_conflicting_pairs js),
    any-get_conflicting_pairs_of_Before a b js at o t,
  )

module _ (p : Job → Bool) where
  In-filter : (b : Job) (js : List Job) → In b (filter p js) → In b js × (p b ≡ true)
  In-filter b [] at = absurd at
  In-filter b (c ∷ js) at = elim (Bool-cases (p c)) [
    | inl e ↦ elim (rw e at at) [
      | inl same ↦ (inl same, rw same at e)
      | inr later ↦ let (m, h) = In-filter b js later in (inr m, h)
    ]
    | inr e ↦ let (m, h) = In-filter b js (rw e at at) in (inr m, h)
  ]

  In-filter_of_In : (b : Job) (js : List Job) → In b js → p b ≡ true → In b (filter p js)
  In-filter_of_In b [] at h = absurd at
  In-filter_of_In b (c ∷ js) (inl same) h = rw (same, h) (inl refl)
  In-filter_of_In b (c ∷ js) (inr later) h = elim (Bool-cases (p c)) [
    | inl e ↦ rw e (inr (In-filter_of_In b js later h))
    | inr e ↦ rw e (In-filter_of_In b js later h)
  ]

  Before-filter :
      (a b : Job) (js : List Job)
      → Before a b (filter p js)
      → Before a b js × (p a ≡ true) × (p b ≡ true)
  Before-filter a b [] at = absurd at
  Before-filter a b (c ∷ js) at = elim (Bool-cases (p c)) [
    | inl e ↦ elim (rw e at at) [
      | inl (same, later) ↦ let (m, h) = In-filter b js later in (inl (same, m), rw same at e, h)
      | inr later ↦ let (m, h, k) = Before-filter a b js later in (inr m, h, k)
    ]
    | inr e ↦ let (m, h, k) = Before-filter a b js (rw e at at) in (inr m, h, k)
  ]

  Before-filter_of_Before :
      (a b : Job) (js : List Job)
      → Before a b js
      → p a ≡ true
      → p b ≡ true
      → Before a b (filter p js)
  Before-filter_of_Before a b [] at h k = absurd at
  Before-filter_of_Before a b (c ∷ js) (inl (same, later)) h k =
      rw (same, h) (inl (refl, In-filter_of_In b js later k))
  Before-filter_of_Before a b (c ∷ js) (inr later) h k = elim (Bool-cases (p c)) [
    | inl e ↦ rw e (inr (Before-filter_of_Before a b js later h k))
    | inr e ↦ rw e (Before-filter_of_Before a b js later h k)
  ]

-- Two heavy jobs of the list run at the same time, and one of them has the identifier.
abbrev pub InConflict : JobId → List Job → Type 0
InConflict x jobs =
    (a : Job) × (b : Job) × Before a b jobs
    × (is_heavy a ≡ true)
    × (is_heavy b ≡ true)
    × (a.next_run < job_end b)
    × (b.next_run < job_end a)
    × ((a.id ≡ x) ⊎ (b.id ≡ x))

touches_iff : (x : JobId) (a b : Job) → (touches x (a, b) ≡ true) ↔ ((a.id ≡ x) ⊎ (b.id ≡ x))
touches_iff x a b = ground (arith, id_eq_iff a.id x, id_eq_iff b.id x)

overlaps_iff :
    (a b : Job) → (overlaps a b ≡ true) ↔ ((a.next_run < job_end b) × (b.next_run < job_end a))
unfolding overlaps
overlaps_iff a b = ground arith

has_id-find_heavy_conflicts :
    (jobs : List Job) (x : JobId)
    → has_id (find_heavy_conflicts jobs) x
      ≡ any (touches x) (get_conflicting_pairs (filter is_heavy jobs))
unfolding find_heavy_conflicts has_id
has_id-find_heavy_conflicts jobs x =
    has_id-add_pairs x [] (get_conflicting_pairs (filter is_heavy jobs))

-- The set holds exactly the identifiers of heavy jobs that run at the same time as another heavy
-- job of the list.
pub find_heavy_conflicts_iff :
    (jobs : List Job) (x : JobId)
    → (has_id (find_heavy_conflicts jobs) x ≡ true) ↔ InConflict x jobs
find_heavy_conflicts_iff jobs x = (
  λ h.
      (let (a, b, at, o, t) =
          any-get_conflicting_pairs (touches x) (filter is_heavy jobs)
            (rw has_id-find_heavy_conflicts at h) in
        let (m, ha, hb) = Before-filter is_heavy a b jobs at in
        let (l, r) = (overlaps_iff a b).0 o in (a, b, m, ha, hb, l, r, (touches_iff x a b).0 t)),
  λ (a, b, m, ha, hb, l, r, t). rw has_id-find_heavy_conflicts (
      any-get_conflicting_pairs_of_Before (touches x) a b (filter is_heavy jobs)
        (Before-filter_of_Before is_heavy a b jobs m ha hb) ((overlaps_iff a b).1 (l, r))
        ((touches_iff x a b).1 t)),
)
