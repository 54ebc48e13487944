-- ===== src/Queue/Cancel/Undo.antt =====
-- Undone cancels, and the request of a click, over any events of the list.
use ollama_queue.Prelude.{
  ℕ, ◌≡◌, ◌≢◌, refl, sym, ap, subst, true, false, none, some, List, [], ◌∷◌, ◌++◌, arith, ◌==◌,
  ==_iff, if◌then◌else◌, Bool-cases, Option-cases, inl, inr, count, count-append, All, All-map,
}
use ollama_queue.Queue.Cancel.{
  Outcome, accepted, refused, unreachable, Cancels, lookup, without, request_cancel, settle, fire,
  undo_cancel, clear_timers, unmount, Event, click, undo, expire, leave, step, run, IsTracked,
}

lookup-without :
    (j k : ℕ) (es : List (ℕ × ℕ)) → lookup k (without j es) ≡ (if j == k then none else lookup k es)
unfolding lookup without
lookup-without j k [] = ground arith
lookup-without j k ((i, t) ∷ es) = ground (arith, lookup-without j k es)

without-cons_eq :
    (j k t : ℕ) (es : List (ℕ × ℕ)) → (k == j) ≡ true → without j es ≡ without j ((k, t) ∷ es)
unfolding without
without-cons_eq j k t es e = rw e

without-cons_ne :
    (j k t : ℕ) (es : List (ℕ × ℕ))
    → (k == j) ≡ false
    → (k, t) ∷ without j es ≡ without j ((k, t) ∷ es)
unfolding without
without-cons_ne j k t es e = rw e

-- Where the job `j` is pending with the timer `t`, both go.
tracked-without :
    (j t : ℕ) (pending live : List (ℕ × ℕ))
    → lookup j pending ≡ some t
    → All (λ (e : ℕ × ℕ). lookup e.1 pending ≡ some e.0) live
    → All (λ (e : ℕ × ℕ). lookup e.1 (without j pending) ≡ some e.0) (without t live)
tracked-without j t pending [] h k = unfold without in tt
tracked-without j t pending ((u, i) ∷ live) h k = elim (Bool-cases (u == t)) [
  | inl e ↦ subst Tracked (without-cons_eq t u i live e) (tracked-without j t pending live h k.1)
  | inr e ↦
      subst Tracked (without-cons_ne t u i live e)
        (ground (arith, lookup-without j i pending, k.0, h), tracked-without j t pending live h k.1)
]
  where
    Tracked : List (ℕ × ℕ) → Type 0
    Tracked l = All (λ (e : ℕ × ℕ). lookup e.1 (without j pending) ≡ some e.0) l

tracked-idle :
    (j : ℕ) (pending live : List (ℕ × ℕ))
    → lookup j pending ≡ none
    → All (λ (e : ℕ × ℕ). lookup e.1 pending ≡ some e.0) live
    → All (λ (e : ℕ × ℕ). lookup e.1 (without j pending) ≡ some e.0) live
tracked-idle j pending live h k =
    All-map (λ e q. ground (arith, lookup-without j e.1 pending, q, h)) live k

tracked_lookup :
    (t j : ℕ) (pending live : List (ℕ × ℕ))
    → All (λ (e : ℕ × ℕ). lookup e.1 pending ≡ some e.0) live
    → lookup t live ≡ some j
    → lookup j pending ≡ some t
unfolding lookup
tracked_lookup t j pending [] k h = absurd (cc)
tracked_lookup t j pending ((u, i) ∷ live) k h = elim (Bool-cases (u == t)) [
  | inl e ↦ ground (arith, k.0, h, e)
  | inr e ↦ tracked_lookup t j pending live k.1 (rw e at h)
]

module _ (P : ℕ × ℕ → Type 0) where
  All-without : (t : ℕ) (l : List (ℕ × ℕ)) → All P l → All P (without t l)
  All-without t [] h = unfold without in tt
  All-without t ((u, i) ∷ l) h = elim (Bool-cases (u == t)) [
    | inl e ↦ subst (All P) (without-cons_eq t u i l e) (All-without t l h.1)
    | inr e ↦ subst (All P) (without-cons_ne t u i l e) (h.0, All-without t l h.1)
  ]

  clear_timers-All : (es live : List (ℕ × ℕ)) → All P live → All P (clear_timers es live)
  unfolding clear_timers
  clear_timers-All [] live h = h
  clear_timers-All ((j, t) ∷ es) live h =
      clear_timers-All es (without t live) (All-without t live h)

settle_fields :
    (o : Outcome) (s : Cancels)
    → ((settle o s).live ≡ s.live)
      × ((settle o s).pending ≡ s.pending)
      × ((settle o s).posted ≡ s.posted)
unfolding settle
settle_fields accepted s = (refl, refl, refl)
settle_fields (refused code) s = (refl, refl, refl)
settle_fields unreachable s = (refl, refl, refl)

-- A click on a job that is not pending.
tracked-request :
    (j t : ℕ) (pending live : List (ℕ × ℕ))
    → lookup j pending ≡ none
    → All (λ (e : ℕ × ℕ). lookup e.1 pending ≡ some e.0) live
    → All (λ (e : ℕ × ℕ). lookup e.1 ((j, t) ∷ without j pending) ≡ some e.0) ((t, j) ∷ live)
unfolding lookup
tracked-request j t pending live n h =
    (ground arith, All-map (λ e q. ground (arith, lookup-without j e.1 pending, q, n)) live h)

-- The branches of an event, as equations.
step-click_idle :
    (s : Cancels) (j : ℕ) → lookup j s.pending ≡ none → step s (click j) ≡ request_cancel j s
unfolding step
step-click_idle s j n = rw (n, step)

step-click_pending :
    (s : Cancels) (j : ℕ) {t : ℕ} → lookup j s.pending ≡ some t → step s (click j) ≡ s
unfolding step
step-click_pending s j p = rw (p, step)

step-expire_cleared :
    (s : Cancels) (t : ℕ) (o : Outcome) → lookup t s.live ≡ none → step s (expire t o) ≡ s
unfolding step fire
step-expire_cleared s t o n = rw (n, fire)

abbrev fired : ℕ → ℕ → Cancels → Cancels
fired t j s = record s {
  live = without t s.live;
  pending = without j s.pending;
  posted = s.posted ++ j ∷ [];
}

step-expire_live :
    (s : Cancels) (t : ℕ) (o : Outcome) {j : ℕ}
    → lookup t s.live ≡ some j
    → step s (expire t o) ≡ settle o (fired t j s)
unfolding step fire
step-expire_live s t o p = rw (p, fire)

IsTracked-settle : (o : Outcome) (s : Cancels) → IsTracked s → IsTracked (settle o s)
unfolding settle
IsTracked-settle accepted s h = h
IsTracked-settle (refused code) s h = h
IsTracked-settle unreachable s h = h

undo-IsTracked : (s : Cancels) (j : ℕ) → IsTracked s → IsTracked (undo_cancel j s)
unfolding undo_cancel
undo-IsTracked s j h = elim (Option-cases (lookup j s.pending)) [
  | inl n ↦ subst (All _) (sym (kept n)) (tracked-idle j s.pending s.live n h)
  | inr (t, p) ↦ subst (All _) (sym (dropped t p)) (tracked-without j t s.pending s.live p h)
]
  where
    kept : lookup j s.pending ≡ none → (undo_cancel j s).live ≡ s.live
    kept n = rw (n, undo_cancel)

    dropped : (t : ℕ) → lookup j s.pending ≡ some t → (undo_cancel j s).live ≡ without t s.live
    dropped t p = rw (p, undo_cancel)

-- Every running timer stays the one that its job is pending with.
pub step-IsTracked : (s : Cancels) (e : Event) → IsTracked s → IsTracked (step s e)
unfolding step unmount
step-IsTracked s (click j) h = elim (Option-cases (lookup j s.pending)) [
  | inl n ↦
      subst IsTracked (sym (step-click_idle s j n))
        (unfold request_cancel in tracked-request j s.next_timer s.pending s.live n h)
  | inr (t, p) ↦ subst IsTracked (sym (step-click_pending s j p)) h
]
step-IsTracked s (undo j) h = undo-IsTracked s j h
step-IsTracked s (expire t o) h = elim (Option-cases (lookup t s.live)) [
  | inl n ↦ subst IsTracked (sym (step-expire_cleared s t o n)) h
  | inr (j, p) ↦ subst IsTracked (sym (step-expire_live s t o p)) (
      IsTracked-settle o (fired t j s)
        (tracked-without j t s.pending s.live (tracked_lookup t j s.pending s.live h p) h))
]
step-IsTracked s leave h = clear_timers-All _ s.pending s.live h

-- How often the cancel of a job was sent.
abbrev pub posts : ℕ → Cancels → ℕ
posts j s = count (λ k. k == j) s.posted

-- The job is not pending, and its cancel was sent `n` times.
abbrev Idle : ℕ → ℕ → Cancels → Type 0
Idle j n s = (lookup j s.pending ≡ none) × (posts j s ≡ n)

Idle-settle : (j n : ℕ) (o : Outcome) (s : Cancels) → Idle j n s → Idle j n (settle o s)
unfolding settle
Idle-settle j n accepted s h = h
Idle-settle j n (refused code) s h = h
Idle-settle j n unreachable s h = h

step-Idle :
    (j n : ℕ) (s : Cancels) (e : Event)
    → IsTracked s
    → e ≢ click j
    → Idle j n s
    → Idle j n (step s e)
unfolding step undo_cancel unmount
step-Idle j n s (click k) h other i = elim (Option-cases (lookup k s.pending)) [
  | inl m ↦ subst (Idle j n) (sym (step-click_idle s k m)) (
    unfold request_cancel lookup in ground (arith, lookup-without k j s.pending, i.0, differs),
    unfold request_cancel in i.1,
  )
  | inr (t, p) ↦ subst (Idle j n) (sym (step-click_pending s k p)) i
]
  where
    differs : (k == j) ≡ false
    differs = elim (Bool-cases (k == j)) [
      | inl e ↦ absurd (other (ap click ((==_iff k j).0 e)))
      | inr e ↦ e
    ]
step-Idle j n s (undo k) h other i = (rw lookup-without (ground (arith, i.0)), i.1)
step-Idle j n s (expire t o) h other i = elim (Option-cases (lookup t s.live)) [
  | inl m ↦ subst (Idle j n) (sym (step-expire_cleared s t o m)) i
  | inr (k, p) ↦ subst (Idle j n) (sym (step-expire_live s t o p)) (
      Idle-settle j n o (fired t k s) (
        rw lookup-without (ground (arith, i.0)),
        ground (
          arith,
          count-append (λ m. m == j) s.posted (k ∷ []),
          i.0,
          i.1,
          tracked_lookup t k s.pending s.live h p,
        ),
      ))
]
step-Idle j n s leave h other i = i

run-Idle :
    (j n : ℕ) (s : Cancels) (es : List Event)
    → IsTracked s
    → All (λ e. e ≢ click j) es
    → Idle j n s
    → Idle j n (run s es)
unfolding run
run-Idle j n s [] h others i = i
run-Idle j n s (e ∷ es) h others i =
    run-Idle j n (step s e) es (step-IsTracked s e h) others.1 (step-Idle j n s e h others.0 i)

-- After an undo, whatever happens but another click on the job, its cancel is not sent.
pub undo_is_final :
    (s : Cancels) (j : ℕ) (es : List Event)
    → IsTracked s
    → All (λ e. e ≢ click j) es
    → posts j (run (step s (undo j)) es) ≡ posts j s
undo_is_final s j es h others =
    (run-Idle j (posts j s) (step s (undo j)) es (step-IsTracked s (undo j) h) others
      (unfold step undo_cancel in (rw lookup-without (ground arith), refl))).1
