-- ===== src/Queue/Cancel.antt =====
-- The five seconds in which a cancel can be undone (`requestCancel`, `undoCancel`, and the clean-up
-- of the component). A timer is a number that `setTimeout` returns once.
pub mod Undo
use ollama_queue.Prelude.{
  ℕ, suc, ◌+◌, ◌≡◌, refl, ◌∙◌, Bool, true, false, not, Option, none, some, List, [], ◌∷◌, ◌++◌,
  arith, ◌==◌, ==_iff, if◌then◌else◌, Bool-cases, inl, inr, filter, any, count, All, All-map,
}

-- What the request `POST /api/queue/cancel/{id}` came to.
pub data Outcome : Type 0 where
  accepted : Outcome
  refused : ℕ → Outcome
  unreachable : Outcome

pub data CancelError : Type 0 where
  http : ℕ → CancelError
  network : CancelError

pub record Cancels : Type 0 where
  pub pending : List (ℕ × ℕ)  -- the job and its timer
  pub live : List (ℕ × ℕ)  -- the timer and its job
  pub next_timer : ℕ
  pub posted : List ℕ
  pub refreshes : ℕ
  pub error : Option CancelError

unfoldable pub lookup : ℕ → List (ℕ × ℕ) → Option ℕ
lookup j [] = none
lookup j ((k, t) ∷ rest) = if k == j then some t else lookup j rest

-- `delete next[jobId]`, and `clearTimeout(timerId)`.
unfoldable pub without : ℕ → List (ℕ × ℕ) → List (ℕ × ℕ)
without j es = filter (λ e. not (e.0 == j)) es

unfoldable pub request_cancel : ℕ → Cancels → Cancels
unfolding without
request_cancel j s = record s {
  error = none;
  live = (s.next_timer, j) ∷ s.live;
  next_timer = s.next_timer + 1;
  pending = (j, s.next_timer) ∷ without j s.pending;
}

settle : Outcome → Cancels → Cancels
settle accepted s = record s { refreshes = s.refreshes + 1 }
settle (refused code) s = record s { error = some (http code) }
settle unreachable s = record s { error = some network }

-- The callback of the timer `t`, if it was not cleared.
unfoldable pub fire : ℕ → Outcome → Cancels → Cancels
unfolding lookup without settle
fire t outcome s = elim (lookup t s.live) [
  | none ↦ s
  | some j ↦ settle outcome (record s {
    live = without t s.live;
    pending = without j s.pending;
    posted = s.posted ++ j ∷ [];
  })
]

unfoldable pub undo_cancel : ℕ → Cancels → Cancels
unfolding lookup without
undo_cancel j s = record s {
  live = elim (lookup j s.pending) [ none ↦ s.live | some t ↦ without t s.live ];
  pending = without j s.pending;
}

clear_timers : List (ℕ × ℕ) → List (ℕ × ℕ) → List (ℕ × ℕ)
clear_timers [] live = live
clear_timers ((j, t) ∷ rest) live = clear_timers rest (without t live)

unfoldable pub unmount : Cancels → Cancels
unfolding clear_timers without
unmount s = record s { live = clear_timers s.pending s.live }

-- What the user and the clock do. The cancel button of a row is replaced while its job is pending.
pub data Event : Type 0 where
  click : ℕ → Event
  undo : ℕ → Event
  expire : ℕ → Outcome → Event
  leave : Event

unfoldable pub step : Cancels → Event → Cancels
unfolding request_cancel undo_cancel fire unmount
step s (click j) = elim (lookup j s.pending) [ none ↦ request_cancel j s | some _ ↦ s ]
step s (undo j) = undo_cancel j s
step s (expire t outcome) = fire t outcome s
step s leave = unmount s

unfoldable pub run : Cancels → List Event → Cancels
run s [] = s
run s (e ∷ es) = run (step s e) es

-- Every running timer is the one that its job is pending with.
abbrev pub IsTracked : Cancels → Type 0
IsTracked s = All (λ (e : ℕ × ℕ). lookup e.1 s.pending ≡ some e.0) s.live
