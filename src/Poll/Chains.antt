-- ===== src/Poll/Chains.antt =====
-- How many polling loops run: each is a running timer or a request that waits for its reply.
use ollama_queue.Prelude.{
  ℕ, zero, suc, ◌+◌, ◌*◌, ◌≤◌, ◌≡◌, refl, Bool, true, false, not, Option, none, some, List, [], ◌∷◌,
  ◌==◌, if◌then◌else◌, arith, filter, count, length,
}
use ollama_queue.Poll.{
  State, Reply, body, not_ok, throws, Load, load_throws, loaded, Event, start, stop, tab_shown,
  expire, status_reply, load_reply, set_timer, clear_timer, fetch_all, settle, finish_poll,
  new_interval, finish_load, clear_from, rearm, answer_poll, answer_load, has_timer, step, run,
  init,
}

module _ {D Q : Type 0} where
  -- No two running timers have one number, and a new one gets a fresh number.
  pub record HasFreshTimers (s : State D Q) : Type 0 where
    pub once : (t : ℕ) → count (λ u. u == t) s.timers ≤ 1
    pub fresh : (t : ℕ) → s.next_timer ≤ t → count (λ u. u == t) s.timers ≡ 0

  abbrev pub loops : State D Q → ℕ
  loops s = length s.timers + s.polls

  -- From `s` to `t` the timers stay fresh, and at least `gain` loops are added to all but `loss`.
  record Grows (loss gain : ℕ) (s t : State D Q) : Type 0 where
    timed : HasFreshTimers t
    grown : loops s + gain ≤ loops t + loss

length-filter_ne :
    (t : ℕ) (l : List ℕ) → length (filter (λ u. not (u == t)) l) + count (λ u. u == t) l ≡ length l
length-filter_ne t [] = omega arith
length-filter_ne t (x ∷ l) = ground (arith, length-filter_ne t l)

count-filter_ne :
    (x t : ℕ) (l : List ℕ)
    → count (λ u. u == x) (filter (λ u. not (u == t)) l) ≤ count (λ u. u == x) l
count-filter_ne x t [] = omega arith
count-filter_ne x t (y ∷ l) = ground (arith, count-filter_ne x t l)

module _ {D Q : Type 0} (s : State D Q) (h : HasFreshTimers s) where
  set_timer-Grows : (delay : ℕ) → Grows 0 1 s (set_timer delay s)
  unfolding set_timer
  set_timer-Grows delay = record {
    timed = record {
      once = λ t. ground (arith, h.once t, h.fresh t);
      fresh = λ t k. ground (arith, h.fresh t);
    };
    grown = omega arith;
  }

  drop_timer-Grows :
      (t : ℕ) → Grows 1 0 s (record s { timers = filter (λ u. not (u == t)) s.timers })
  drop_timer-Grows t = record {
    timed = record {
      once = λ x. omega (arith, h.once x, count-filter_ne x t s.timers);
      fresh = λ x k. omega (arith, h.fresh x k, count-filter_ne x t s.timers);
    };
    grown = omega (arith, length-filter_ne t s.timers, h.once t);
  }

  clear_from-Grows : (o : Option ℕ) → Grows 1 0 s (clear_from o s)
  unfolding clear_from
  clear_from-Grows none = record { timed = h; grown = omega arith }
  clear_from-Grows (some t) = drop_timer-Grows t

  clear_timer-Grows : Grows 1 0 s (clear_timer s)
  unfolding clear_timer
  clear_timer-Grows = clear_from-Grows s.poll_timer

module _ {D Q : Type 0} where
  -- A change that leaves the timers and the waiting requests alone.
  Grows-same :
      (s t : State D Q)
      → HasFreshTimers s
      → t.timers ≡ s.timers
      → t.next_timer ≡ s.next_timer
      → t.polls ≡ s.polls
      → Grows 0 0 s t
  Grows-same s t h a b c = record {
    timed = record { once = λ x. rw a (h.once x); fresh = λ x k. rw a (h.fresh x (rw b at k)) };
    grown = rw (a, c) (omega arith);
  }

  Grows-trans :
      {a b c d : ℕ} {s t u : State D Q} → Grows a b s t → Grows c d t u → Grows (a + c) (b + d) s u
  Grows-trans p q = record { timed = q.timed; grown = omega (arith, p.grown, q.grown) }

  settle-Grows : (r : Reply D Q) (s : State D Q) → HasFreshTimers s → Grows 0 0 s (settle r s)
  unfolding settle
  settle-Grows (body d q) s h = Grows-same s _ h refl refl refl
  settle-Grows not_ok s h = Grows-same s _ h refl refl refl
  settle-Grows throws s h = Grows-same s _ h refl refl refl

  finish_poll-Grows :
      (r : Reply D Q) (s : State D Q) → HasFreshTimers s → Grows 0 1 s (finish_poll r s)
  unfolding finish_poll
  finish_poll-Grows (body d q) s h =
      let g = settle-Grows (body d q) s h in Grows-trans g (set_timer-Grows _ g.timed _)
  finish_poll-Grows not_ok s h =
      let g = settle-Grows not_ok s h in Grows-trans g (set_timer-Grows _ g.timed _)
  finish_poll-Grows throws s h =
      let g = settle-Grows throws s h in Grows-trans g (set_timer-Grows _ g.timed _)

  Grows-if :
      {a b : ℕ} {s t u : State D Q} (c : Bool)
      → Grows a b s t
      → Grows a b s u
      → Grows a b s (if c then t else u)
  Grows-if true p q = p
  Grows-if false p q = q

  -- A loss and a gain of one loop.
  Grows-even : {s t : State D Q} → Grows 1 1 s t → Grows 0 0 s t
  Grows-even p = record { timed = p.timed; grown = omega (arith, p.grown) }

  rearm-Grows : (o : Option ℕ) (s : State D Q) → HasFreshTimers s → Grows 0 0 s (rearm o s)
  unfolding rearm
  rearm-Grows none s h = Grows-same s s h refl refl refl
  rearm-Grows (some _) s h =
      let g = clear_timer-Grows s h in Grows-even (Grows-trans g (set_timer-Grows _ g.timed _))

  new_interval-Grows : (pi : ℕ) (s : State D Q) → HasFreshTimers s → Grows 0 0 s (new_interval pi s)
  unfolding new_interval
  new_interval-Grows pi s h =
      let stay = Grows-same s s h refl refl refl in
      let same = Grows-same s (record s { poll_interval = pi * 1000 }) h refl refl refl in
      Grows-if (pi == 0) stay (
        Grows-if (pi * 1000 == s.poll_interval) stay
          (Grows-trans same (rearm-Grows s.poll_timer _ same.timed)))

  finish_load-Grows :
      (l : Load Q) (s : State D Q) → HasFreshTimers s → Grows 0 0 s (finish_load l s)
  unfolding finish_load
  finish_load-Grows load_throws s h = Grows-same s _ h refl refl refl
  finish_load-Grows (loaded q none) s h = Grows-same s _ h refl refl refl
  finish_load-Grows (loaded q (some v)) s h =
      let same = Grows-same s _ h refl refl refl in
      Grows-trans same (new_interval-Grows v _ same.timed)

  answer_poll-Grows :
      (n : ℕ) (r : Reply D Q) (s : State D Q)
      → HasFreshTimers s
      → s.polls ≡ n
      → Grows 0 0 s (answer_poll n r s)
  unfolding answer_poll
  answer_poll-Grows zero r s h e = Grows-same s s h refl refl refl
  answer_poll-Grows (suc n) r s h e =
      let less : Grows 1 0 s (record s { polls = n }) = record {
        timed = record { once = h.once; fresh = h.fresh };
        grown = omega arith;
      } in
      Grows-even (Grows-trans less (finish_poll-Grows r _ less.timed))

  answer_load-Grows :
      (n : ℕ) (l : Load Q) (s : State D Q) → HasFreshTimers s → Grows 0 0 s (answer_load n l s)
  unfolding answer_load
  answer_load-Grows zero l s h = Grows-same s s h refl refl refl
  answer_load-Grows (suc n) l s h =
      let same = Grows-same s (record s { loads = n }) h refl refl refl in
      Grows-trans same (finish_load-Grows l _ same.timed)

  -- What an event may take from the loops, and what it adds at least.
  abbrev pub stops : Event D Q → ℕ
  stops stop = 1
  stops _ = 0

  abbrev pub starts : Event D Q → ℕ
  starts start = 2
  starts _ = 0

  step-Grows :
      (s : State D Q) (e : Event D Q) → HasFreshTimers s → Grows (stops e) (starts e) s (step s e)
  unfolding step
  step-Grows s start h =
      let more : Grows 0 1 s (fetch_all s) = record {
        timed = record { once = h.once; fresh = h.fresh };
        grown = omega arith;
      } in
      let set = Grows-trans more (set_timer-Grows (fetch_all s) more.timed s.poll_interval) in
      Grows-trans set (Grows-same _ _ set.timed refl refl refl)
  step-Grows s stop h =
      let g = clear_timer-Grows s h in Grows-trans g (Grows-same _ _ g.timed refl refl refl)
  step-Grows s tab_shown h =
      Grows-if s.has_handler
        (record { timed = record { once = h.once; fresh = h.fresh }; grown = omega arith })
        (Grows-same s s h refl refl refl)
  step-Grows s (expire t) h =
      let d = drop_timer-Grows s h t in
      Grows-if (has_timer t s)
        (record {
          timed = record { once = d.timed.once; fresh = d.timed.fresh };
          grown = omega (arith, d.grown);
        })
        (Grows-same s s h refl refl refl)
  step-Grows s (status_reply r) h = answer_poll-Grows s.polls r s h refl
  step-Grows s (load_reply l) h = answer_load-Grows s.loads l s h

  abbrev pub total : (Event D Q → ℕ) → List (Event D Q) → ℕ
  total f [] = 0
  total f (e ∷ es) = f e + total f es

  run-loops :
      (s : State D Q) (es : List (Event D Q))
      → HasFreshTimers s
      → loops s + total starts es ≤ loops (run s es) + total stops es
  unfolding run
  run-loops s [] h = omega arith
  run-loops s (e ∷ es) h =
      let g = step-Grows s e h in omega (arith, g.grown, run-loops (step s e) es g.timed)

  -- Whatever the events, the loops that run are at least twice the calls of `startPolling` less
  -- the calls of `stopPolling`: a start begins two loops, and a stop ends one at most.
  pub loops-run :
      (q : Q) (es : List (Event D Q))
      → total starts es ≤ loops (run (init {D = D} q) es) + total stops es
  loops-run q es =
      let timed : HasFreshTimers (init {D = D} q) = record {
        once = λ t. omega arith;
        fresh = λ t k. omega arith;
      } in
      omega (arith, run-loops (init q) es timed)
