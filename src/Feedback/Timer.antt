-- ===== src/Feedback/Timer.antt =====
-- The timer of a success: how many run, and what they do to the action that follows.
use ollama_queue.Prelude.{
  ℕ, zero, suc, ◌+◌, String, Bool, true, false, not, ◌≡◌, refl, sym, ap, ◌∙◌, Option, none, some,
  List, [], ◌∷◌, ◌==◌, filter, any, arith, Bool-cases, inl, inr,
}
use ollama_queue.Feedback.{
  idle, success, Button, or_else, label_for, Event, click, resolved, rejected, expire, unmount,
  is_loading, clear, start_run, succeed, fail, time_out, leave, step, run, fresh,
}

abbrev pub only : Option ℕ → List ℕ
only none = []
only (some t) = t ∷ []

abbrev pub has_timer : Option ℕ → Bool
has_timer none = false
has_timer (some t) = true

-- The running timers are the one in `timerRef`, or none; and a success that is shown has one.
pub record IsTidy (s : Button) : Type 0 where
  pub single : s.live ≡ only s.timer
  pub timed : s.mounted ≡ true → s.phase ≡ success → has_timer s.timer ≡ true

clear-only : (o : Option ℕ) → clear o (only o) ≡ []
unfolding clear
clear-only none = refl
clear-only (some t) = ground arith

-- A timer that runs is the one in `timerRef`, and without it none runs.
filter-only :
    (o : Option ℕ) (t : ℕ)
    → any (λ u. u == t) (only o) ≡ true
    → filter (λ u. not (u == t)) (only o) ≡ []
filter-only none t h = refl
filter-only (some u) t h = ground arith

start_run-IsTidy : (l : String) (s : Button) → IsTidy s → IsTidy (start_run l s)
unfolding start_run
start_run-IsTidy l s v = elim (Bool-cases (is_loading s.phase)) [
  | inl h ↦ rw h v
  | inr h ↦ rw h (record { single = v.single; timed = λ m p. cc })
]

succeed-IsTidy : (m : String) (n : ℕ) (s : Button) → IsTidy s → IsTidy (succeed m n s)
unfolding succeed
succeed-IsTidy m zero s v = v
succeed-IsTidy m (suc n) s v = record {
  single =
      ap (λ l. s.next_timer ∷ clear s.timer l) v.single
      ∙ ap (λ l. s.next_timer ∷ l) (clear-only s.timer);
  timed = λ _ _. refl;
}

fail-IsTidy : (m : String) (n : ℕ) (s : Button) → IsTidy s → IsTidy (fail m n s)
unfolding fail
fail-IsTidy m zero s v = v
fail-IsTidy m (suc n) s v = record { single = v.single; timed = λ _ p. cc }

time_out-IsTidy : (t : ℕ) (s : Button) → IsTidy s → IsTidy (time_out t s)
unfolding time_out
time_out-IsTidy t s v = elim (Bool-cases (any (λ u. u == t) s.live)) [
  | inl h ↦ rw h (record {
    single =
        ap (filter (λ u. not (u == t))) v.single
        ∙ filter-only s.timer t (sym (ap (any (λ u. u == t)) v.single) ∙ h);
    timed = λ _ p. cc;
  })
  | inr h ↦ rw h v
]

leave-IsTidy : (s : Button) → IsTidy s → IsTidy (leave s)
unfolding leave
leave-IsTidy s v = record {
  single = ap (clear s.timer) v.single ∙ clear-only s.timer;
  timed = λ m _. cc;
}

step-IsTidy : {A : Type 0} (e : Event A) (s : Button) → IsTidy s → IsTidy (step s e)
unfolding step
step-IsTidy (click l) s v = start_run-IsTidy l s v
step-IsTidy (resolved l a) s v = succeed-IsTidy (label_for l a) s.in_flight s v
step-IsTidy (rejected m) s v = fail-IsTidy (or_else m "Failed") s.in_flight s v
step-IsTidy (expire t) s v = time_out-IsTidy t s v
step-IsTidy unmount s v = leave-IsTidy s v

-- Whatever happens to the button, at most the timer in `timerRef` runs, and as long as the button is
-- mounted a success that is shown has a timer that will clear it.
pub run-IsTidy : {A : Type 0} (es : List (Event A)) (s : Button) → IsTidy s → IsTidy (run s es)
unfolding run
run-IsTidy [] s v = v
run-IsTidy (e ∷ es) s v = run-IsTidy es (step s e) (step-IsTidy e s v)

pub fresh-IsTidy : IsTidy fresh
fresh-IsTidy = record { single = refl; timed = λ _ p. cc }

runs_on : (t : ℕ) (s : Button) → s.live ≡ t ∷ [] → any (λ u. u == t) s.live ≡ true
runs_on t s h = ap (any (λ u. u == t)) h ∙ (ground arith)

-- While the timer of an earlier success runs, a new click does not stop it: when it goes off the
-- button is idle although the call is still under way, so that another click starts a second call;
-- and where the call failed, its message is gone.
pub early_timer :
    (A : Type 0) (first second : String) (m : Option String) (s : Button) (t : ℕ)
    → is_loading s.phase ≡ false
    → s.live ≡ t ∷ []
    → ((run {A = A} s (click first ∷ expire t ∷ click second ∷ [])).in_flight ≡ s.in_flight + 2)
      × ((run {A = A} s (click first ∷ rejected m ∷ expire t ∷ [])).phase ≡ idle)
      × ((run {A = A} s (click first ∷ rejected m ∷ expire t ∷ [])).msg ≡ "")
unfolding run step start_run time_out fail or_else
early_timer A first second m s t h e =
    (rw (h, runs_on t s e) (omega arith), rw (h, runs_on t s e), rw (h, runs_on t s e))
