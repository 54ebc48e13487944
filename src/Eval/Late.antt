-- ===== src/Eval/Late.antt =====
-- Progress replies that arrive after their polling has ended.
use ollama_queue.Prelude.{
  ℕ, String, ◌≡◌, refl, ap, sym, subst, ◌∙◌, true, false, Option, none, some, List, [], ◌∷◌, ◌==◌,
  any,
}
use ollama_queue.Eval.{
  Run, Progress, Page, is_over, stop_from, stop_eval_poll, set_interval, start_eval_poll,
  fetch_eval_runs, show_progress, adopt, show_runs, cancelled, show_started, run_started,
  progress_reply, runs_reply, cancel_reply, answer_progress, drop_one, step, run,
}
use ollama_queue.Eval.Panel.{
  IsSteady, stop_eval_poll-live, stop_eval_poll-poll, start_eval_poll-IsSteady,
}

stop-waiting : (o : Option ℕ) (p : Page) → (stop_from o p).waiting ≡ p.waiting
unfolding stop_from
stop-waiting none p = refl
stop-waiting (some t) p = refl

stop_eval_poll-waiting : (p : Page) → (stop_eval_poll p).waiting ≡ p.waiting
unfolding stop_eval_poll
stop_eval_poll-waiting p = stop-waiting p.poll p

stop-active : (o : Option ℕ) (p : Page) → (stop_from o p).active ≡ p.active
unfolding stop_from
stop-active none p = refl
stop-active (some t) p = refl

stop_eval_poll-active : (p : Page) → (stop_eval_poll p).active ≡ p.active
unfolding stop_eval_poll
stop_eval_poll-active p = stop-active p.poll p

-- While a run is shown, no list of runs starts a polling.
adopt-shown :
    (o : Option ℕ) (d : Progress) (runs : List Run) (p : Page) → adopt o (some d) runs p ≡ p
unfolding adopt
adopt-shown none d runs p = refl
adopt-shown (some t) d runs p = refl

show_goes_on :
    (d : Progress) (p : Page)
    → is_over d.status ≡ false
    → show_progress (some d) p ≡ record p { active = some d; stored = some d }
unfolding show_progress
show_goes_on d p h = rw h

show_over :
    (d : Progress) (p : Page)
    → is_over d.status ≡ true
    → show_progress (some d) p
      ≡ fetch_eval_runs (stop_eval_poll (record p { active = some d; stored = some d }))
unfolding show_progress
show_over d p h = rw h

answer_goes_on :
    (p : Page) (r : ℕ) (d : Progress)
    → any (λ x. x == r) p.waiting ≡ true
    → is_over d.status ≡ false
    → answer_progress (any (λ x. x == r) p.waiting) r (some d) p
      ≡ record p { active = some d; stored = some d; waiting = drop_one r p.waiting }
unfolding answer_progress
answer_goes_on p r d w h = rw w (show_goes_on d (record p { waiting = drop_one r p.waiting }) h)

answer_over :
    (p : Page) (r : ℕ) (d : Progress)
    → any (λ x. x == r) p.waiting ≡ true
    → is_over d.status ≡ true
    → answer_progress (any (λ x. x == r) p.waiting) r (some d) p
      ≡ fetch_eval_runs (
          stop_eval_poll
            (record p { active = some d; stored = some d; waiting = drop_one r p.waiting }))
unfolding answer_progress
answer_over p r d w h = rw w (show_over d (record p { waiting = drop_one r p.waiting }) h)

-- The panel shows the progress and nothing polls.
abbrev pub IsFrozen : Progress → Page → Type 0
IsFrozen d p = (p.active ≡ some d) × (p.poll ≡ none) × (p.live ≡ [])

-- When a run is cancelled while a progress request is under way, the reply puts the run back on the
-- panel; nothing polls it then, and no list of runs that is loaded changes that.
pub late_progress :
    (p : Page) (r : ℕ) (d : Progress) (runs : List Run)
    → IsSteady p
    → any (λ x. x == r) p.waiting ≡ true
    → is_over d.status ≡ false
    → IsFrozen d
        (run p (cancel_reply true ∷ progress_reply r (some d) ∷ runs_reply (some runs) ∷ []))
unfolding run step cancelled show_runs fetch_eval_runs
late_progress p r d runs v w h =
    let c = cancelled true p in
    subst (λ q. IsFrozen d (show_runs (some runs) q))
      (sym (answer_goes_on c r d (ap (any (λ x. x == r)) (stop_eval_poll-waiting p) ∙ w) h))
      (subst (IsFrozen d) (sym (adopt-shown c.poll d runs _))
        (refl, stop_eval_poll-poll p, stop_eval_poll-live p v))

-- When the run `b` is started while a request for the run `a` is under way, the reply that `a` is
-- over ends the polling of `b` and shows `a`.
pub other_run_over :
    (p : Page) (a b : ℕ) (status : String) (d : Progress)
    → IsSteady p
    → any (λ x. x == a) p.waiting ≡ true
    → is_over d.status ≡ true
    → IsFrozen d (run p (run_started b status ∷ progress_reply a (some d) ∷ []))
unfolding run step show_started fetch_eval_runs
other_run_over p a b status d v w h =
    let new : Progress = record { run_id = b; status = status } in
    let shown : Page = record p { active = some new; stored = some new } in
    let c = start_eval_poll b shown in
    let cv = start_eval_poll-IsSteady b shown (record { kept = refl; polled = v.polled }) in
    let q : Page = record c { active = some d; stored = some d; waiting = drop_one a c.waiting } in
    subst (IsFrozen d)
      (sym (
        answer_over c a d
          (unfold start_eval_poll set_interval in
            ap (any (λ x. x == a)) (stop_eval_poll-waiting shown) ∙ w)
          h))
      (
        stop_eval_poll-active q,
        stop_eval_poll-poll q,
        stop_eval_poll-live q (record { kept = refl; polled = cv.polled }),
      )
