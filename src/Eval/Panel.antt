-- ===== src/Eval/Panel.antt =====
-- The panel of the active run: what keeps it in step with the storage and with the polling.
use ollama_queue.Prelude.{
  ℕ, String, ◌≡◌, refl, ◌∙◌, ap, Bool, true, false, not, Option, none, some, List, [], ◌∷◌, ◌==◌,
  filter, arith, Bool-cases, inl, inr, find,
}
use ollama_queue.Eval.{
  Run, Progress, Page, is_over, is_active, stop_from, stop_eval_poll, set_interval, start_eval_poll,
  fetch_eval_runs, ask_progress, tick, show_progress, detect, adopt, show_runs, cancelled,
  recheck_from, recheck, show_started, Event, run_started, poll_run, stop_polling, tick_of,
  progress_reply, runs_reply, cancel_reply, startup_reply, reload_runs, answer_progress, drop_one,
  step, run, opened,
}

abbrev pub IsPolled : Option ℕ → List (ℕ × ℕ) → Type 0
IsPolled none live = live ≡ []
IsPolled (some t) live = (r : ℕ) × (live ≡ (t, r) ∷ [])

-- The session storage has what the panel shows, and exactly the interval of `_evalPollId` runs.
pub record IsSteady (p : Page) : Type 0 where
  pub kept : p.active ≡ p.stored
  pub polled : IsPolled p.poll p.live

filter_own : (t r : ℕ) → filter (λ (e : ℕ × ℕ). not (e.0 == t)) ((t, r) ∷ []) ≡ []
filter_own t r = ground arith

stop-live : (o : Option ℕ) (p : Page) → p.poll ≡ o → IsPolled o p.live → (stop_from o p).live ≡ []
unfolding stop_from
stop-live none p e h = h
stop-live (some t) p e (r, h) = ap (filter (λ e. not (e.0 == t))) h ∙ filter_own t r

stop-poll : (o : Option ℕ) (p : Page) → p.poll ≡ o → (stop_from o p).poll ≡ none
unfolding stop_from
stop-poll none p e = e
stop-poll (some t) p e = refl

stop-kept :
    (o : Option ℕ) (p : Page)
    → p.active ≡ p.stored
    → (stop_from o p).active ≡ (stop_from o p).stored
unfolding stop_from
stop-kept none p h = h
stop-kept (some t) p h = h

pub stop_eval_poll-live : (p : Page) → IsSteady p → (stop_eval_poll p).live ≡ []
unfolding stop_eval_poll
stop_eval_poll-live p v = stop-live p.poll p refl v.polled

pub stop_eval_poll-poll : (p : Page) → (stop_eval_poll p).poll ≡ none
unfolding stop_eval_poll
stop_eval_poll-poll p = stop-poll p.poll p refl

IsPolled-none : (o : Option ℕ) (live : List (ℕ × ℕ)) → o ≡ none → live ≡ [] → IsPolled o live
IsPolled-none none live e h = h
IsPolled-none (some t) live e h = cc

pub stop_eval_poll-IsSteady : (p : Page) → IsSteady p → IsSteady (stop_eval_poll p)
stop_eval_poll-IsSteady p v = record {
  kept = unfold stop_eval_poll in stop-kept p.poll p v.kept;
  polled = IsPolled-none _ _ (stop_eval_poll-poll p) (stop_eval_poll-live p v);
}

pub start_eval_poll-IsSteady : (r : ℕ) (p : Page) → IsSteady p → IsSteady (start_eval_poll r p)
unfolding start_eval_poll set_interval
start_eval_poll-IsSteady r p v = record {
  kept = (stop_eval_poll-IsSteady p v).kept;
  polled = (r, ap (λ l. ((stop_eval_poll p).next_interval, r) ∷ l) (stop_eval_poll-live p v));
}

show_started-IsSteady :
    (r : ℕ) (status : String) (p : Page) → IsSteady p → IsSteady (show_started r status p)
unfolding show_started
show_started-IsSteady r status p v =
    let d : Progress = record { run_id = r; status = status } in
    start_eval_poll-IsSteady r (record p { active = some d; stored = some d })
      (record { kept = refl; polled = v.polled })

show_progress-IsSteady :
    (d : Option Progress) (p : Page) → IsSteady p → IsSteady (show_progress d p)
unfolding show_progress fetch_eval_runs
show_progress-IsSteady none p v = v
show_progress-IsSteady (some d) p v =
    let q : Page = record p { active = some d; stored = some d } in
    let q-IsSteady : IsSteady q = record { kept = refl; polled = v.polled } in
    let w = stop_eval_poll-IsSteady q q-IsSteady in
    elim (Bool-cases (is_over d.status)) [
      | inl h ↦ rw h (record { kept = w.kept; polled = w.polled })
      | inr h ↦ rw h q-IsSteady
    ]

ask_progress-IsSteady : (o : Option (ℕ × ℕ)) (p : Page) → IsSteady p → IsSteady (ask_progress o p)
unfolding ask_progress
ask_progress-IsSteady none p v = v
ask_progress-IsSteady (some e) p v = record { kept = v.kept; polled = v.polled }

tick-IsSteady : (t : ℕ) (p : Page) → IsSteady p → IsSteady (tick t p)
unfolding tick
tick-IsSteady t p v = ask_progress-IsSteady _ p v

detect-IsSteady : (o : Option Run) (p : Page) → IsSteady p → IsSteady (detect o p)
unfolding detect
detect-IsSteady none p v = v
detect-IsSteady (some r) p v = start_eval_poll-IsSteady r.id p v

adopt-IsSteady :
    (o : Option ℕ) (a : Option Progress) (runs : List Run) (p : Page)
    → IsSteady p
    → IsSteady (adopt o a runs p)
unfolding adopt
adopt-IsSteady none none runs p v = detect-IsSteady (find is_active runs) p v
adopt-IsSteady (some t) a runs p v = v
adopt-IsSteady none (some d) runs p v = v

show_runs-IsSteady : (l : Option (List Run)) (p : Page) → IsSteady p → IsSteady (show_runs l p)
unfolding show_runs
show_runs-IsSteady none p v = v
show_runs-IsSteady (some runs) p v =
    adopt-IsSteady p.poll p.active runs (record p { runs = runs })
      (record { kept = v.kept; polled = v.polled })

cancelled-IsSteady : (ok : Bool) (p : Page) → IsSteady p → IsSteady (cancelled ok p)
unfolding cancelled fetch_eval_runs
cancelled-IsSteady false p v = v
cancelled-IsSteady true p v = record { kept = refl; polled = (stop_eval_poll-IsSteady p v).polled }

recheck_from-IsSteady :
    (b : Bool) (r : ℕ) (d : Option Progress) (p : Page)
    → IsSteady p
    → IsSteady (recheck_from b r d p)
unfolding recheck_from
recheck_from-IsSteady false r d p v = v
recheck_from-IsSteady true r none p v = record { kept = refl; polled = v.polled }
recheck_from-IsSteady true r (some d) p v = elim (Bool-cases (is_over d.status)) [
  | inl h ↦ rw h (record { kept = refl; polled = v.polled })
  | inr h ↦ rw h (start_eval_poll-IsSteady r p v)
]

answer_progress-IsSteady :
    (b : Bool) (r : ℕ) (d : Option Progress) (p : Page)
    → IsSteady p
    → IsSteady (answer_progress b r d p)
unfolding answer_progress
answer_progress-IsSteady false r d p v = v
answer_progress-IsSteady true r d p v =
    show_progress-IsSteady d (record p { waiting = drop_one r p.waiting })
      (record { kept = v.kept; polled = v.polled })

step-IsSteady : (p : Page) (e : Event) → IsSteady p → IsSteady (step p e)
unfolding step recheck fetch_eval_runs
step-IsSteady p (run_started r status) v = show_started-IsSteady r status p v
step-IsSteady p (poll_run r) v = start_eval_poll-IsSteady r p v
step-IsSteady p stop_polling v = stop_eval_poll-IsSteady p v
step-IsSteady p (tick_of t) v = tick-IsSteady t p v
step-IsSteady p (progress_reply r d) v = answer_progress-IsSteady _ r d p v
step-IsSteady p (runs_reply l) v = show_runs-IsSteady l p v
step-IsSteady p (cancel_reply ok) v = cancelled-IsSteady ok p v
step-IsSteady p (startup_reply r d) v = recheck_from-IsSteady _ r d p v
step-IsSteady p reload_runs v = record { kept = v.kept; polled = v.polled }

run_from-IsSteady : (p : Page) (es : List Event) → IsSteady p → IsSteady (run p es)
unfolding run
run_from-IsSteady p [] v = v
run_from-IsSteady p (e ∷ es) v = run_from-IsSteady (step p e) es (step-IsSteady p e v)

-- After any events on a page that was just opened, the session storage has what the panel shows,
-- and the interval of `_evalPollId` runs and no other.
pub run-IsSteady : (d : Option Progress) (es : List Event) → IsSteady (run (opened d) es)
run-IsSteady d es = run_from-IsSteady (opened d) es (record { kept = refl; polled = refl })
