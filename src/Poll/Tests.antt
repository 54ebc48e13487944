-- ===== src/Poll/Tests.antt =====
-- The orchestrator on short histories.
use ollama_queue.Prelude.{ℕ, ◌+◌, ◌/◌, ◌≤◌, ◌≡◌, ◌↔◌, refl, none, List, [], ◌∷◌}
use ollama_queue.Poll.{
  disconnected, Reply, body, not_ok, throws, Event, start, stop, tab_shown, status_reply, init, run,
  step,
}
use ollama_queue.Poll.Failures.{settle_all, failures_after, bodies, backoff_after, settle_all_lem}
use ollama_queue.Poll.Chains.{loops, total, starts, stops, loops-run}

abbrev outage : List (Reply ℕ ℕ)
outage = body 1 none ∷ throws ∷ not_ok ∷ throws ∷ throws ∷ []

abbrev session : List (Event ℕ ℕ)
session = start ∷ status_reply (body 1 none) ∷ tab_shown ∷ stop ∷ []

-- A start, one reply and a return of the tab: three loops, of which `stopPolling` ends one.
loops_of_session : loops (run (init {D = ℕ} {Q = ℕ} 0) session) ≡ 2
unfolding run step
loops_of_session = refl

settle_all_lem_example :
    let s = settle_all (init {D = ℕ} {Q = ℕ} 0) outage in
    let failures = failures_after 0 outage in
    ((s.connection ≡ disconnected) ↔ (3 ≤ failures))
    × (s.backoff_ms ≡ backoff_after 5000 failures)
    × (s.refreshes ≡ bodies outage / 12)
settle_all_lem_example = settle_all_lem 0 outage

loops-run_example :
    total starts session ≤ loops (run (init {D = ℕ} {Q = ℕ} 0) session) + total stops session
loops-run_example = loops-run 0 session
