-- ===== src/Feedback/Tests.antt =====
-- A button whose second action begins while the success of the first is shown, and the shatter of a
-- button while the budget is spent.
use ollama_queue.Prelude.{ℕ, ◌≡◌, refl, true, none, some, List, [], ◌∷◌}
use ollama_queue.Atmosphere.{is_over_budget, can_fire_effect}
use ollama_queue.Feedback.{
  Button, fixed, Event, click, resolved, rejected, expire, run, fresh, success, earned, fire,
  shatter,
}
use ollama_queue.Feedback.Timer.{IsTidy, fresh-IsTidy, run-IsTidy}

abbrev retried : List (Event ℕ)
retried =
    click "Retrying" ∷ resolved (fixed none) 7 ∷ click "Retrying" ∷ expire 1 ∷ rejected none ∷ []

run-IsTidy_example : IsTidy (run fresh retried)
run-IsTidy_example = run-IsTidy retried fresh fresh-IsTidy

-- The button after its first success.
abbrev done : Button
done = record fresh { phase = success; msg = "Done"; timer = some 1; live = 1 ∷ []; next_timer = 2 }

shatters : (fire true earned 1000 (record { active = []; last_effect = 0 })).1 ≡ shatter 7 true
unfolding fire is_over_budget can_fire_effect
shatters = refl
