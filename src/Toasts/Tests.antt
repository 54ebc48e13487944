-- ===== src/Toasts/Tests.antt =====
-- The toasts of a failed and a successful action.
use ollama_queue.Prelude.{◌≡◌, true, false, List, [], ◌∷◌, All, map}
use ollama_queue.Toasts.{success, error, is_sticky, Event, add, timeout, run, none_yet}
use ollama_queue.Toasts.Expiry.{none_yet-IsTimed, run-IsTimed, timeouts_leave_sticky}

abbrev two : List Event
two = add "SYSTEM RESTORED" success false ∷ add "Cancel failed" error false ∷ []

timeouts_leave_sticky_example :
    All
      (λ t. is_sticky t ≡ true)
      (run (run none_yet two) (map timeout (run none_yet two).expiring)).toasts
timeouts_leave_sticky_example =
    timeouts_leave_sticky (run none_yet two) (run-IsTimed none_yet two none_yet-IsTimed)
