-- ===== src/Atmosphere/Tests.antt =====
-- A backend that fails, the fall from operational, and the budget of effects.
use ollama_queue.Prelude.{ℕ, ◌≡◌, ◌↔◌, refl, true, false, none, some, List, [], ◌∷◌}
use ollama_queue.Atmosphere.{
  operational, degraded, critical, Backend, Signals, compute_health_mode, Atmosphere, Effects,
  failed, degraded_reasons, push_if, none_healthy, some_unhealthy, is_unhealthy, is_set,
  daemon_failed, is_text, is_empty,
}
use ollama_queue.Atmosphere.Mode.{Failed, compute_health_mode-critical}
use ollama_queue.Atmosphere.Lifecycle as Lifecycle
use ollama_queue.Atmosphere.Lifecycle.Timeline as Timeline
use ollama_queue.Atmosphere.Budget.{Event, fire, finish, run}

abbrev up : Backend
up = record { status = none; healthy = some true }

abbrev down : Backend
down = record { status = none; healthy = some false }

abbrev signals : List Backend → Signals
signals bs = record {
  disconnected = false;
  daemon_state = none;
  backends = some bs;
  backends_error = none;
  dlq_count = 0;
}

abbrev half : Signals
half = signals (up ∷ down ∷ [])

abbrev out : Signals
out = signals (down ∷ down ∷ [])

half_degraded : (compute_health_mode half).0 ≡ degraded
unfolding compute_health_mode failed degraded_reasons push_if none_healthy some_unhealthy
    is_unhealthy is_set daemon_failed is_text is_empty
half_degraded = refl

out_critical : (compute_health_mode out).0 ≡ critical
unfolding compute_health_mode failed degraded_reasons push_if none_healthy some_unhealthy
    is_unhealthy is_set daemon_failed is_text is_empty
out_critical = refl

abbrev calm : Atmosphere
calm = record {
  health_mode = operational;
  prev_health_mode = operational;
  failed_services = [];
  orchestrator = none;
  next_orchestrator = 0;
  calls = [];
}

abbrev uneasy : Atmosphere
uneasy = record calm { health_mode = degraded }

compute_health_mode-critical_example : ((compute_health_mode out).0 ≡ critical) ↔ Failed out
compute_health_mode-critical_example = compute_health_mode-critical out

abbrev idle : Effects
idle = record { active = []; last_effect = 0 }

abbrev burst : List Event
burst = fire "a" 1000 ∷ fire "b" 1100 ∷ fire "c" 1300 ∷ finish "a" ∷ []

-- A page that was not set up yet, set up with a service that fails, and twice.
abbrev untouched : Lifecycle.Session
untouched = record {
  atmosphere = record {
    health_mode = operational;
    prev_health_mode = operational;
    failed_services = [];
    orchestrator = none;
    next_orchestrator = 0;
    calls = [];
  };
  subscribed = false;
  escalation_level = 0;
}

abbrev twice : List Lifecycle.Event
twice =
    Lifecycle.mount true (signals (down ∷ []))
    ∷ Lifecycle.escalate 2
    ∷ Lifecycle.mount true (signals (down ∷ []))
    ∷ []

untouched-IsAlone : Timeline.IsAlone untouched.atmosphere
untouched-IsAlone k = unfold Lifecycle.runs_after in cc

dispose_quiet_example :
    let down_again = Lifecycle.dispose_atmosphere (Lifecycle.run untouched twice) in
    ((k : ℕ) → Lifecycle.is_running k down_again.atmosphere ≡ false)
    × (down_again.escalation_level ≡ 0)
    × (Lifecycle.step down_again (Lifecycle.change true (signals [])) ≡ down_again)
dispose_quiet_example = Timeline.dispose_quiet twice untouched true (signals []) untouched-IsAlone
