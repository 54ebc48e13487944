-- ===== src/Atmosphere/Lifecycle.antt =====
-- stores/atmosphere.js: initAtmosphere and disposeAtmosphere, without the audio preference. The
-- effect runs when it is set up and whenever a signal that it reads changes.
pub mod Timeline
use mathlib.Core.Option.{some-injective}
use ollama_queue.Prelude.{
  ℕ, ◌≡◌, refl, sym, ap, ◌∙◌, Bool, true, false, Option, none, some, List, [], ◌∷◌, ◌++◌, ◌==◌,
  arith, if◌then◌else◌,
}
use ollama_queue.Atmosphere.{
  HealthMode, operational, degraded, critical, Signals, Call, create, start, stop, reset,
  play_error, recovery, Atmosphere, call, stop_old, init_orchestrator, with_orchestrator, announce,
  observe, mode_eq, compute_health_mode,
}

pub record Session : Type 0 where
  pub atmosphere : Atmosphere
  pub subscribed : Bool  -- `_disposeEffect` is set
  pub escalation_level : ℕ

-- `if (_orchestrator) { _orchestrator.reset(); _orchestrator = null; }`, and with `stop`.
unfoldable pub release : (ℕ → Call) → Atmosphere → Atmosphere
unfolding with_orchestrator
release f a = record (with_orchestrator a.orchestrator f a) { orchestrator = none }

unfoldable pub init_atmosphere : Bool → Signals → Session → Session
unfolding release observe
init_atmosphere has_layout s x = record x {
  atmosphere = observe has_layout s (release reset x.atmosphere);
  subscribed = true;
}

unfoldable pub dispose_atmosphere : Session → Session
unfolding release
dispose_atmosphere x = record {
  atmosphere = release stop x.atmosphere;
  subscribed = false;
  escalation_level = 0;
}

-- The page is set up and taken down, and the signals change; the orchestrator reports its level.
pub data Event : Type 0 where
  mount : Bool → Signals → Event
  unmount : Event
  change : Bool → Signals → Event
  escalate : ℕ → Event

unfoldable pub step : Session → Event → Session
unfolding init_atmosphere dispose_atmosphere
step x (mount has_layout s) = init_atmosphere has_layout s x
step x unmount = dispose_atmosphere x
step x (change has_layout s) =
    if x.subscribed then record x { atmosphere = observe has_layout s x.atmosphere } else x
step x (escalate n) = record x { escalation_level = n }

unfoldable pub run : Session → List Event → Session
run x [] = x
run x (e ∷ es) = run (step x e) es

-- What a call makes of the orchestrator `k`: whether its timeline runs.
abbrev pub after_call : ℕ → Call → Bool → Bool
after_call k (create j) b = b
after_call k (start j) b = if j == k then true else b
after_call k (stop j) b = if j == k then false else b
after_call k (reset j) b = if j == k then false else b
after_call k play_error b = b
after_call k recovery b = b

unfoldable pub runs_after : ℕ → Bool → List Call → Bool
runs_after k b [] = b
runs_after k b (c ∷ cs) = runs_after k (after_call k c b) cs

-- Whether the timeline of the orchestrator `k` runs after the calls.
abbrev pub is_running : ℕ → Atmosphere → Bool
is_running k a = runs_after k false a.calls
