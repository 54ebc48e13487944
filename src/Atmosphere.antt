-- ===== src/Atmosphere.antt =====
-- stores/atmosphere.js: the health mode, its transitions, and the budget of visual effects.
-- Milliseconds are natural numbers.
pub mod Mode
pub mod Transitions
pub mod Budget
pub mod Lifecycle
mod Tests
use ollama_queue.Prelude.{
  ℕ, ◌+◌, ◌-◌, String, Bool, true, false, not, ◌&&◌, ◌||◌, Option, none, some, List, [], ◌∷◌, ◌++◌,
  ltb, leb, if◌then◌else◌, filter, any, all, length, str_eq,
}

pub data HealthMode : Type 0 where
  operational degraded critical : HealthMode

pub data Reason : Type 0 where
  connection daemon all_backends : Reason
  backend_unhealthy backends_fetch_error dlq daemon_paused : Reason

pub record Backend : Type 0 where
  pub status : Option String
  pub healthy : Option Bool

-- The signals that the computation reads.
pub record Signals : Type 0 where
  pub disconnected : Bool  -- `connectionStatus.value === 'disconnected'`
  pub daemon_state : Option String  -- `status.value?.daemon_state`
  pub backends : Option (List Backend)  -- `none` where it is no array
  pub backends_error : Option String
  pub dlq_count : ℕ

-- `o === s`
unfoldable pub is_text : String → Option String → Bool
is_text s none = false
is_text s (some t) = str_eq t s

is_false : Option Bool → Bool
is_false none = false
is_false (some b) = not b

unfoldable pub is_unhealthy : Backend → Bool
unfolding is_text is_false
is_unhealthy b = is_text "unreachable" b.status || is_text "error" b.status || is_false b.healthy

-- `if (c) list.push(r)`
unfoldable pub push_if : Bool → Reason → List Reason
push_if c r = if c then r ∷ [] else []

unfoldable pub none_healthy : Option (List Backend) → Bool
none_healthy none = false
none_healthy (some []) = false
none_healthy (some (b ∷ bs)) = all is_unhealthy (b ∷ bs)

unfoldable pub some_unhealthy : Option (List Backend) → Bool
some_unhealthy none = false
some_unhealthy (some bs) = any is_unhealthy bs

-- A text is true in a test unless it is empty.
unfoldable pub is_set : Option String → Bool
is_set none = false
is_set (some s) = not (str_eq s "")

unfoldable pub daemon_failed : Option String → Bool
daemon_failed s = is_text "offline" s || is_text "error" s

pub failed : Signals → List Reason
failed s =
    push_if s.disconnected connection
    ++ (push_if (daemon_failed s.daemon_state) daemon
        ++ push_if (none_healthy s.backends) all_backends)

pub degraded_reasons : Signals → List Reason
degraded_reasons s =
    push_if (some_unhealthy s.backends) backend_unhealthy
    ++ (push_if (is_set s.backends_error) backends_fetch_error
        ++ (push_if (ltb 0 s.dlq_count) dlq
            ++ push_if (is_text "paused" s.daemon_state) daemon_paused))

unfoldable pub is_empty : List Reason → Bool
is_empty [] = true
is_empty (r ∷ rs) = false

unfoldable pub compute_health_mode : Signals → HealthMode × List Reason
compute_health_mode s =
    if not (is_empty (failed s))
    then (critical, failed s)
    else if not (is_empty (degraded_reasons s))
    then (degraded, degraded_reasons s)
    else (operational, [])

-- What the module asks of superhot-ui and of the page, in order. Orchestrators are numbered.
pub data Call : Type 0 where
  create start stop reset : ℕ → Call
  play_error recovery : Call

pub record Atmosphere : Type 0 where
  pub health_mode : HealthMode
  pub prev_health_mode : HealthMode
  pub failed_services : List Reason
  pub orchestrator : Option ℕ
  pub next_orchestrator : ℕ
  pub calls : List Call

unfoldable pub call : Call → Atmosphere → Atmosphere
call c a = record a { calls = a.calls ++ c ∷ [] }

pub stop_old : Option ℕ → Atmosphere → Atmosphere
unfolding call
stop_old none a = a
stop_old (some k) a = record (call (stop k) a) { orchestrator = none }

-- `_initOrchestrator`: the old one is stopped; a new one needs the element `.layout-root`.
unfoldable pub init_orchestrator : Bool → Atmosphere → Atmosphere
unfolding stop_old call
init_orchestrator has_layout a =
    let b = stop_old a.orchestrator a in
    if has_layout
    then record (call (create b.next_orchestrator) b) {
      orchestrator = some b.next_orchestrator;
      next_orchestrator = b.next_orchestrator + 1;
    }
    else b

-- `if (_orchestrator) …`
pub with_orchestrator : Option ℕ → (ℕ → Call) → Atmosphere → Atmosphere
unfolding call
with_orchestrator none f a = a
with_orchestrator (some k) f a = call (f k) a

-- What follows a transition from the first mode to the second, which differ.
unfoldable pub announce : HealthMode → HealthMode → Atmosphere → Atmosphere
unfolding with_orchestrator call
announce operational operational a = a
announce operational degraded a = call play_error (with_orchestrator a.orchestrator start a)
announce operational critical a = call play_error (with_orchestrator a.orchestrator start a)
announce degraded operational a = call recovery (with_orchestrator a.orchestrator reset a)
announce critical operational a = call recovery (with_orchestrator a.orchestrator reset a)
announce degraded _ a = a
announce critical _ a = a

pub mode_eq : HealthMode → HealthMode → Bool
mode_eq operational operational = true
mode_eq degraded degraded = true
mode_eq critical critical = true
mode_eq _ _ = false

-- The effect of `initAtmosphere`, run once more with the signals as they are.
unfoldable pub observe : Bool → Signals → Atmosphere → Atmosphere
unfolding mode_eq
observe has_layout s a =
    let new = (compute_health_mode s).0 in
    let b : Atmosphere = record a { failed_services = (compute_health_mode s).1 } in
    if mode_eq new a.health_mode
    then b
    else announce a.health_mode new (
        init_orchestrator has_layout
          (record b { prev_health_mode = a.health_mode; health_mode = new }))

-- `_activeEffects`, a set, and `_lastEffectTs`.
pub record Effects : Type 0 where
  pub active : List String
  pub last_effect : ℕ

abbrev pub max_concurrent_effects : ℕ
max_concurrent_effects = 3

abbrev pub effect_cooldown_ms : ℕ
effect_cooldown_ms = 300

unfoldable pub is_over_budget : Effects → Bool
is_over_budget e = leb max_concurrent_effects (length e.active)

unfoldable pub track_effect : String → Effects → Effects
track_effect id e = record e {
  active = if any (λ x. str_eq x id) e.active then e.active else e.active ++ id ∷ [];
}

-- The clean-up function of an effect.
unfoldable pub release : String → Effects → Effects
release id e = record e { active = filter (λ x. not (str_eq x id)) e.active }

-- `canFireEffect(id)` at the time `now`, and whether it returned a clean-up function. A clock that
-- went back makes the difference negative, which is below the cooldown as well.
unfoldable pub can_fire_effect : String → ℕ → Effects → Effects × Bool
unfolding is_over_budget track_effect
can_fire_effect id now e =
    if is_over_budget e
    then (e, false)
    else if ltb (now - e.last_effect) effect_cooldown_ms
    then (e, false)
    else (track_effect id (record e { last_effect = now }), true)
