-- ===== src/Pages/Shell/Incident.antt =====
-- The banner of an incident.
use ollama_queue.Prelude.{
  ℕ, ◌≡◌, refl, ap, ◌∙◌, Bool, true, false, not, ◌||◌, some, List, [], ◌∷◌, ◌++◌, any, All, arith,
}
use ollama_queue.Atmosphere.{HealthMode, critical, operational, degraded}
use ollama_queue.Pages.Shell.{
  Alarm, is_critical, begin_incident, observe_health, is_alarmed, AlarmEvent, health, acknowledge,
  alarm_step, run_alarm,
}

-- An observation of the critical mode, or an acknowledgement.
abbrev pub StaysCritical : AlarmEvent → Type 0
StaysCritical (health mode t) = mode ≡ critical
StaysCritical acknowledge = Unit

abbrev pub is_acknowledge : AlarmEvent → Bool
is_acknowledge acknowledge = true
is_acknowledge (health mode t) = false

run_alarm-append :
    (a : Alarm) (es fs : List AlarmEvent) → run_alarm a (es ++ fs) ≡ run_alarm (run_alarm a es) fs
unfolding run_alarm
run_alarm-append a [] fs = refl
run_alarm-append a (e ∷ es) fs = run_alarm-append (alarm_step a e) es fs

-- An incident since `t` with the mode critical.
abbrev since : ℕ → Bool → Alarm
since t acked = record { health_mode = critical; timestamp = some t; acked = acked }

stretch_end :
    (t : ℕ) (acked : Bool) (es : List AlarmEvent)
    → All StaysCritical es
    → run_alarm (since t acked) es ≡ since t (acked || any is_acknowledge es)
unfolding run_alarm alarm_step observe_health begin_incident
stretch_end t acked [] h = ap (since t) (ground arith)
stretch_end t acked (health mode u ∷ es) h =
    ap (λ m. run_alarm (observe_health m u (since t acked)) es) h.0 ∙ stretch_end t acked es h.1
stretch_end t acked (acknowledge ∷ es) h = stretch_end t true es h.1 ∙ ap (since t) (ground arith)

quiet_then :
    (c : Alarm) (calm : HealthMode) (u t : ℕ) (es : List AlarmEvent)
    → is_critical calm ≡ false
    → run_alarm c (health calm u ∷ health critical t ∷ es) ≡ run_alarm (since t false) es
unfolding run_alarm alarm_step observe_health begin_incident
quiet_then c operational u t es h = refl
quiet_then c degraded u t es h = refl
quiet_then c critical u t es h = cc

-- When the mode becomes critical after another one, the banner has the time of that observation as
-- long as the mode stays critical, however often it is observed again, and it shows until it is
-- acknowledged.
pub incident_lasts :
    (a : Alarm) (before : List AlarmEvent) (calm : HealthMode) (u t : ℕ) (stretch : List AlarmEvent)
    → is_critical calm ≡ false
    → All StaysCritical stretch
    → let b = run_alarm a (before ++ health calm u ∷ health critical t ∷ stretch) in
      (b.timestamp ≡ some t) × (is_alarmed b ≡ not (any is_acknowledge stretch))
unfolding run_alarm is_alarmed alarm_step observe_health begin_incident
incident_lasts a before calm u t stretch h k =
    let c = run_alarm a before in
    let end : run_alarm a (before ++ health calm u ∷ health critical t ∷ stretch)
        ≡ since t (any is_acknowledge stretch) =
      run_alarm-append a before (health calm u ∷ health critical t ∷ stretch)
      ∙ quiet_then c calm u t stretch h
      ∙ stretch_end t false stretch k in
    (ap (λ b. b.timestamp) end, ap is_alarmed end)
