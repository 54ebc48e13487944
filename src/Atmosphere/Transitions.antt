-- ===== src/Atmosphere/Transitions.antt =====
-- What a run of the effect of `initAtmosphere` leaves in the signals, and whether the escalation
-- that it announces is running.
use ollama_queue.Prelude.{
  ℕ, ◌+◌, ◌≤◌, ◌≡◌, ◌≢◌, refl, ◌∙◌, sym, ap, Bool, true, false, ◌||◌, Option, none, some, List, [],
  ◌∷◌, ◌++◌, ◌==◌, if◌then◌else◌, any, arith, Bool-cases, inl, inr,
}
use ollama_queue.Atmosphere.{
  HealthMode, operational, degraded, critical, Signals, compute_health_mode, Call, create, start,
  stop, play_error, Atmosphere, call, stop_old, init_orchestrator, with_orchestrator, announce,
  mode_eq, observe,
}

mode_eq_iff : (m n : HealthMode) → (mode_eq m n ≡ true → m ≡ n) × (mode_eq m m ≡ true)
unfolding mode_eq
mode_eq_iff operational n = ground arith
mode_eq_iff degraded n = ground arith
mode_eq_iff critical n = ground arith

-- The signals of the module; what the calls do leaves them alone.
record SameSignals (a b : Atmosphere) : Type 0 where
  mode : b.health_mode ≡ a.health_mode
  prev : b.prev_health_mode ≡ a.prev_health_mode
  services : b.failed_services ≡ a.failed_services

init_orchestrator-SameSignals :
    (has_layout : Bool) (a : Atmosphere) → SameSignals a (init_orchestrator has_layout a)
unfolding init_orchestrator
init_orchestrator-SameSignals has_layout a = ground arith

announce-SameSignals : (m n : HealthMode) (a : Atmosphere) → SameSignals a (announce m n a)
unfolding announce
announce-SameSignals m n a = ground arith

-- A run of the effect takes over the mode and the reasons of the signals. Where the mode changes,
-- the old one is kept as the previous one; where it does not, the previous one stays.
pub observe_signals :
    (has_layout : Bool) (s : Signals) (a : Atmosphere)
    → let b = observe has_layout s a in
      (b.health_mode ≡ (compute_health_mode s).0)
      × (b.failed_services ≡ (compute_health_mode s).1)
      × (b.prev_health_mode ≡ (
          if mode_eq (compute_health_mode s).0 a.health_mode
          then a.prev_health_mode
          else a.health_mode))
unfolding observe
observe_signals has_layout s a = elim (Bool-cases (mode_eq new a.health_mode)) [
  | inl e ↦ rw e (sym ((mode_eq_iff new a.health_mode).0 e), refl, refl)
  | inr e ↦ rw e (moved.mode ∙ fresh.mode, moved.services ∙ fresh.services, moved.prev ∙ fresh.prev)
]
  where
    new : HealthMode
    new = (compute_health_mode s).0

    b : Atmosphere
    b = record a {
      failed_services = (compute_health_mode s).1;
      prev_health_mode = a.health_mode;
      health_mode = new;
    }

    fresh : SameSignals b (init_orchestrator has_layout b)
    fresh = init_orchestrator-SameSignals has_layout b

    moved :
        SameSignals
          (init_orchestrator has_layout b)
          (announce a.health_mode new (init_orchestrator has_layout b))
    moved = announce-SameSignals a.health_mode new _

-- Run again on the same signals, the effect changes nothing and announces nothing.
pub observe-observe :
    (l l' : Bool) (s : Signals) (a : Atmosphere) → observe l' s (observe l s a) ≡ observe l s a
observe-observe l l' s a =
    unchanged (observe l s a) (observe_signals l s a).0 (observe_signals l s a).1
  where
    unchanged :
        (b : Atmosphere)
        → b.health_mode ≡ (compute_health_mode s).0
        → b.failed_services ≡ (compute_health_mode s).1
        → observe l' s b ≡ b
    unchanged b m f = unfold observe in ground (arith, mode_eq_iff b.health_mode b.health_mode)

-- Whether the orchestrator `k` was started.
is_start : ℕ → Call → Bool
is_start k (start j) = j == k
is_start k _ = false

pub started : ℕ → Atmosphere → Bool
started k a = any (is_start k) a.calls

-- Orchestrators with later numbers are not started yet.
abbrev pub HasFreshNumbers : Atmosphere → Type 0
HasFreshNumbers a = (k : ℕ) → a.next_orchestrator ≤ k → started k a ≡ false

pub HasFreshNumbers-of_no_calls : (a : Atmosphere) → a.calls ≡ [] → HasFreshNumbers a
unfolding started
HasFreshNumbers-of_no_calls a e k h = rw e

any-append_one :
    (p : Call → Bool) (l : List Call) (c : Call) → any p (l ++ c ∷ []) ≡ (any p l || p c)
any-append_one p [] c = ground arith
any-append_one p (x ∷ l) c = ground (arith, any-append_one p l c)

started-call :
    (k : ℕ) (c : Call) (a : Atmosphere) → started k (call c a) ≡ (started k a || is_start k c)
unfolding started call
started-call k c a = any-append_one (is_start k) a.calls c

stop_old_fields :
    (o : Option ℕ) (a : Atmosphere) (k : ℕ)
    → ((stop_old o a).next_orchestrator ≡ a.next_orchestrator)
      × (started k (stop_old o a) ≡ started k a)
unfolding stop_old is_start
stop_old_fields none a k = (refl, refl)
stop_old_fields (some j) a k =
    (unfold call in refl, unfold started in ground (arith, started-call k (stop j) a))

-- A new orchestrator is made, numbered next, and not started.
init_orchestrator_fields :
    (a : Atmosphere) (k : ℕ)
    → ((init_orchestrator true a).orchestrator ≡ some a.next_orchestrator)
      × ((init_orchestrator true a).next_orchestrator ≡ a.next_orchestrator + 1)
      × (started k (init_orchestrator true a) ≡ started k a)
unfolding init_orchestrator
init_orchestrator_fields a k =
    let (n, s) = stop_old_fields a.orchestrator a k in
    (
      ap some n,
      ap (λ m. m + 1) n,
      unfold started is_start in
          ground (
            arith,
            any-append_one (is_start k) (stop_old a.orchestrator a).calls
                (create (stop_old a.orchestrator a).next_orchestrator),
            s,
          ),
    )

-- The state in which the calls of a transition are made.
entered : Signals → Atmosphere → Atmosphere
entered s a = record a {
  failed_services = (compute_health_mode s).1;
  prev_health_mode = a.health_mode;
  health_mode = (compute_health_mode s).0;
}

observe_transition :
    (l : Bool) (s : Signals) (a : Atmosphere)
    → (compute_health_mode s).0 ≢ a.health_mode
    → observe l s a
      ≡ announce a.health_mode (compute_health_mode s).0 (init_orchestrator l (entered s a))
unfolding observe entered
observe_transition l s a ne = elim (Bool-cases (mode_eq (compute_health_mode s).0 a.health_mode)) [
  | inl e ↦ absurd (ne ((mode_eq_iff (compute_health_mode s).0 a.health_mode).0 e))
  | inr e ↦ rw e
]

started_now :
    (o : Option ℕ) (a : Atmosphere) {k : ℕ}
    → o ≡ some k
    → a.orchestrator ≡ some k
    → let b = call play_error (with_orchestrator o start a) in
      (b.orchestrator ≡ some k) × (started k b ≡ true)
unfolding with_orchestrator is_start
started_now none a h e = absurd (cc)
started_now (some j) a {k} h e = (
  unfold call in e,
  ground (arith, h, started-call k play_error (call (start j) a), started-call k (start j) a),
)

announce_failure :
    (m n : HealthMode) (a : Atmosphere) {k : ℕ}
    → m ≡ operational
    → n ≢ operational
    → a.orchestrator ≡ some k
    → ((announce m n a).orchestrator ≡ some k) × (started k (announce m n a) ≡ true)
unfolding announce
announce_failure operational operational a m h e = absurd (h refl)
announce_failure operational degraded a m h e = started_now a.orchestrator a e e
announce_failure operational critical a m h e = started_now a.orchestrator a e e
announce_failure degraded n a m h e = absurd (cc)
announce_failure critical n a m h e = absurd (cc)

announce_severity :
    (m n : HealthMode) (a : Atmosphere) → m ≢ operational → n ≢ operational → announce m n a ≡ a
unfolding announce
announce_severity operational n a h k = absurd (h refl)
announce_severity m operational a h k = absurd (k refl)
announce_severity degraded degraded a h k = refl
announce_severity degraded critical a h k = refl
announce_severity critical degraded a h k = refl
announce_severity critical critical a h k = refl

-- Where the page has its root element, the fall from operational leaves an orchestrator that is
-- started.
pub observe_failure :
    (s : Signals) (a : Atmosphere)
    → a.health_mode ≡ operational
    → (compute_health_mode s).0 ≢ operational
    → (k : ℕ) × ((observe true s a).orchestrator ≡ some k) × (started k (observe true s a) ≡ true)
observe_failure s a m n =
    let made = init_orchestrator_fields (entered s a) 0 in
    let called =
      announce_failure a.health_mode (compute_health_mode s).0
        (init_orchestrator true (entered s a)) m n made.0 in
    (
      (entered s a).next_orchestrator,
      rw (observe_transition true s a (rw m n)) called.0,
      rw (observe_transition true s a (rw m n)) called.1,
    )

-- Where the page has its root element, a change between degraded and critical leaves an
-- orchestrator that was never started: the escalation that ran has been replaced.
pub observe_severity :
    (s : Signals) (a : Atmosphere)
    → HasFreshNumbers a
    → a.health_mode ≢ operational
    → (compute_health_mode s).0 ≢ operational
    → (compute_health_mode s).0 ≢ a.health_mode
    → (k : ℕ) × ((observe true s a).orchestrator ≡ some k) × (started k (observe true s a) ≡ false)
observe_severity s a fresh m n ne =
    let made = init_orchestrator_fields (entered s a) a.next_orchestrator in
    (
      a.next_orchestrator,
      rw
          (
            observe_transition true s a ne,
            announce_severity a.health_mode (compute_health_mode s).0 _ m n,
          )
          (unfold entered in made.0),
      rw
          (
            observe_transition true s a ne,
            announce_severity a.health_mode (compute_health_mode s).0 _ m n,
          )
          (made.2 ∙ unfold started entered in fresh a.next_orchestrator (omega arith)),
    )
