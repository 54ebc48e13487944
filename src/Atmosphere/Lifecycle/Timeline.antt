-- ===== src/Atmosphere/Lifecycle/Timeline.antt =====
-- The timelines of the orchestrators over the life of the page: which of them run.
use mathlib.Core.Option.{some-injective}
use ollama_queue.Prelude.{
  ℕ, ◌≡◌, refl, sym, ap, ◌∙◌, Bool, true, false, Option, none, some, List, [], ◌∷◌, ◌++◌, ◌==◌,
  arith, if◌then◌else◌,
}
use ollama_queue.Atmosphere.{
  HealthMode, operational, degraded, critical, Signals, Call, create, start, stop, reset,
  play_error, recovery, Atmosphere, call, stop_old, init_orchestrator, with_orchestrator, announce,
  observe, mode_eq, compute_health_mode,
}
use ollama_queue.Atmosphere.Lifecycle.{
  Session, release, init_atmosphere, dispose_atmosphere, Event, mount, unmount, change, escalate,
  step, run, after_call, runs_after, is_running,
}

runs_after-snoc :
    (k : ℕ) (b : Bool) (cs : List Call) (c : Call)
    → runs_after k b (cs ++ c ∷ []) ≡ after_call k c (runs_after k b cs)
unfolding runs_after
runs_after-snoc k b [] c = refl
runs_after-snoc k b (d ∷ cs) c = runs_after-snoc k (after_call k d b) cs c

-- Only the orchestrator at hand runs.
abbrev pub IsAlone : Atmosphere → Type 0
IsAlone a = (k : ℕ) → is_running k a ≡ true → a.orchestrator ≡ some k

abbrev IsSilent : Atmosphere → Type 0
IsSilent a = (k : ℕ) → is_running k a ≡ false

silenced :
    (k j : ℕ) (b : Bool) → (b ≡ true → some j ≡ some k) → (if j == k then false else b) ≡ false
silenced k j true h = let e : j ≡ k = some-injective _ _ (h refl) in ground arith
silenced k j false h = ground arith

is_none-false : (b : Bool) (k : ℕ) → (b ≡ true → none ≡ some k) → b ≡ false
is_none-false true k h = absurd (let no : none ≡ some k = h refl in cc)
is_none-false false k h = refl

-- A call that ends a timeline leaves none running.
with_orchestrator-IsSilent :
    (f : ℕ → Call) (o : Option ℕ) (a : Atmosphere)
    → ((k j : ℕ) (b : Bool) → after_call k (f j) b ≡ (if j == k then false else b))
    → ((k : ℕ) → is_running k a ≡ true → o ≡ some k)
    → IsSilent (with_orchestrator o f a)
unfolding with_orchestrator call
with_orchestrator-IsSilent f none a q h k = is_none-false (is_running k a) k (h k)
with_orchestrator-IsSilent f (some j) a q h k =
    runs_after-snoc k false a.calls (f j)
    ∙ q k j (is_running k a)
    ∙ silenced k j (is_running k a) (h k)

stop_old-IsSilent :
    (o : Option ℕ) (a : Atmosphere)
    → ((k : ℕ) → is_running k a ≡ true → o ≡ some k)
    → IsSilent (stop_old o a)
unfolding stop_old
stop_old-IsSilent none a h =
    unfold with_orchestrator in with_orchestrator-IsSilent stop none a (λ k j b. refl) h
stop_old-IsSilent (some j) a h =
    unfold with_orchestrator in with_orchestrator-IsSilent stop (some j) a (λ k j b. refl) h

init_orchestrator-IsSilent :
    (l : Bool) (a : Atmosphere) → IsAlone a → IsSilent (init_orchestrator l a)
unfolding init_orchestrator call
init_orchestrator-IsSilent true a h k =
    runs_after-snoc k false (stop_old a.orchestrator a).calls
      (create (stop_old a.orchestrator a).next_orchestrator)
    ∙ stop_old-IsSilent a.orchestrator a h k
init_orchestrator-IsSilent false a h k = stop_old-IsSilent a.orchestrator a h k

IsSilent-IsAlone : (a : Atmosphere) → IsSilent a → IsAlone a
IsSilent-IsAlone a h k r = absurd (let e : is_running k a ≡ false = h k in cc)

call-IsAlone :
    (c : Call) (a : Atmosphere)
    → ((k : ℕ) (b : Bool) → after_call k c b ≡ b)
    → IsAlone a
    → IsAlone (call c a)
unfolding call
call-IsAlone c a q h k r =
    h k (sym (q k (is_running k a)) ∙ sym (runs_after-snoc k false a.calls c) ∙ r)

started : (k j : ℕ) (b : Bool) → b ≡ false → (if j == k then true else b) ≡ true → some j ≡ some k
started k j b h r = let e : j ≡ k = ground arith in ap some e

start-IsAlone :
    (o : Option ℕ) (a : Atmosphere)
    → o ≡ a.orchestrator
    → IsSilent a
    → IsAlone (with_orchestrator o start a)
unfolding with_orchestrator call
start-IsAlone none a e h k r = IsSilent-IsAlone a h k r
start-IsAlone (some j) a e h k r =
    sym e ∙ started k j (is_running k a) (h k) (sym (runs_after-snoc k false a.calls (start j)) ∙ r)

reset-IsAlone : (o : Option ℕ) (a : Atmosphere) → IsSilent a → IsAlone (with_orchestrator o reset a)
reset-IsAlone o a h = IsSilent-IsAlone (with_orchestrator o reset a) (
    with_orchestrator-IsSilent reset o a (λ k j b. refl)
      (λ k r. absurd (let e : is_running k a ≡ false = h k in cc)))

announce-IsAlone : (m n : HealthMode) (a : Atmosphere) → IsSilent a → IsAlone (announce m n a)
unfolding announce
announce-IsAlone operational operational a h = IsSilent-IsAlone a h
announce-IsAlone operational degraded a h =
    call-IsAlone play_error (with_orchestrator a.orchestrator start a) (λ k b. refl)
      (start-IsAlone a.orchestrator a refl h)
announce-IsAlone operational critical a h =
    call-IsAlone play_error (with_orchestrator a.orchestrator start a) (λ k b. refl)
      (start-IsAlone a.orchestrator a refl h)
announce-IsAlone degraded operational a h =
    call-IsAlone recovery (with_orchestrator a.orchestrator reset a) (λ k b. refl)
      (reset-IsAlone a.orchestrator a h)
announce-IsAlone critical operational a h =
    call-IsAlone recovery (with_orchestrator a.orchestrator reset a) (λ k b. refl)
      (reset-IsAlone a.orchestrator a h)
announce-IsAlone degraded degraded a h = IsSilent-IsAlone a h
announce-IsAlone degraded critical a h = IsSilent-IsAlone a h
announce-IsAlone critical degraded a h = IsSilent-IsAlone a h
announce-IsAlone critical critical a h = IsSilent-IsAlone a h

if_IsAlone : (x : Bool) (a b : Atmosphere) → IsAlone a → IsAlone b → IsAlone (if x then a else b)
if_IsAlone true a b h k = h
if_IsAlone false a b h k = k

observe-IsAlone : (l : Bool) (s : Signals) (a : Atmosphere) → IsAlone a → IsAlone (observe l s a)
unfolding observe
observe-IsAlone l s a h =
    let new = (compute_health_mode s).0 in
    let b : Atmosphere = record a { failed_services = (compute_health_mode s).1 } in
    let c : Atmosphere = record b { prev_health_mode = a.health_mode; health_mode = new } in
    if_IsAlone (mode_eq new a.health_mode) b (announce a.health_mode new (init_orchestrator l c)) h
      (announce-IsAlone a.health_mode new (init_orchestrator l c)
        (init_orchestrator-IsSilent l c h))

release-IsSilent :
    (f : ℕ → Call) (a : Atmosphere)
    → ((k j : ℕ) (b : Bool) → after_call k (f j) b ≡ (if j == k then false else b))
    → IsAlone a
    → IsSilent (release f a)
unfolding release
release-IsSilent f a q h = with_orchestrator-IsSilent f a.orchestrator a q h

if_session :
    (x : Bool) (s t : Session)
    → IsAlone s.atmosphere
    → IsAlone t.atmosphere
    → IsAlone (if x then s else t).atmosphere
if_session true s t h k = h
if_session false s t h k = k

step-IsAlone : (x : Session) (e : Event) → IsAlone x.atmosphere → IsAlone (step x e).atmosphere
unfolding step init_atmosphere dispose_atmosphere
step-IsAlone x (mount l s) h = observe-IsAlone l s (release reset x.atmosphere) (
    IsSilent-IsAlone (release reset x.atmosphere)
      (release-IsSilent reset x.atmosphere (λ k j b. refl) h))
step-IsAlone x unmount h =
    IsSilent-IsAlone (release stop x.atmosphere)
      (release-IsSilent stop x.atmosphere (λ k j b. refl) h)
step-IsAlone x (change l s) h =
    if_session x.subscribed (record x { atmosphere = observe l s x.atmosphere }) x
      (observe-IsAlone l s x.atmosphere h) h
step-IsAlone x (escalate n) h = h

-- If at the start no other timeline runs than that of the orchestrator at hand, then none ever does,
-- however often the page is set up, taken down and set up again.
pub run-IsAlone :
    (es : List Event) (x : Session) → IsAlone x.atmosphere → IsAlone (run x es).atmosphere
unfolding run
run-IsAlone [] x h = h
run-IsAlone (e ∷ es) x h = run-IsAlone es (step x e) (step-IsAlone x e h)

-- From a start at which no other timeline ran than that of the orchestrator at hand: when the page
-- is taken down, whatever happened before, no timeline is left running, the level is 0, and a change
-- of the signals does nothing more.
pub dispose_quiet :
    (es : List Event) (x : Session) (l : Bool) (s : Signals)
    → IsAlone x.atmosphere
    → let down = dispose_atmosphere (run x es) in
      ((k : ℕ) → is_running k down.atmosphere ≡ false)
      × (down.escalation_level ≡ 0)
      × (step down (change l s) ≡ down)
unfolding dispose_atmosphere step
dispose_quiet es x l s h =
    (release-IsSilent stop (run x es).atmosphere (λ k j b. refl) (run-IsAlone es x h), refl, refl)
