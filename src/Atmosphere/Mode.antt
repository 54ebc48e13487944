-- ===== src/Atmosphere/Mode.antt =====
-- Which mode the signals give, described by the conditions alone.
use ollama_queue.Prelude.{
  ◌≡◌, ◌≢◌, refl, ◌↔◌, ◌⊎◌, inl, inr, String, true, false, not, Option, none, some, List, [], ◌∷◌,
  if◌then◌else◌, any, all, All, arith, eq_iff, Bool-cases,
}
use ollama_queue.Atmosphere.{
  HealthMode, operational, degraded, critical, Reason, Backend, Signals, is_text, is_unhealthy,
  push_if, none_healthy, some_unhealthy, is_set, daemon_failed, failed, degraded_reasons, is_empty,
  compute_health_mode,
}

-- The backend is reported as unreachable or in error, or as not healthy.
abbrev pub Unhealthy : Backend → Type 0
Unhealthy b = (b.status ≡ some "unreachable") ⊎ (b.status ≡ some "error") ⊎ (b.healthy ≡ some false)

-- There are backends, and all of them are unhealthy.
abbrev pub NoneHealthy : Option (List Backend) → Type 0
NoneHealthy none = ⊥
NoneHealthy (some []) = ⊥
NoneHealthy (some (b ∷ bs)) = All Unhealthy (b ∷ bs)

abbrev pub AllHealthy : Option (List Backend) → Type 0
AllHealthy none = Unit
AllHealthy (some bs) = All (λ b. ¬ Unhealthy b) bs

abbrev pub Failed : Signals → Type 0
Failed s =
    (s.disconnected ≡ true)
    ⊎ ((s.daemon_state ≡ some "offline") ⊎ (s.daemon_state ≡ some "error"))
    ⊎ NoneHealthy s.backends

is_text_iff : (s : String) (o : Option String) → (is_text s o ≡ true) ↔ (o ≡ some s)
unfolding is_text
is_text_iff s none = ground arith
is_text_iff s (some t) = ground (arith, eq_iff t s)

is_unhealthy_iff : (b : Backend) → (is_unhealthy b ≡ true) ↔ Unhealthy b
unfolding is_unhealthy
is_unhealthy_iff b =
    ground (arith, is_text_iff "unreachable" b.status, is_text_iff "error" b.status)

all-Unhealthy_iff : (bs : List Backend) → (all is_unhealthy bs ≡ true) ↔ All Unhealthy bs
all-Unhealthy_iff [] = ((λ h. tt), (λ h. refl))
all-Unhealthy_iff (b ∷ bs) = (
  (λ h. ((is_unhealthy_iff b).0 (ground arith), (all-Unhealthy_iff bs).0 (ground arith))),
  (λ h. ground (arith, (is_unhealthy_iff b).1 h.0, (all-Unhealthy_iff bs).1 h.1)),
)

none_healthy_iff : (o : Option (List Backend)) → (none_healthy o ≡ true) ↔ NoneHealthy o
unfolding none_healthy
none_healthy_iff none = ground arith
none_healthy_iff (some []) = ground arith
none_healthy_iff (some (b ∷ bs)) = all-Unhealthy_iff (b ∷ bs)

daemon_failed_iff :
    (o : Option String) → (daemon_failed o ≡ true) ↔ ((o ≡ some "offline") ⊎ (o ≡ some "error"))
unfolding daemon_failed
daemon_failed_iff o = ground (arith, is_text_iff "offline" o, is_text_iff "error" o)

-- The mode is critical exactly if the connection is lost, the daemon is offline or in error, or
-- there are backends and none of them is healthy.
pub compute_health_mode-critical : (s : Signals) → ((compute_health_mode s).0 ≡ critical) ↔ Failed s
unfolding compute_health_mode failed push_if is_empty
compute_health_mode-critical s =
    ground (arith, daemon_failed_iff s.daemon_state, none_healthy_iff s.backends)

any-Unhealthy_iff :
    (bs : List Backend) → (any is_unhealthy bs ≡ false) ↔ All (λ b. ¬ Unhealthy b) bs
any-Unhealthy_iff [] = ((λ h. tt), (λ h. refl))
any-Unhealthy_iff (b ∷ bs) = (
  (λ h. (
    (λ u. ground (arith, (is_unhealthy_iff b).1 u, h)),
    (any-Unhealthy_iff bs).0 (ground arith),
  )),
  (λ h. elim (Bool-cases (is_unhealthy b)) [
    | inl e ↦ absurd (h.0 ((is_unhealthy_iff b).0 e))
    | inr e ↦ ground (arith, (any-Unhealthy_iff bs).1 h.1)
  ]),
)

some_unhealthy_iff : (o : Option (List Backend)) → (some_unhealthy o ≡ false) ↔ AllHealthy o
unfolding some_unhealthy
some_unhealthy_iff none = ((λ h. tt), (λ h. refl))
some_unhealthy_iff (some bs) = any-Unhealthy_iff bs

none_healthy-le-some_unhealthy :
    (o : Option (List Backend)) → some_unhealthy o ≡ false → none_healthy o ≡ false
unfolding some_unhealthy none_healthy
none_healthy-le-some_unhealthy none h = refl
none_healthy-le-some_unhealthy (some []) h = refl
none_healthy-le-some_unhealthy (some (b ∷ bs)) h = ground arith

-- Nothing is wrong that the computation knows of.
abbrev pub IsWell : Signals → Type 0
IsWell s =
    (s.disconnected ≡ false)
    × (s.daemon_state ≢ some "offline")
    × (s.daemon_state ≢ some "error")
    × (s.daemon_state ≢ some "paused")
    × AllHealthy s.backends
    × (is_set s.backends_error ≡ false)
    × (s.dlq_count ≡ 0)

operational_tests :
    (s : Signals)
    → ((compute_health_mode s).0 ≡ operational) ↔ (
        (s.disconnected ≡ false)
        × (daemon_failed s.daemon_state ≡ false)
        × (is_text "paused" s.daemon_state ≡ false)
        × (some_unhealthy s.backends ≡ false)
        × (is_set s.backends_error ≡ false)
        × (s.dlq_count ≡ 0))
unfolding compute_health_mode failed degraded_reasons push_if is_empty
operational_tests s = ground (arith, none_healthy-le-some_unhealthy s.backends)

-- The mode is operational exactly if the connection stands, the daemon is not offline, in error
-- or paused, no backend is unhealthy, the backends were fetched and no job is in the dead letter
-- queue.
pub compute_health_mode-operational :
    (s : Signals) → ((compute_health_mode s).0 ≡ operational) ↔ IsWell s
compute_health_mode-operational s = (
  (λ h.
      let (a, d, p, b, e, n) = (operational_tests s).0 h in
      (
        a,
        (λ q. ground (arith, (daemon_failed_iff s.daemon_state).1 (inl q), d)),
        (λ q. ground (arith, (daemon_failed_iff s.daemon_state).1 (inr q), d)),
        (λ q. ground (arith, (is_text_iff "paused" s.daemon_state).1 q, p)),
        (some_unhealthy_iff s.backends).0 b,
        e,
        n,
      )),
  (λ (a, o, r, p, b, e, n). (operational_tests s).1 (
    a,
    ground (arith, daemon_failed_iff s.daemon_state, o, r),
    ground (arith, is_text_iff "paused" s.daemon_state, p),
    (some_unhealthy_iff s.backends).1 b,
    e,
    n,
  )),
)

-- Reasons are given exactly where the mode is not operational.
pub compute_health_mode-reasons :
    (s : Signals) → ((compute_health_mode s).1 ≡ []) ↔ ((compute_health_mode s).0 ≡ operational)
unfolding compute_health_mode is_empty
compute_health_mode-reasons s = reasons (failed s) (degraded_reasons s)
  where
    reasons :
        (f d : List Reason)
        → (let r : HealthMode × List Reason =
              if not (is_empty f)
              then (critical, f)
              else if not (is_empty d)
              then (degraded, d)
              else (operational, []) in
            (r.1 ≡ []) ↔ (r.0 ≡ operational))
    reasons [] [] = ground arith
    reasons [] (r ∷ d) = ground arith
    reasons (r ∷ f) d = ground arith
