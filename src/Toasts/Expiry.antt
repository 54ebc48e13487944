-- ===== src/Toasts/Expiry.antt =====
-- Which toasts go away by themselves, and which have to be dismissed.
use mathlib.Core.Bool.{false≢true}
use ollama_queue.Prelude.{
  ℕ, ◌+◌, ◌≤◌, ◌<◌, ◌≡◌, ◌≢◌, refl, ◌∙◌, ap, sym, String, Bool, true, false, not, ◌&&◌, ◌||◌, List,
  [], ◌∷◌, ◌++◌, map, ◌==◌, ==_iff, filter, any, arith, All, All-map, Bool-cases, inl, inr,
}
use ollama_queue.Toasts.{
  Kind, Toast, Toasts, is_sticky, add_toast, remove_toast, expire, Event, add, dismiss, timeout,
  step, run, none_yet,
}

abbrev pub is_expiring : ℕ → Toasts → Bool
is_expiring k s = any (λ i. i == k) s.expiring

-- A toast has a running timer exactly if it is not sticky, and no number is ahead of the counter.
pub record IsTimed (s : Toasts) : Type 0 where
  pub timers : All (λ (t : Toast). is_expiring t.id s ≡ not (is_sticky t)) s.toasts
  pub counted : All (λ (t : Toast). t.id ≤ s.last_id) s.toasts
  pub ahead : (k : ℕ) → s.last_id < k → is_expiring k s ≡ false

any-append-one :
    (k i : ℕ) (l : List ℕ) → any (λ u. u == k) (l ++ i ∷ []) ≡ (any (λ u. u == k) l || i == k)
any-append-one k i [] = ground arith
any-append-one k i (x ∷ l) = ground (arith, any-append-one k i l)

any-filter_ne :
    (k i : ℕ) (l : List ℕ)
    → any (λ u. u == k) (filter (λ u. not (u == i)) l) ≡ (any (λ u. u == k) l && not (k == i))
any-filter_ne k i [] = refl
any-filter_ne k i (x ∷ l) = ground (arith, any-filter_ne k i l)

module _ {ℓ} (P : Toast → Type ℓ) where
  All-append_one : (t : Toast) (l : List Toast) → P t → All P l → All P (l ++ t ∷ [])
  All-append_one t [] h k = (h, tt)
  All-append_one t (x ∷ l) h k = (k.0, All-append_one t l h k.1)

  All-filter :
      (p : Toast → Bool) (l : List Toast) → All (λ t. p t ≡ true → P t) l → All P (filter p l)
  All-filter p [] h = tt
  All-filter p (x ∷ l) h = elim (Bool-cases (p x)) [
    | inl e ↦ rw e (h.0 e, All-filter p l h.1)
    | inr e ↦ rw e (All-filter p l h.1)
  ]

All-both {ℓ κ} :
    {A : Type 0} (P : A → Type ℓ) (Q : A → Type κ) (l : List A)
    → All P l
    → All Q l
    → All (λ a. P a × Q a) l
All-both P Q [] p q = tt
All-both P Q (x ∷ l) p q = ((p.0, q.0), All-both P Q l p.1 q.1)

add_toast-IsTimed :
    (msg : String) (kind : Kind) (persistent : Bool) (s : Toasts)
    → IsTimed s
    → IsTimed (add_toast msg kind persistent s).0
unfolding add_toast
add_toast-IsTimed msg kind persistent s h = record {
  timers =
      All-append_one _ _ s.toasts
        (ground (
          arith,
          any-append-one (s.last_id + 1) (s.last_id + 1) s.expiring,
          h.ahead (s.last_id + 1),
        ))
        (All-map
          (λ (t : Toast) (q : (is_expiring t.id s ≡ not (is_sticky t)) × (t.id ≤ s.last_id)).
            ground (arith, any-append-one t.id (s.last_id + 1) s.expiring, q.0, q.1))
          s.toasts (All-both _ _ s.toasts h.timers h.counted));
  counted =
      All-append_one _ _ s.toasts (omega arith)
        (All-map (λ t q. omega (arith, q)) s.toasts h.counted);
  ahead = λ k q. ground (arith, any-append-one k (s.last_id + 1) s.expiring, h.ahead k);
}

remove_toast-IsTimed : (id : ℕ) (s : Toasts) → IsTimed s → IsTimed (remove_toast id s)
unfolding remove_toast
remove_toast-IsTimed id s h = record {
  timers = All-filter _ _ s.toasts (All-map (λ t q _. q) s.toasts h.timers);
  counted = All-filter _ _ s.toasts (All-map (λ t q _. q) s.toasts h.counted);
  ahead = h.ahead;
}

expire-IsTimed : (id : ℕ) (s : Toasts) → IsTimed s → IsTimed (expire id s)
unfolding expire remove_toast
expire-IsTimed id s h = elim (Bool-cases (is_expiring id s)) [
  | inl e ↦ rw e (record {
    timers = All-filter _ _ s.toasts (
        All-map (λ t q e. ground (arith, any-filter_ne t.id id s.expiring, q, e)) s.toasts
          h.timers);
    counted = All-filter _ _ s.toasts (All-map (λ t q _. q) s.toasts h.counted);
    ahead = λ k q. ground (arith, any-filter_ne k id s.expiring, h.ahead k);
  })
  | inr e ↦ rw e h
]

-- Every event keeps the timers right.
pub step-IsTimed : (s : Toasts) (e : Event) → IsTimed s → IsTimed (step s e)
unfolding step
step-IsTimed s (add msg kind persistent) h = add_toast-IsTimed msg kind persistent s h
step-IsTimed s (dismiss id) h = remove_toast-IsTimed id s h
step-IsTimed s (timeout id) h = expire-IsTimed id s h

pub run-IsTimed : (s : Toasts) (es : List Event) → IsTimed s → IsTimed (run s es)
unfolding run
run-IsTimed s [] h = h
run-IsTimed s (e ∷ es) h = run-IsTimed (step s e) es (step-IsTimed s e h)

pub none_yet-IsTimed : IsTimed none_yet
none_yet-IsTimed = record { timers = tt; counted = tt; ahead = λ k h. refl }

-- A sticky toast with the number is shown.
abbrev pub has_sticky : ℕ → Toasts → Bool
has_sticky k s = any (λ (t : Toast). t.id == k && is_sticky t) s.toasts

any-append :
    (p : Toast → Bool) (l : List Toast) (t : Toast) → any p l ≡ true → any p (l ++ t ∷ []) ≡ true
any-append p [] t h = cc
any-append p (x ∷ l) t h = ground (arith, any-append p l t)

any-filter_other :
    (k i : ℕ) (l : List Toast)
    → (k == i) ≡ false
    → any (λ (t : Toast). t.id == k && is_sticky t) (filter (λ t. not (t.id == i)) l)
      ≡ any (λ (t : Toast). t.id == k && is_sticky t) l
any-filter_other k i [] h = refl
any-filter_other k i (x ∷ l) h = ground (arith, any-filter_other k i l h)

-- A number whose timer runs is no sticky toast's.
not_sticky_of_expiring :
    (k : ℕ) (s : Toasts) (l : List Toast)
    → All (λ (t : Toast). is_expiring t.id s ≡ not (is_sticky t)) l
    → is_expiring k s ≡ true
    → any (λ (t : Toast). t.id == k && is_sticky t) l ≡ false
not_sticky_of_expiring k s [] h e = refl
not_sticky_of_expiring k s (t ∷ l) h e = elim (Bool-cases (t.id == k)) [
  | inl q ↦ ground (arith, not_sticky_of_expiring k s l h.1 e, rw ((==_iff t.id k).0 q) at h.0, e)
  | inr q ↦ rw q (not_sticky_of_expiring k s l h.1 e)
]

step-has_sticky :
    (k : ℕ) (s : Toasts) (e : Event)
    → IsTimed s
    → e ≢ dismiss k
    → has_sticky k s ≡ true
    → has_sticky k (step s e) ≡ true
unfolding step add_toast remove_toast expire
step-has_sticky k s (add msg kind persistent) h other shown = any-append _ s.toasts _ shown
step-has_sticky k s (dismiss id) h other shown = elim (Bool-cases (k == id)) [
  | inl e ↦ absurd (other (ap dismiss (sym ((==_iff k id).0 e))))
  | inr e ↦ any-filter_other k id s.toasts e ∙ shown
]
step-has_sticky k s (timeout id) h other shown = elim (Bool-cases (is_expiring id s)) [
  | inl e ↦ elim (Bool-cases (k == id)) [
    | inl same ↦ absurd (
        false≢true (
          sym (not_sticky_of_expiring k s s.toasts h.timers (rw ((==_iff k id).0 same) e)) ∙ shown))
    | inr ne ↦ rw e (any-filter_other k id s.toasts ne ∙ shown)
  ]
  | inr e ↦ rw e shown
]

-- An error or a persistent toast stays until it is dismissed, whatever else happens.
pub run-has_sticky :
    (k : ℕ) (s : Toasts) (es : List Event)
    → IsTimed s
    → All (λ e. e ≢ dismiss k) es
    → has_sticky k s ≡ true
    → has_sticky k (run s es) ≡ true
unfolding run
run-has_sticky k s [] h others shown = shown
run-has_sticky k s (e ∷ es) h others shown =
    run-has_sticky k (step s e) es (step-IsTimed s e h) others.1
      (step-has_sticky k s e h others.0 shown)

is_expiring-expire :
    (k id : ℕ) (s : Toasts) → is_expiring k (expire id s) ≡ (is_expiring k s && not (k == id))
unfolding expire remove_toast
is_expiring-expire k id s = elim (Bool-cases (is_expiring id s)) [
  | inl e ↦ rw e (any-filter_ne k id s.expiring)
  | inr e ↦ rw e (elim (Bool-cases (k == id)) [
    | inl same ↦ ground (arith, rw (sym ((==_iff k id).0 same)) at e)
    | inr ne ↦ ground arith
  ])
]

is_expiring-timeouts :
    (k : ℕ) (ids : List ℕ) (s : Toasts)
    → is_expiring k (run s (map timeout ids)) ≡ (is_expiring k s && not (any (λ i. i == k) ids))
unfolding run step
is_expiring-timeouts k [] s = ground arith
is_expiring-timeouts k (i ∷ ids) s =
    ground (arith, is_expiring-timeouts k ids (expire i s), is_expiring-expire k i s)

-- Once every running timer has gone off, only errors and persistent toasts are left.
pub timeouts_leave_sticky :
    (s : Toasts) → IsTimed s → All (λ t. is_sticky t ≡ true) (run s (map timeout s.expiring)).toasts
timeouts_leave_sticky s h =
    All-map
      (λ (t : Toast) (q : is_expiring t.id (run s (map timeout s.expiring)) ≡ not (is_sticky t)).
        ground (arith, q, is_expiring-timeouts t.id s.expiring s))
      _ (run-IsTimed s (map timeout s.expiring) h).timers
