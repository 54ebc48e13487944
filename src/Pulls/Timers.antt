-- ===== src/Pulls/Timers.antt =====
-- The intervals of the downloads: every one that runs is kept where it can be stopped.
use ollama_queue.Prelude.{
  ℕ, ◌≡◌, ◌≢◌, refl, sym, ap, subst, ◌∙◌, String, Bool, true, false, Option, none, some, List, [],
  ◌∷◌, ◌==◌, ==_iff, any, All, All-snoc, All-map, if◌then◌else◌, arith, str_eq, Bool-cases, inl,
  inr,
}
use mathlib.Core.Option.{some-injective}
use ollama_queue.Pulls.{
  Pull, Interval, Entry, lookup_key, remove_key, put_key, Page, handle_pull, pull_started,
  pull_failed, clear_interval, stop_pull, tick, progress_reply, started_of, cancel_reply, clear_all,
  unmount,
}

lookup_key-remove_key :
    {A : Type 0} (i k : ℕ) (es : List (Entry A))
    → lookup_key k (remove_key i es) ≡ (if k == i then none else lookup_key k es)
unfolding lookup_key remove_key
lookup_key-remove_key i k [] = ground arith
lookup_key-remove_key i k (e ∷ es) = elim (Bool-cases (e.key == i)) [
  | inl h ↦ rw h (lookup_key-remove_key i k es ∙ ground arith)
  | inr h ↦ rw h (ground (arith, lookup_key-remove_key i k es))
]

lookup_key-put_key :
    {A : Type 0} (i k : ℕ) (a : A) (es : List (Entry A))
    → lookup_key k (put_key i a es) ≡ (if i == k then some a else lookup_key k es)
unfolding put_key lookup_key
lookup_key-put_key i k a es = ground (arith, lookup_key-remove_key i k es)

-- The interval is the one that is kept for its download.
abbrev pub IsKept : List (Entry ℕ) → Interval → Type 0
IsKept es t = lookup_key t.pull_id es ≡ some t.timer

unfoldable pub IsTracked : Page → Type 0
IsTracked p = All (IsKept p.pull_intervals) p.live

-- The number of a download that is started is not that of one that is polled.
pub data Event : Type 0 where
  click : Event
  begin : ℕ → String → ℕ → Event
  fail : String → Event
  fire : ℕ → Event
  progress : ℕ → String → ℕ → String → Event
  cancelled : ℕ → Option String → Event
  leave : Event

unfoldable pub step : Page → Event → Page
unfolding handle_pull pull_started pull_failed tick progress_reply cancel_reply unmount
step p click = handle_pull p
step p (begin i name now) = pull_started i name now p
step p (fail m) = pull_failed m p
step p (fire n) = tick n p
step p (progress i name percent status) = progress_reply i name percent status p
step p (cancelled i e) = cancel_reply i e p
step p leave = unmount p

unfoldable pub run : Page → List Event → Page
run p [] = p
run p (e ∷ es) = run (step p e) es

abbrev pub IsFresh : Page → Event → Type 0
IsFresh p (begin i name now) = lookup_key i p.pull_intervals ≡ none
IsFresh p _ = Unit

abbrev pub AllFresh : Page → List Event → Type 0
AllFresh p [] = Unit
AllFresh p (e ∷ es) = IsFresh p e × AllFresh (step p e) es

put_key-IsKept :
    (i n : ℕ) (es : List (Entry ℕ)) (t : Interval)
    → lookup_key i es ≡ none
    → IsKept es t
    → IsKept (put_key i n es) t
put_key-IsKept i n es t fresh h =
    lookup_key-put_key i t.pull_id n es ∙ elim (Bool-cases (i == t.pull_id)) [
      | inl e ↦ absurd (
          let same : i ≡ t.pull_id = (==_iff i t.pull_id).0 e in
          let no : none ≡ some t.timer = sym fresh ∙ ap (λ k. lookup_key k es) same ∙ h in cc)
      | inr e ↦ rw e h
    ]

put_key-IsKept_new :
    (i n : ℕ) (name : String) (es : List (Entry ℕ))
    → IsKept (put_key i n es) (record { timer = n; pull_id = i; model = name })
put_key-IsKept_new i n name es = lookup_key-put_key i i n es ∙ ground arith

remove_key-IsKept :
    (i : ℕ) (es : List (Entry ℕ)) (t : Interval)
    → lookup_key i es ≢ some t.timer
    → IsKept es t
    → IsKept (remove_key i es) t
remove_key-IsKept i es t other h =
    lookup_key-remove_key i t.pull_id es ∙ elim (Bool-cases (t.pull_id == i)) [
      | inl e ↦ absurd (other (ap (λ k. lookup_key k es) (sym ((==_iff t.pull_id i).0 e)) ∙ h))
      | inr e ↦ rw e h
    ]

-- What is left after the interval of a download was stopped is kept without it.
clear_interval-IsKept :
    (i : ℕ) (es : List (Entry ℕ)) (ts : List Interval) (o : Option ℕ)
    → lookup_key i es ≡ o
    → All (IsKept es) ts
    → All (IsKept (remove_key i es)) (clear_interval o ts)
unfolding clear_interval
clear_interval-IsKept i es [] none e h = tt
clear_interval-IsKept i es [] (some n) e h = tt
clear_interval-IsKept i es (t ∷ ts) none e h = (
  remove_key-IsKept i es t (λ k. let no : none ≡ some t.timer = sym e ∙ k in cc) h.0,
  clear_interval-IsKept i es ts none e h.1,
)
clear_interval-IsKept i es (t ∷ ts) (some n) e h = elim (Bool-cases (t.timer == n)) [
  | inl k ↦ rw k (clear_interval-IsKept i es ts (some n) e h.1)
  | inr k ↦ rw k (
    remove_key-IsKept i es t
        (λ l. let same : n ≡ t.timer = some-injective _ _ (sym e ∙ l) in ground arith) h.0,
    clear_interval-IsKept i es ts (some n) e h.1,
  )
]

stop_pull-IsTracked : (i : ℕ) (p : Page) → IsTracked p → IsTracked (stop_pull i p)
unfolding stop_pull IsTracked
stop_pull-IsTracked i p h =
    clear_interval-IsKept i p.pull_intervals p.live (lookup_key i p.pull_intervals) refl h

if_page : (x : Bool) (p q : Page) → IsTracked p → IsTracked q → IsTracked (if x then p else q)
if_page true p q h k = h
if_page false p q h k = k

progress_reply-IsTracked :
    (i n : ℕ) (name status : String) (p : Page)
    → IsTracked p
    → IsTracked (progress_reply i name n status p)
unfolding progress_reply stop_pull IsTracked
progress_reply-IsTracked i n name status p h =
    let stopped =
      clear_interval-IsKept i p.pull_intervals p.live (lookup_key i p.pull_intervals) refl h in
    if_page (str_eq status "pulling") _ _ h
      (if_page (str_eq status "completed") _ _ stopped stopped)

is_value : ℕ → Entry ℕ → Bool
is_value n e = e.value == n

kept_any : (es : List (Entry ℕ)) (k n : ℕ) → lookup_key k es ≡ some n → any (is_value n) es ≡ true
unfolding lookup_key is_value
kept_any [] k n h = cc
kept_any (e ∷ es) k n h = elim (Bool-cases (e.key == k)) [
  | inl i ↦ let same : e.value ≡ n = some-injective _ _ (sym (rw i refl) ∙ h) in ground arith
  | inr i ↦ let rest = kept_any es k n (sym (rw i refl) ∙ h) in ground arith
]

clear_interval-rest :
    (e : Entry ℕ) (es : List (Entry ℕ)) (ts : List Interval)
    → All (λ t. any (is_value t.timer) (e ∷ es) ≡ true) ts
    → All (λ t. any (is_value t.timer) es ≡ true) (clear_interval (some e.value) ts)
unfolding clear_interval is_value
clear_interval-rest e es [] h = tt
clear_interval-rest e es (t ∷ ts) h = elim (Bool-cases (t.timer == e.value)) [
  | inl k ↦ rw k (clear_interval-rest e es ts h.1)
  | inr k ↦ rw k (let here = h.0 in ground arith, clear_interval-rest e es ts h.1)
]

clear_all-empty :
    (es : List (Entry ℕ)) (ts : List Interval)
    → All (λ t. any (is_value t.timer) es ≡ true) ts
    → clear_all es ts ≡ []
unfolding clear_all
clear_all-empty [] [] h = refl
clear_all-empty [] (t ∷ ts) h = absurd (let no = h.0 in cc)
clear_all-empty (e ∷ es) ts h =
    clear_all-empty es (clear_interval (some e.value) ts) (clear_interval-rest e es ts h)

unmount-live : (p : Page) → IsTracked p → (unmount p).live ≡ []
unfolding unmount IsTracked
unmount-live p h =
    clear_all-empty p.pull_intervals p.live
      (All-map (λ t k. kept_any p.pull_intervals t.pull_id t.timer k) p.live h)

step-IsTracked : (p : Page) (e : Event) → IsFresh p e → IsTracked p → IsTracked (step p e)
unfolding step handle_pull pull_started pull_failed tick cancel_reply unmount IsTracked
step-IsTracked p click f h = h
step-IsTracked p (begin i name now) f h =
    All-snoc (IsKept (put_key i p.next_timer p.pull_intervals)) p.live _
      (All-map (λ t k. put_key-IsKept i p.next_timer p.pull_intervals t f k) p.live h)
      (put_key-IsKept_new i p.next_timer name p.pull_intervals)
step-IsTracked p (fail m) f h = h
step-IsTracked p (fire n) f h = h
step-IsTracked p (progress i name percent status) f h =
    progress_reply-IsTracked i percent name status p h
step-IsTracked p (cancelled i none) f h = stop_pull-IsTracked i p h
step-IsTracked p (cancelled i (some m)) f h = h
step-IsTracked p leave f h = subst (All (IsKept [])) (sym (unmount-live p h)) tt

run-IsTracked : (es : List Event) (p : Page) → AllFresh p es → IsTracked p → IsTracked (run p es)
unfolding run
run-IsTracked [] p f h = h
run-IsTracked (e ∷ es) p f h = run-IsTracked es (step p e) f.1 (step-IsTracked p e f.0 h)

-- If at the start every interval that runs is kept, and the service gives no number of a download
-- that is still polled, then leaving the page stops every interval that runs, whatever was started,
-- cancelled and finished before. What an answer starts that comes after the page was left is not
-- among these.
pub leave_stops_all :
    (es : List Event) (p : Page) → AllFresh p es → IsTracked p → (step (run p es) leave).live ≡ []
unfolding step
leave_stops_all es p f h = unmount-live (run p es) (run-IsTracked es p f h)

same_number : (i : ℕ) → (i == i) ≡ true
same_number i = ground arith

removed : {A : Type 0} (i : ℕ) (es : List (Entry A)) → lookup_key i (remove_key i es) ≡ none
removed i es =
    lookup_key-remove_key i i es ∙ ap (λ b. if b then none else lookup_key i es) (same_number i)

-- A progress reply that comes after its download was cancelled shows the download again, as still
-- under way, and no interval is left that would ask for it once more.
pub cancelled_returns :
    (p : Page) (i percent : ℕ) (name : String)
    → let q = step (step p (cancelled i none)) (progress i name percent "pulling") in
      (lookup_key i q.active_pulls
        ≡ some (record { model = name; progress = percent; status = "pulling"; started_at = none }))
      × (lookup_key i q.pull_intervals ≡ none)
      × (q.live ≡ clear_interval (lookup_key i p.pull_intervals) p.live)
unfolding step cancel_reply progress_reply stop_pull
cancelled_returns p i percent name =
    let shown : Option ℕ → Option Pull =
      λ t. some (record { model = name; progress = percent; status = "pulling"; started_at = t }) in
    let known = remove_key i p.active_pulls in
    (
      lookup_key-put_key i i _ known
          ∙ ap (λ b. if b then shown (started_of (lookup_key i known)) else lookup_key i known)
              (same_number i)
          ∙ ap (λ o. shown (started_of o)) (removed i p.active_pulls)
          ∙ (unfold started_of in refl),
      removed i p.pull_intervals,
      refl,
    )
