-- ===== src/Feedback.antt =====
-- hooks/useActionFeedback.js: the state of an action button and the timer that clears a success;
-- hooks/useShatter.js: whether a click shatters the button. A timer is a number that is given out
-- once; a click comes after the button was rendered with the present state.
pub mod Timer
mod Tests
use ollama_queue.Prelude.{
  ℕ, zero, suc, ◌+◌, String, Bool, true, false, not, Option, none, some, List, [], ◌∷◌, ◌==◌,
  if◌then◌else◌, filter, any, str_eq, ◌++◌,
}
use ollama_queue.Atmosphere.{Effects, is_over_budget, can_fire_effect}

pub data Phase : Type 0 where
  idle loading success error : Phase

-- A message that may be missing or empty, as `m || fallback` reads it.
unfoldable pub or_else : Option String → String → String
or_else none fallback = fallback
or_else (some m) fallback = if str_eq m "" then fallback else m

-- `successLabel`: a text, or a function of the result.
pub data Label (A : Type 0) : Type 0 where
  fixed : Option String → Label A
  computed : (A → String) → Label A

unfoldable pub label_for : {A : Type 0} → Label A → A → String
unfolding or_else
label_for (fixed m) result = or_else m "Done"
label_for (computed f) result = f result

pub record Button : Type 0 where
  pub phase : Phase
  pub msg : String
  pub timer : Option ℕ  -- `timerRef.current`
  pub live : List ℕ  -- the timers that run
  pub next_timer : ℕ
  pub in_flight : ℕ  -- calls of `fn` that wait for their promise
  pub mounted : Bool
  pub bursts : ℕ  -- calls of `confirmAction`

pub data Event (A : Type 0) : Type 0 where
  click : String → Event A
  resolved : Label A → A → Event A
  rejected : Option String → Event A
  expire : ℕ → Event A
  unmount : Event A

-- The guard `if (state.phase === 'loading') return`.
pub is_loading : Phase → Bool
is_loading loading = true
is_loading idle = false
is_loading success = false
is_loading error = false

-- `clearTimeout(timerRef.current)`
unfoldable pub clear : Option ℕ → List ℕ → List ℕ
clear none live = live
clear (some t) live = filter (λ u. not (u == t)) live

unfoldable pub start_run : String → Button → Button
unfolding is_loading
start_run label s =
    if is_loading s.phase
    then s
    else record s { phase = loading; msg = label; in_flight = suc s.in_flight }

-- The promise of a call is fulfilled, or rejected. One that does not wait cannot be.
unfoldable pub succeed : String → ℕ → Button → Button
unfolding clear
succeed m zero s = s
succeed m (suc n) s = record s {
  phase = success;
  msg = m;
  in_flight = n;
  bursts = s.bursts + 1;
  live = s.next_timer ∷ clear s.timer s.live;
  timer = some s.next_timer;
  next_timer = s.next_timer + 1;
}

unfoldable pub fail : String → ℕ → Button → Button
fail m zero s = s
fail m (suc n) s = record s { phase = error; msg = m; in_flight = n }

unfoldable pub time_out : ℕ → Button → Button
time_out t s =
    if any (λ u. u == t) s.live
    then record s { phase = idle; msg = ""; timer = none; live = filter (λ u. not (u == t)) s.live }
    else s

unfoldable pub leave : Button → Button
unfolding clear
leave s = record s { live = clear s.timer s.live; timer = none; mounted = false }

unfoldable pub step : {A : Type 0} → Button → Event A → Button
unfolding start_run succeed label_for fail or_else time_out leave
step s (click label) = start_run label s
step s (resolved label result) = succeed (label_for label result) s.in_flight s
step s (rejected m) = fail (or_else m "Failed") s.in_flight s
step s (expire t) = time_out t s
step s unmount = leave s

unfoldable pub run : {A : Type 0} → Button → List (Event A) → Button
run s [] = s
run s (e ∷ es) = run (step s e) es

abbrev pub fresh : Button
fresh = record {
  phase = idle;
  msg = "";
  timer = none;
  live = [];
  next_timer = 1;
  in_flight = 0;
  mounted = true;
  bursts = 0;
}

pub data Tier : Type 0 where
  earned complete routine : Tier

abbrev pub fragments : Tier → ℕ
fragments earned = 7
fragments complete = 6
fragments routine = 3

-- What `fire` asks of superhot-ui: nothing, or a number of fragments, and whether the end of the
-- animation releases the effect.
pub data Shatter : Type 0 where
  no_shatter : Shatter
  shatter : ℕ → Bool → Shatter

-- The outcome of `canFireEffect('shatter-' + tier)`.
if_granted : Tier → Effects × Bool → Effects × Shatter
if_granted tier (e, true) = (e, shatter (fragments tier) true)
if_granted tier (e, false) = (e, no_shatter)

spend : Tier → ℕ → Effects → Effects × Shatter
unfolding if_granted
spend routine now e = (e, shatter (fragments routine) false)
spend earned now e = if_granted earned (can_fire_effect "shatter-earned" now e)
spend complete now e = if_granted complete (can_fire_effect "shatter-complete" now e)

-- `fire`, with an element or without.
unfoldable pub fire : Bool → Tier → ℕ → Effects → Effects × Shatter
unfolding spend
fire false tier now e = (e, no_shatter)
fire true tier now e = if is_over_budget e then (e, no_shatter) else spend tier now e
