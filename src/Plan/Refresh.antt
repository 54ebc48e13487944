-- ===== src/Plan/Refresh.antt =====
-- pages/Plan/index.jsx: the refresh every ten seconds, which waits for the one before and for the
-- user's hand on the chart. A refresh is under way until its three requests are settled.
use ollama_queue.Prelude.{
  ℕ, zero, suc, ◌+◌, ◌≡◌, refl, Bool, true, false, not, ◌&&◌, List, [], ◌∷◌, arith, if◌then◌else◌,
}

pub record Page : Type 0 where
  pub refreshing : Bool  -- `refreshingRef.current`
  pub interacting : Bool  -- `ganttInteractingRef.current`
  pub is_live : Bool  -- the interval runs
  pub under_way : ℕ  -- the refreshes that are not settled
  pub requests : ℕ

pub data Event : Type 0 where
  tick settled unmount : Event
  interact : Bool → Event

unfoldable pub start_refresh : Page → Page
start_refresh p =
    if not p.refreshing && not p.interacting
    then record p { refreshing = true; under_way = suc p.under_way; requests = p.requests + 3 }
    else p

unfoldable pub finish_refresh : ℕ → Page → Page
finish_refresh zero p = p
finish_refresh (suc n) p = record p { refreshing = false; under_way = n }

unfoldable pub step : Page → Event → Page
unfolding start_refresh finish_refresh
step p tick = if p.is_live then start_refresh p else p
step p settled = finish_refresh p.under_way p
step p unmount = record p { is_live = false }
step p (interact b) = record p { interacting = b }

unfoldable pub run : Page → List Event → Page
run p [] = p
run p (e ∷ es) = run (step p e) es

-- The flag says whether a refresh is under way, and there is no second one.
abbrev pub IsGuarded : Page → Type 0
IsGuarded p = p.under_way ≡ (if p.refreshing then 1 else 0)

finish_refresh-IsGuarded :
    (n : ℕ) (p : Page) → p.under_way ≡ n → IsGuarded p → IsGuarded (finish_refresh n p)
unfolding finish_refresh
finish_refresh-IsGuarded zero p e h = h
finish_refresh-IsGuarded (suc n) p e h = ground arith

step-IsGuarded : (p : Page) (e : Event) → IsGuarded p → IsGuarded (step p e)
unfolding step start_refresh
step-IsGuarded p tick h = ground arith
step-IsGuarded p settled h = finish_refresh-IsGuarded p.under_way p refl h
step-IsGuarded p unmount h = h
step-IsGuarded p (interact b) h = h

-- However slowly the service answers, at most one refresh is under way, if this held at the start.
pub run-IsGuarded : (es : List Event) (p : Page) → IsGuarded p → IsGuarded (run p es)
unfolding run
run-IsGuarded [] p h = h
run-IsGuarded (e ∷ es) p h = run-IsGuarded es (step p e) (step-IsGuarded p e h)
