-- ===== src/Pulls.antt =====
-- pages/ModelsTab.jsx: the downloads of models (handlePull, handleCancel, the polling of each) and
-- the order of the table. The service's replies and the timers are events.
pub mod Timers
mod Tests
use ollama_queue.Prelude.{
  ℕ, suc, ◌+◌, String, Bool, true, false, not, Option, none, some, List, [], ◌∷◌, ◌++◌, ◌==◌, any,
  filter, if◌then◌else◌, str_eq,
}

pub record Pull : Type 0 where
  pub model : String
  pub progress : ℕ
  pub status : String
  pub started_at : Option ℕ

-- An interval of 2000 ms, with the download that its callback asks for.
pub record Interval : Type 0 where
  pub timer : ℕ
  pub pull_id : ℕ
  pub model : String

pub record Entry (A : Type 0) : Type 0 where
  pub key : ℕ
  pub value : A

-- An object with numbers for keys.
unfoldable pub lookup_key : {A : Type 0} → ℕ → List (Entry A) → Option A
lookup_key i [] = none
lookup_key i (e ∷ es) = let rest = lookup_key i es in if e.key == i then some e.value else rest

unfoldable pub remove_key : {A : Type 0} → ℕ → List (Entry A) → List (Entry A)
remove_key i [] = []
remove_key i (e ∷ es) = let rest = remove_key i es in if e.key == i then rest else e ∷ rest

unfoldable pub put_key : {A : Type 0} → ℕ → A → List (Entry A) → List (Entry A)
unfolding remove_key
put_key i a es = record { key = i; value = a } ∷ remove_key i es

pub record Page : Type 0 where
  pub active_pulls : List (Entry Pull)
  pub pull_intervals : List (Entry ℕ)  -- `pullIntervalsRef.current`
  pub live : List Interval  -- the intervals that run
  pub next_timer : ℕ
  pub asked : List ℕ  -- the progress requests that were sent
  pub pull_error : Option String
  pub reloads : ℕ  -- the calls of fetchModels

-- The click, before the request.
unfoldable pub handle_pull : Page → Page
handle_pull p = record p { pull_error = none }

-- `startModelPull` came back with a number at the given time, or failed.
unfoldable pub pull_started : ℕ → String → ℕ → Page → Page
unfolding put_key
pull_started i name now p = record p {
  active_pulls =
      put_key i (record { model = name; progress = 0; status = "pulling"; started_at = some now })
        p.active_pulls;
  live = p.live ++ record { timer = p.next_timer; pull_id = i; model = name } ∷ [];
  pull_intervals = put_key i p.next_timer p.pull_intervals;
  next_timer = suc p.next_timer;
}

unfoldable pub pull_failed : String → Page → Page
pull_failed message p = record p { pull_error = some message }

-- `clearInterval`, which takes `undefined` too.
unfoldable pub clear_interval : Option ℕ → List Interval → List Interval
clear_interval none ts = ts
clear_interval (some n) ts = filter (λ t. not (t.timer == n)) ts

-- `clearInterval(pullIntervalsRef.current[pullId]); delete pullIntervalsRef.current[pullId];`
unfoldable pub stop_pull : ℕ → Page → Page
unfolding clear_interval lookup_key remove_key
stop_pull i p = record p {
  live = clear_interval (lookup_key i p.pull_intervals) p.live;
  pull_intervals = remove_key i p.pull_intervals;
}

unfoldable pub pull_ids : List Interval → List ℕ
pull_ids [] = []
pull_ids (t ∷ ts) = t.pull_id ∷ pull_ids ts

unfoldable pub tick : ℕ → Page → Page
unfolding pull_ids
tick n p = record p { asked = p.asked ++ pull_ids (filter (λ t. t.timer == n) p.live) }

unfoldable pub started_of : Option Pull → Option ℕ
started_of none = none
started_of (some q) = q.started_at

-- An accepted reply to a progress request of the download `i`.
unfoldable pub progress_reply : ℕ → String → ℕ → String → Page → Page
unfolding put_key lookup_key started_of stop_pull
progress_reply i name percent status p =
    let q : Page = record p {
      active_pulls =
          put_key i
            (record {
              model = name;
              progress = percent;
              status = status;
              started_at = started_of (lookup_key i p.active_pulls);
            })
            p.active_pulls;
    } in
    if str_eq status "pulling"
    then q
    else (let r = stop_pull i q in
        if str_eq status "completed" then record r { reloads = suc r.reloads } else r)

unfoldable pub cancel_reply : ℕ → Option String → Page → Page
unfolding stop_pull remove_key
cancel_reply i none p =
    let q = stop_pull i p in record q { active_pulls = remove_key i q.active_pulls }
cancel_reply i (some message) p = record p { pull_error = some message }

-- The clean-up of the page: `clearInterval` for every interval that is kept.
unfoldable pub clear_all : List (Entry ℕ) → List Interval → List Interval
unfolding clear_interval
clear_all [] ts = ts
clear_all (e ∷ es) ts = clear_all es (clear_interval (some e.value) ts)

unfoldable pub unmount : Page → Page
unfolding clear_all
unmount p = record p { live = clear_all p.pull_intervals p.live; pull_intervals = [] }

pub record Order : Type 0 where
  pub sort_col : String
  pub ascending : Bool

unfoldable pub handle_sort : String → Order → Order
handle_sort col o =
    if str_eq o.sort_col col
    then record o { ascending = not o.ascending }
    else record { sort_col = col; ascending = false }
