-- ===== src/Plan.antt =====
-- pages/Plan/helpers.js: the traffic intensity, the next due job and the ranges of priorities; the
-- same ranges in utils/priority.js and components/PrioritySelector.jsx. Times are seconds.
pub mod Ranges
pub mod Interval
pub mod Due
pub mod Detail
pub mod Groups
pub mod Refresh
mod Tests
use ollama_queue.Prelude.{
  ℕ, zero, suc, ◌+◌, ◌*◌, String, Bool, true, false, ◌&&◌, Option, none, some, List, [], ◌∷◌, ltb,
  leb, if◌then◌else◌, str_eq,
}

pub record Job : Type 0 where
  pub enabled : Bool
  pub next_run : ℕ
  pub model_profile : String
  pub estimated_duration : Option ℕ

-- `estimated_duration || fallback`
unfoldable pub estimate : ℕ → Option ℕ → ℕ
estimate fallback none = fallback
estimate fallback (some zero) = fallback
estimate fallback (some (suc n)) = suc n

-- The sum of `computeRho`, which the function divides by the 86400 seconds of a day.
unfoldable pub total_secs : List Job → ℕ
unfolding estimate
total_secs [] = 0
total_secs (j ∷ js) =
    estimate (if str_eq j.model_profile "heavy" then 1800 else 600) j.estimated_duration
    + total_secs js

-- The load of `rhoStatus(computeRho(jobs))`: below 0.60, below 0.80, or more, each multiplied by a
-- day.
pub data Load : Type 0 where
  light moderate very_busy : Load

unfoldable pub rho_status : List Job → Load
unfolding total_secs
rho_status js =
    if ltb (100 * total_secs js) (60 * 86400)
    then light
    else if ltb (100 * total_secs js) (80 * 86400)
    then moderate
    else very_busy

-- `rj.enabled && rj.next_run < min`, where `none` is the infinite `min`.
unfoldable pub earlier : Job → Option ℕ → Option ℕ
earlier j none = if j.enabled then some j.next_run else none
earlier j (some m) = if j.enabled && ltb j.next_run m then some j.next_run else some m

pub due_from : Option ℕ → List Job → Option ℕ
due_from m [] = m
due_from m (j ∷ js) = due_from (earlier j m) js

unfoldable pub group_next_due : List Job → Option ℕ
unfolding due_from
group_next_due js = due_from none js

pub data Category : Type 0 where
  critical high normal low background : Category

unfoldable pub priority_category : ℕ → Category
priority_category p =
    if leb p 2
    then critical
    else if leb p 4
    then high
    else if leb p 6
    then normal
    else if leb p 8
    then low
    else background

-- `priorityBorderWidth`, in pixels, and `priorityBorderOpacity`, in percent.
unfoldable pub priority_border_width : ℕ → ℕ
priority_border_width p =
    if leb p 2 then 4 else if leb p 4 then 3 else if leb p 6 then 2 else if leb p 8 then 1 else 1

unfoldable pub priority_border_opacity : ℕ → ℕ
priority_border_opacity p = if leb 9 p then 65 else 100

-- The value of `LEVELS` that `valueToLevel` selects.
unfoldable pub value_to_level : ℕ → ℕ
value_to_level v =
    if leb v 2 then 1 else if leb v 4 then 3 else if leb v 6 then 5 else if leb v 8 then 7 else 9
