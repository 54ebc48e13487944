-- ===== src/Durations.antt =====
-- How long and how soon, as text: formatDuration of utils/time.js, pages/Plan/helpers.js and
-- components/GanttChart.jsx, formatDur and relativeTime of components/HistoryList.jsx, formatCountdown
-- of pages/Plan/helpers.js and formatEta of components/eval/ActiveRunProgress.jsx. Seconds are natural
-- numbers; a time that has passed is a case of its own where the source tests for a sign.
pub mod Parts
mod Tests
use ollama_queue.Prelude.{
  ℕ, zero, suc, ◌+◌, ◌*◌, ◌/◌, ◌%◌, Option, none, some, [], ◌∷◌, ◌++◌, ltb, ◌==◌, if◌then◌else◌,
}
use ollama_queue.Text.{Text, codes, decimal}

-- A number with its unit.
unfoldable pub unit : ℕ → ℕ → Text
unit n c = decimal n ++ c ∷ []

unfoldable pub two_units : ℕ → ℕ → ℕ → ℕ → Text
unfolding unit
two_units n c m d = unit n c ++ b' ' ∷ unit m d

-- utils/time.js and pages/Plan/helpers.js; `none` is `null`, `undefined` or a negative number.
unfoldable pub format_duration : Option ℕ → Text
unfolding unit two_units
format_duration none = codes "--"
format_duration (some s) =
    if ltb s 60
    then unit s b's'
    else if ltb (s / 60) 60
    then two_units (s / 60) b'm' (s % 60) b's'
    else two_units (s / 60 / 60) b'h' ((s / 60) % 60) b'm'

unfoldable pub format_dur : ℕ → Text
unfolding unit two_units
format_dur s =
    if ltb s 60
    then unit s b's'
    else if ltb (s / 60) 60
    then two_units (s / 60) b'm' (s % 60) b's'
    else two_units (s / 60 / 60) b'h' ((s / 60) % 60) b'm'

-- components/GanttChart.jsx
unfoldable pub format_bar_duration : Option ℕ → Text
unfolding unit two_units
format_bar_duration none = codes "~10m"
format_bar_duration (some s) =
    if ltb s 60
    then unit s b's'
    else if s % 60 == 0
    then unit (s / 60) b'm'
    else two_units (s / 60) b'm' (s % 60) b's'

-- What is left until a moment: nothing where it has passed.
unfoldable pub format_countdown : Option ℕ → Text
unfolding unit two_units
format_countdown none = codes "overdue"
format_countdown (some d) =
    if ltb 0 (d / 3600)
    then unit (d / 3600) b'h' ++ b' ' ∷ two_units ((d % 3600) / 60) b'm' (d % 60) b's'
    else if ltb 0 ((d % 3600) / 60)
    then two_units ((d % 3600) / 60) b'm' (d % 60) b's'
    else unit (d % 60) b's'

abbrev ago : ℕ → ℕ → Text
ago n c = unit n c ++ codes " ago"

-- `ts` of 0 is no time; the seconds since then are never negative.
unfoldable pub relative_time : Option ℕ → ℕ → Text
unfolding unit
relative_time none diff = codes "--"
relative_time (some zero) diff = codes "--"
relative_time (some (suc t)) diff =
    if ltb diff 60
    then ago diff b's'
    else if ltb diff 3600
    then ago (diff / 60) b'm'
    else if ltb diff 86400
    then ago (diff / 3600) b'h'
    else ago (diff / 86400) b'd'

-- `Math.round(etaSeconds / 60)`
unfoldable pub eta_minutes : ℕ → ℕ
eta_minutes s = (s + 30) / 60

unfoldable pub eta_text : ℕ → Text
unfolding two_units
eta_text mins =
    if mins == 0
    then codes "Almost done"
    else if mins == 1
    then codes "About 1 min remaining"
    else if ltb mins 60
    then codes "About " ++ (decimal mins ++ codes " min remaining")
    else codes "About " ++ (two_units (mins / 60) b'h' (mins % 60) b'm' ++ codes " remaining")

unfoldable pub format_eta : Option ℕ → Option Text
unfolding eta_text eta_minutes
format_eta none = none
format_eta (some zero) = none
format_eta (some (suc s)) = some (eta_text (eta_minutes (suc s)))
