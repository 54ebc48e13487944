-- ===== src/Durations/Tests.antt =====
-- Some times as text.
use ollama_queue.Prelude.{◌≡◌, refl, some}
use ollama_queue.Text.{codes, emit, decimal}
use ollama_queue.Durations.{
  unit, two_units, format_duration, format_bar_duration, format_countdown, eta_minutes, eta_text,
  format_eta,
}
use ollama_queue.Durations.Parts.{read_duration, read_duration-format_countdown}

an_hour : format_duration (some 3720) ≡ codes "1h 2m"
unfolding format_duration two_units unit decimal emit
an_hour = refl

bar_of_two_minutes : format_bar_duration (some 120) ≡ codes "2m"
unfolding format_bar_duration unit decimal emit
bar_of_two_minutes = refl

almost : format_eta (some 20) ≡ some (codes "Almost done")
unfolding format_eta eta_text eta_minutes
almost = refl

said_of_4000 : read_duration 3 (format_countdown (some 4000)) ≡ 4000
said_of_4000 = read_duration-format_countdown 4000
