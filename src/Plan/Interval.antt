-- ===== src/Plan/Interval.antt =====
-- pages/Plan/helpers.js: formatInterval and parseInterval (components/AddRecurringJobModal.jsx has a
-- copy of the second). Seconds are natural numbers; a decimal fraction is exact, where the source
-- has the nearest double.
use ollama_queue.Prelude.{
  ℕ, zero, suc, ◌+◌, ◌-◌, ◌*◌, ◌/◌, ◌%◌, ◌^◌, ◌≤◌, ◌<◌, ◌≡◌, ◌≢◌, refl, ap, ◌∙◌, not, ◌&&◌, Option,
  none, some, [], ◌∷◌, ◌++◌, arith, leb, ◌==◌, if◌then◌else◌, map, length, All,
}
use mathlib.Core.List.{append-nil}
use ollama_queue.Text.{
  Text, is_space, trim_start, is_nil, trim_end, trim, to_lower, is_digit, decimal, value_from,
  span_digits,
}
use ollama_queue.Text.Digits.{
  IsDigit, decimal-IsDigit, decimal-ne-nil, value_from-decimal, span_digits-append,
}

-- `'\u2014'`, the dash for no interval.
abbrev pub dash : Text
dash = 8212 ∷ []

print_seconds : ℕ → Text
print_seconds n =
    if n % 86400 == 0
    then decimal (n / 86400) ++ b'd' ∷ []
    else if n % 3600 == 0
    then decimal (n / 3600) ++ b'h' ∷ []
    else if n % 60 == 0
    then decimal (n / 60) ++ b'm' ∷ []
    else decimal n ++ b's' ∷ []

unfoldable pub format_interval : Option ℕ → Text
unfolding print_seconds
format_interval none = dash
format_interval (some zero) = dash
format_interval (some (suc n)) = print_seconds (suc n)

-- `(?:\.\d+)?`: the decimals, if a point and a digit come, and the rest.
decimals : Text → Text × Text
decimals [] = ([], [])
decimals (c ∷ cs) =
    if c == b'.' && not (is_nil (span_digits cs).0) then span_digits cs else ([], c ∷ cs)

-- `(d|h|m|s)?$`, as the multiplier.
unfoldable pub unit_of : Text → Option ℕ
unit_of [] = some 1
unit_of (c ∷ []) =
    if c == b'd'
    then some 86400
    else if c == b'h'
    then some 3600
    else if c == b'm'
    then some 60
    else if c == b's'
    then some 1
    else none
unit_of (c ∷ d ∷ cs) = none

-- From this number on `parseFloat` gives Infinity.
infinite : ℕ
infinite = 2 ^ 1024 - 2 ^ 970

-- `Math.round(val * multiplier)`, unless `val <= 0 || !isFinite(val)`, for `val = n / p`.
scaled : ℕ → ℕ → Option ℕ → Option ℕ
unfolding infinite
scaled n p none = none
scaled n p (some unit) =
    if n == 0
    then none
    else if leb (infinite * p) n
    then none
    else some ((2 * n * unit + p) / (2 * p))

parse_parts : Text → Text × Text → Option ℕ
unfolding scaled unit_of
parse_parts ds (fs, rest) =
    scaled (value_from 0 (ds ++ fs)) (10 ^ length fs) (unit_of (trim_start rest))

parse_lower : Text → Option ℕ
unfolding parse_parts decimals
parse_lower t =
    if is_nil (span_digits t).0
    then none
    else parse_parts (span_digits t).0 (decimals (span_digits t).1)

unfoldable pub parse_interval : Text → Option ℕ
unfolding parse_lower
parse_interval t = parse_lower (map to_lower (trim t))

-- What the formats print: digits and a small letter.
map_lower :
    (ds : Text) (c : ℕ) → All IsDigit ds → 97 ≤ c → map to_lower (ds ++ c ∷ []) ≡ ds ++ c ∷ []
unfolding to_lower
map_lower [] c a h = ground arith
map_lower (d ∷ ds) c (hd, hs) h = ground (arith, map_lower ds c hs h)

trim_end_letter :
    (ds : Text) (c : ℕ) → All IsDigit ds → 97 ≤ c → c ≤ 122 → trim_end (ds ++ c ∷ []) ≡ ds ++ c ∷ []
unfolding trim_end is_space
trim_end_letter [] c a h k = ground arith
trim_end_letter (d ∷ ds) c (hd, hs) h k = ground (arith, trim_end_letter ds c hs h k)

trim_start_letter :
    (ds : Text) (c : ℕ)
    → All IsDigit ds
    → 97 ≤ c
    → c ≤ 122
    → trim_start (ds ++ c ∷ []) ≡ ds ++ c ∷ []
unfolding trim_start is_space
trim_start_letter [] c a h k = ground arith
trim_start_letter (d ∷ ds) c (hd, hs) h k = ground arith

clean :
    (ds : Text) (c : ℕ)
    → All IsDigit ds
    → 97 ≤ c
    → c ≤ 122
    → map to_lower (trim (ds ++ c ∷ [])) ≡ ds ++ c ∷ []
unfolding trim
clean ds c a h k =
    ap (λ t. map to_lower (trim_end t)) (trim_start_letter ds c a h k)
    ∙ ap (map to_lower) (trim_end_letter ds c a h k)
    ∙ map_lower ds c a h

span_letter :
    (ds : Text) (c : ℕ) → All IsDigit ds → 97 ≤ c → span_digits (ds ++ c ∷ []) ≡ (ds, c ∷ [])
span_letter ds c a h =
    span_digits-append ds (c ∷ []) a (unfold span_digits is_digit in ground arith)

double_assoc : (v u : ℕ) → 2 * v * u ≡ 2 * (v * u)
double_assoc v u = grind arith

half : (v u : ℕ) → (2 * v * u + 1) / 2 ≡ v * u
half v u = omega (arith, double_assoc v u)

-- A safe integer is far from Infinity, and nothing is rounded.
scaled_whole : (v u : ℕ) → 0 < v → v < 2 ^ 53 → scaled v 1 (some u) ≡ some (v * u)
unfolding scaled
scaled_whole v u pos safe = ground (arith, half v u)

abbrev pub max_safe : ℕ
max_safe = 2 ^ 53 - 1

read_parts :
    (ds : Text) (c u v : ℕ)
    → value_from 0 ds ≡ v
    → 0 < v
    → v ≤ max_safe
    → 97 ≤ c
    → c ≤ 122
    → unit_of (c ∷ []) ≡ some u
    → parse_parts ds ([], c ∷ []) ≡ some (v * u)
unfolding parse_parts
read_parts ds c u v val pos safe h k unit =
    rw (append-nil ds, val, trim_start_letter [] c tt h k, unit)
      (scaled_whole v u pos (omega arith))

decimals_letter : (c : ℕ) → 97 ≤ c → decimals (c ∷ []) ≡ ([], c ∷ [])
unfolding decimals
decimals_letter c h = ground arith

read_lower :
    (ds : Text) (c u v : ℕ)
    → All IsDigit ds
    → ds ≢ []
    → value_from 0 ds ≡ v
    → 0 < v
    → v ≤ max_safe
    → 97 ≤ c
    → c ≤ 122
    → unit_of (c ∷ []) ≡ some u
    → parse_lower (ds ++ c ∷ []) ≡ some (v * u)
unfolding parse_lower
read_lower [] c u v a ne val pos safe h k unit = absurd (ne refl)
read_lower (d ∷ ds) c u v a ne val pos safe h k unit =
    rw (span_letter (d ∷ ds) c a h, decimals_letter c h)
      (read_parts (d ∷ ds) c u v val pos safe h k unit)

-- Digits and a letter are read as the number that the digits spell times the letter's seconds.
read_digits :
    (ds : Text) (c u v : ℕ)
    → All IsDigit ds
    → ds ≢ []
    → value_from 0 ds ≡ v
    → 0 < v
    → v ≤ max_safe
    → 97 ≤ c
    → c ≤ 122
    → unit_of (c ∷ []) ≡ some u
    → parse_interval (ds ++ c ∷ []) ≡ some (v * u)
unfolding parse_interval
read_digits ds c u v a ne val pos safe h k unit =
    ap parse_lower (clean ds c a h k) ∙ read_lower ds c u v a ne val pos safe h k unit

pub read_decimal :
    (v c u : ℕ)
    → 0 < v
    → v ≤ max_safe
    → 97 ≤ c
    → c ≤ 122
    → unit_of (c ∷ []) ≡ some u
    → parse_interval (decimal v ++ c ∷ []) ≡ some (v * u)
read_decimal v c u =
    read_digits (decimal v) c u v (decimal-IsDigit v) (decimal-ne-nil v) (value_from-decimal v)

parse_interval-print_seconds :
    (n : ℕ) → 0 < n → n ≤ max_safe → parse_interval (print_seconds n) ≡ some n
unfolding print_seconds unit_of
parse_interval-print_seconds n pos safe = ground (
  arith,
  read_decimal (n / 86400) b'd' 86400,
  read_decimal (n / 3600) b'h' 3600,
  read_decimal (n / 60) b'm' 60,
  read_decimal n b's' 1,
)

-- Every interval of a whole number of seconds, up to the greatest safe integer, is read back from
-- the text that the page shows for it; the dash for no interval is read as no interval.
pub parse_interval-format_interval :
    (n : ℕ)
    → n ≤ max_safe
    → parse_interval (format_interval (some n)) ≡ (if n == 0 then none else some n)
unfolding format_interval
parse_interval-format_interval zero safe =
    unfold parse_interval parse_lower trim trim_start trim_end is_space to_lower span_digits
      is_digit in
    refl
parse_interval-format_interval (suc n) safe = ground (arith, parse_interval-print_seconds (suc n))

pub parse_interval-dash : parse_interval (format_interval none) ≡ none
unfolding format_interval
parse_interval-dash = parse_interval-format_interval zero (omega arith)
