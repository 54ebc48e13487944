-- ===== src/Durations/Parts.antt =====
-- What the texts say of the seconds, read back by the number of units.
use ollama_queue.Prelude.{
  ℕ, zero, suc, ◌+◌, ◌*◌, ◌/◌, ◌%◌, ◌≤◌, ◌<◌, ◌≡◌, refl, sym, ap, ◌∙◌, some, [], ◌∷◌, ◌++◌, ltb,
  ◌==◌, if◌then◌else◌, arith, false, Bool-cases, inl, inr,
}
use mathlib.Core.List.{append_assoc, append-nil}
use ollama_queue.Text.{Text, decimal, value_from, span_digits, is_digit}
use ollama_queue.Text.Digits.{decimal-IsDigit, value_from-decimal, span_digits-append}
use ollama_queue.Durations.{unit, two_units, format_duration, format_countdown}

-- The seconds of a unit.
abbrev pub seconds_of : ℕ → ℕ
seconds_of c = if c == b'h' then 3600 else if c == b'm' then 60 else if c == b's' then 1 else 0

-- One unit at the front, and what is left behind the space.
abbrev after_space : Text → Text
after_space [] = []
after_space (c ∷ cs) = cs

abbrev read_letter : ℕ → Text → ℕ × Text
read_letter n [] = (0, [])
read_letter n (c ∷ cs) = (n * seconds_of c, after_space cs)

pub read_unit : Text → ℕ × Text
read_unit t = read_letter (value_from 0 (span_digits t).0) (span_digits t).1

-- The seconds that so many units say.
unfoldable pub read_duration : ℕ → Text → ℕ
read_duration zero t = 0
read_duration (suc k) t = (read_unit t).0 + read_duration k (read_unit t).1

read_duration-nil : (k : ℕ) → read_duration k [] ≡ 0
unfolding read_duration read_unit span_digits value_from
read_duration-nil zero = refl
read_duration-nil (suc k) = omega (arith, read_duration-nil k)

span_unit :
    (n c : ℕ) (rest : Text)
    → is_digit c ≡ false
    → span_digits (unit n c ++ rest) ≡ (decimal n, c ∷ rest)
unfolding unit
span_unit n c rest h =
    ap span_digits (append_assoc (decimal n) (c ∷ []) rest)
    ∙ span_digits-append (decimal n) (c ∷ rest) (decimal-IsDigit n)
        (unfold span_digits in rw h refl)

read_unit-unit :
    (n c : ℕ) (rest : Text)
    → is_digit c ≡ false
    → read_unit (unit n c ++ rest) ≡ (n * seconds_of c, after_space rest)
unfolding read_unit
read_unit-unit n c rest h =
    ap (λ p. read_letter (value_from 0 p.0) p.1) (span_unit n c rest h)
    ∙ ap (λ v. (v * seconds_of c, after_space rest)) (value_from-decimal n)

read_step :
    (k n c : ℕ) (rest : Text)
    → is_digit c ≡ false
    → read_duration (suc k) (unit n c ++ rest)
      ≡ n * seconds_of c + read_duration k (after_space rest)
unfolding read_duration
read_step k n c rest h = ap (λ p. p.0 + read_duration k p.1) (read_unit-unit n c rest h)

read_last : (k n c : ℕ) → is_digit c ≡ false → read_duration (suc k) (unit n c) ≡ n * seconds_of c
read_last k n c h =
    ap (read_duration (suc k)) (sym (append-nil (unit n c)))
    ∙ read_step k n c [] h
    ∙ omega (arith, read_duration-nil k)

read_two :
    (k n c m d : ℕ)
    → is_digit c ≡ false
    → is_digit d ≡ false
    → read_duration (suc (suc k)) (two_units n c m d) ≡ n * seconds_of c + m * seconds_of d
unfolding two_units
read_two k n c m d h i =
    read_step (suc k) n c (b' ' ∷ unit m d) h ∙ ap (λ r. n * seconds_of c + r) (read_last k m d i)

letter_h : is_digit b'h' ≡ false
unfolding is_digit
letter_h = refl

letter_m : is_digit b'm' ≡ false
unfolding is_digit
letter_m = refl

letter_s : is_digit b's' ≡ false
unfolding is_digit
letter_s = refl

said_of : ℕ → ℕ
said_of s =
    if ltb s 60
    then s
    else if ltb (s / 60) 60
    then s / 60 * 60 + s % 60
    else s / 60 / 60 * 3600 + (s / 60) % 60 * 60

read_duration-said_of : (s : ℕ) → read_duration 2 (format_duration (some s)) ≡ said_of s
unfolding format_duration said_of
read_duration-said_of s = elim (Bool-cases (ltb s 60)) [
  | inl h ↦ rw h (read_last 1 s b's' letter_s ∙ omega arith)
  | inr h ↦ rw h (elim (Bool-cases (ltb (s / 60) 60)) [
    | inl k ↦ rw k (read_two 0 (s / 60) b'm' (s % 60) b's' letter_m letter_s ∙ omega arith)
    | inr k ↦ rw k (read_two 0 (s / 60 / 60) b'h' ((s / 60) % 60) b'm' letter_h letter_m)
  ])
]

-- A countdown says exactly the seconds that are left.
pub read_duration-format_countdown : (d : ℕ) → read_duration 3 (format_countdown (some d)) ≡ d
unfolding format_countdown
read_duration-format_countdown d = elim (Bool-cases (ltb 0 (d / 3600))) [
  | inl h ↦ rw h (
      read_step 2 (d / 3600) b'h' (b' ' ∷ two_units ((d % 3600) / 60) b'm' (d % 60) b's') letter_h
      ∙ ap (λ r. d / 3600 * 3600 + r)
          (read_two 0 ((d % 3600) / 60) b'm' (d % 60) b's' letter_m letter_s)
      ∙ omega arith)
  | inr h ↦ rw h (elim (Bool-cases (ltb 0 ((d % 3600) / 60))) [
    | inl k ↦
        rw k (read_two 1 ((d % 3600) / 60) b'm' (d % 60) b's' letter_m letter_s ∙ ground arith)
    | inr k ↦ rw k (read_last 2 (d % 60) b's' letter_s ∙ ground arith)
  ])
]

-- A duration is said exactly below an hour, and from then on with less than a minute left out.
pub read_duration-format_duration :
    (s : ℕ)
    → let said = read_duration 2 (format_duration (some s)) in
      (said ≤ s) × (s < said + 60) × (s < 3600 → said ≡ s)
unfolding said_of
read_duration-format_duration s =
    rw (read_duration-said_of s) (ground arith, ground arith, λ h. ground arith)
