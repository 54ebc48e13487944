-- ===== src/Views/Options/Amounts.antt =====
-- The numbers of the settings' fields: parseInt and parseFloat on the texts of a number input and of
-- JSON numbers. A number is exact, where the source has the nearest double.
use ollama_queue.Prelude.{
  ℕ, ◌+◌, ◌*◌, ◌^◌, Bool, true, false, ◌&&◌, ◌||◌, Option, none, some, [], ◌∷◌, ◌++◌, length, leb,
  ◌==◌, if◌then◌else◌,
}
use ollama_queue.Text.{Text, is_nil, trim_start, span_digits, value_from}

-- The number `digits / 10 ^ places`, or its negation. NaN is `none` of an Option.
pub record Amount : Type 0 where
  pub negative : Bool
  pub digits : ℕ
  pub places : ℕ

-- The sign at the front: whether it is a minus, and the rest.
unfoldable pub split_sign : Text → Bool × Text
split_sign [] = (false, [])
split_sign (c ∷ cs) =
    if c == b'-' then (true, cs) else if c == b'+' then (false, cs) else (false, c ∷ cs)

unfoldable pub whole : Bool × Text → Option Amount
whole (negative, t) =
    if is_nil (span_digits t).0
    then none
    else some (record { negative = negative; digits = value_from 0 (span_digits t).0; places = 0 })

-- `parseInt(text)`
unfoldable pub read_int : Text → Option Amount
unfolding whole split_sign
read_int t = whole (split_sign (trim_start t))

unfoldable pub fraction : Text → Text × Text
fraction [] = ([], [])
fraction (c ∷ cs) = if c == b'.' then span_digits cs else ([], c ∷ cs)

unfoldable pub exponent_of : Bool × Text → Bool × ℕ
exponent_of (negative, t) =
    if is_nil (span_digits t).0 then (false, 0) else (negative, value_from 0 (span_digits t).0)

unfoldable pub exponent : Text → Bool × ℕ
unfolding exponent_of split_sign
exponent [] = (false, 0)
exponent (c ∷ cs) = if c == b'e' || c == b'E' then exponent_of (split_sign cs) else (false, 0)

unfoldable pub shifted : Bool → ℕ → ℕ → Bool × ℕ → Amount
shifted negative digits places (true, n) = record {
  negative = negative;
  digits = digits;
  places = places + n;
}
shifted negative digits places (false, n) = record {
  negative = negative;
  digits = digits * 10 ^ n;
  places = places;
}

unfoldable pub read_parts : Bool → Text → Text × Text → Option Amount
unfolding shifted exponent
read_parts negative ds (fs, rest) =
    if is_nil (ds ++ fs)
    then none
    else some (shifted negative (value_from 0 (ds ++ fs)) (length fs) (exponent rest))

unfoldable pub unsigned : Bool × Text → Option Amount
unfolding read_parts fraction
unsigned (negative, t) = read_parts negative (span_digits t).0 (fraction (span_digits t).1)

-- `parseFloat(text)`
unfoldable pub read_float : Text → Option Amount
unfolding unsigned split_sign
read_float t = unsigned (split_sign (trim_start t))

unfoldable pub at_least : ℕ → Amount → Bool
at_least low a =
    if a.negative then low == 0 && a.digits == 0 else leb (low * 10 ^ a.places) a.digits

unfoldable pub at_most : ℕ → Amount → Bool
at_most high a = if a.negative then true else leb a.digits (high * 10 ^ a.places)
