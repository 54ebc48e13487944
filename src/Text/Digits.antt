-- ===== src/Text/Digits.antt =====
-- The digits of a number spell it, and nothing in them is trimmed or changed in case.
use ollama_queue.Prelude.{
  ℕ, zero, suc, ◌+◌, ◌/◌, ◌%◌, ◌≤◌, ◌<◌, ◌≡◌, ◌≢◌, [], ◌∷◌, ◌++◌, arith, All,
}
use ollama_queue.Text.{
  Text, is_space, trim_start, to_lower, is_digit, emit, decimal, value_from, span_digits,
}

abbrev pub IsDigit : ℕ → Type 0
IsDigit c = (48 ≤ c) × (c ≤ 57)

pub emit-IsDigit : (f n : ℕ) (out : Text) → n < f → All IsDigit out → All IsDigit (emit f n out)
unfolding emit
emit-IsDigit zero n out h a = a
emit-IsDigit (suc f) n out h a = ground (arith, emit-IsDigit f (n / 10) ((48 + n % 10) ∷ out))

value_from-emit : (f n : ℕ) (out : Text) → n < f → value_from 0 (emit f n out) ≡ value_from n out
unfolding emit value_from
value_from-emit zero n out h = elim h [ ]
value_from-emit (suc f) n out h = ground (arith, value_from-emit f (n / 10) ((48 + n % 10) ∷ out))

emit-ne-nil : (f n : ℕ) (out : Text) → n < f → emit f n out ≢ []
unfolding emit
emit-ne-nil zero n out h = elim h [ ]
emit-ne-nil (suc f) n out h = ground (arith, emit-ne-nil f (n / 10) ((48 + n % 10) ∷ out))

pub decimal-IsDigit : (n : ℕ) → All IsDigit (decimal n)
unfolding decimal
decimal-IsDigit n = emit-IsDigit (suc n) n [] (omega arith) tt

pub decimal-ne-nil : (n : ℕ) → decimal n ≢ []
unfolding decimal
decimal-ne-nil n = emit-ne-nil (suc n) n [] (omega arith)

pub value_from-decimal : (n : ℕ) → value_from 0 (decimal n) ≡ n
unfolding decimal value_from
value_from-decimal n = value_from-emit (suc n) n [] (omega arith)

-- What stands behind digits is the rest, if it does not begin with one.
pub span_digits-append :
    (ds : Text) (rest : Text)
    → All IsDigit ds
    → span_digits rest ≡ ([], rest)
    → span_digits (ds ++ rest) ≡ (ds, rest)
unfolding span_digits is_digit
span_digits-append [] rest a h = h
span_digits-append (d ∷ ds) rest (hd, hs) h = ground (arith, span_digits-append ds rest hs h)

-- A text of digits and small letters, as the formats print them.
abbrev pub IsPlain : ℕ → Type 0
IsPlain c = (48 ≤ c) × (c ≤ 122) × (to_lower c ≡ c)

pub trim_start-plain : (c : ℕ) (cs : Text) → 48 ≤ c → c ≤ 122 → trim_start (c ∷ cs) ≡ c ∷ cs
unfolding trim_start is_space
trim_start-plain c cs h k = ground arith
