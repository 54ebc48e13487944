-- ===== src/Forms.antt =====
-- The dialogs that add jobs: components/SubmitJobModal.jsx and components/AddRecurringJobModal.jsx,
-- with what they check and what they send. A text field is a text; a field of numbers holds what
-- `Number` makes of it.
pub mod Submit
pub mod Recurring
pub mod Suggest
pub mod ModelSelect
mod Tests
use ollama_queue.Prelude.{
  ℕ, zero, suc, ◌≤◌, ◌≡◌, ◌≢◌, refl, Bool, true, false, ◌&&◌, Option, none, some, [], ◌∷◌, leb,
  if◌then◌else◌, arith,
}
use ollama_queue.Text.{Text, is_nil, trim}

-- A number of JavaScript, as far as the forms tell numbers apart.
pub data Num : Type 0 where
  nat : ℕ → Num  -- 0, 1, 2, …
  below_zero : ℕ → Num  -- −(n + 1)
  fraction : ℕ → ℕ → Num  -- a positive number that is no integer: its floor, and its bits
  nan : Num

-- `Number.isInteger(x) && x >= 1`, and the number.
unfoldable pub positive : Num → Option ℕ
positive (nat zero) = none
positive (nat (suc n)) = some (suc n)
positive (below_zero n) = none
positive (fraction n b) = none
positive nan = none

-- `Number.isInteger(p) && p >= 1 && p <= 10`
unfoldable pub is_priority : Num → Bool
is_priority (nat n) = leb 1 n && leb n 10
is_priority (below_zero n) = false
is_priority (fraction n b) = false
is_priority nan = false

-- `x || d`: 0 and NaN are replaced.
unfoldable pub or_number : Num → Num → Num
or_number (nat zero) d = d
or_number (nat (suc n)) d = nat (suc n)
or_number (below_zero n) d = below_zero n
or_number (fraction n b) d = fraction n b
or_number nan d = d

-- `if (t.trim()) body.member = t.trim()`
unfoldable pub unless_empty : Text → Option Text
unless_empty t = if is_nil (trim t) then none else some (trim t)

abbrev pub is_some {ℓ} : {A : Type ℓ} → Option A → Bool
is_some none = false
is_some (some a) = true

pub ne-nil_of : (t : Text) → is_nil t ≡ false → t ≢ []
ne-nil_of [] h = cc
ne-nil_of (c ∷ cs) h = cc

pub in_range_of : (p : Num) → is_priority p ≡ true → (n : ℕ) × (p ≡ nat n) × (1 ≤ n) × (n ≤ 10)
unfolding is_priority
in_range_of (nat n) h = (n, refl, ground arith, ground arith)
in_range_of (below_zero n) h = cc
in_range_of (fraction n b) h = cc
in_range_of nan h = cc
