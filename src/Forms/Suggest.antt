-- ===== src/Forms/Suggest.antt =====
-- components/AddRecurringJobModal.jsx: suggestTimes, the hours with the least load. The loads of the
-- slots are natural numbers.
use mathlib.Core.List.{Perm, append_assoc}
use ollama_queue.Prelude.{
  ℕ, suc, ◌+◌, ◌-◌, ◌/◌, ◌%◌, ◌≡◌, refl, subst, sym, min, Option, none, some, List, [], ◌∷◌, ◌++◌,
  ◌==◌, if◌then◌else◌, ltb, arith, length, All, Pairs, sort_by, sort_by-perm, sort_by-Pairs, Before,
  take, drop, take-append-drop, All-take-drop, Pairs-take, get_elem?, length-take, length-append,
  length-sort_by, All-take, All-sort_by,
}
use ollama_queue.Text.{Text, codes, decimal}

pub record Window : Type 0 where
  pub slot : ℕ
  pub load : ℕ
  pub label : Text

-- `String(hour).padStart(2, '0')`
unfoldable pub pad_hour : ℕ → Text
pad_hour h = if ltb h 10 then b'0' ∷ decimal h else decimal h

unfoldable pub label_of : ℕ → Text
unfolding pad_hour
label_of i = pad_hour (i / 2) ++ (if i % 2 == 0 then codes ":00" else codes ":30")

-- The loop, from the slot `i` on.
unfoldable pub windows_from : ℕ → List ℕ → List Window
unfolding label_of
windows_from i [] = []
windows_from i (a ∷ []) = []
windows_from i (a ∷ b ∷ slots) =
    record { slot = i; load = a + b; label = label_of i } ∷ windows_from (suc i) (b ∷ slots)

unfoldable pub suggest_times : Option (List ℕ) → List Window
unfolding windows_from
suggest_times none = []
suggest_times (some slots) = take 3 (sort_by (λ w. w.load) (windows_from 0 slots))

-- What a window says of the slots: its load is that of the slot and the next one.
pub record IsWindow (slots : List ℕ) (w : Window) : Type 0 where
  pub here : ℕ
  pub next : ℕ
  pub slot_load : get_elem? slots w.slot ≡ some here
  pub next_load : get_elem? slots (suc w.slot) ≡ some next
  pub sum : w.load ≡ here + next
  pub named : w.label ≡ label_of w.slot

length-windows_from : (i : ℕ) (slots : List ℕ) → length (windows_from i slots) ≡ length slots - 1
unfolding windows_from
length-windows_from i [] = omega arith
length-windows_from i (a ∷ []) = omega arith
length-windows_from i (a ∷ b ∷ slots) = omega (arith, length-windows_from (suc i) (b ∷ slots))

get_elem?-here : (xs ys : List ℕ) (a : ℕ) → get_elem? (xs ++ a ∷ ys) (length xs) ≡ some a
get_elem?-here [] ys a = refl
get_elem?-here (x ∷ xs) ys a = get_elem?-here xs ys a

get_elem?-next :
    (xs ys : List ℕ) (a b : ℕ) → get_elem? (xs ++ a ∷ b ∷ ys) (suc (length xs)) ≡ some b
get_elem?-next [] ys a b = refl
get_elem?-next (x ∷ xs) ys a b = get_elem?-next xs ys a b

windows_from-IsWindow :
    (front slots : List ℕ) (i : ℕ)
    → i ≡ length front
    → All (IsWindow (front ++ slots)) (windows_from i slots)
unfolding windows_from
windows_from-IsWindow front [] i e = tt
windows_from-IsWindow front (a ∷ []) i e = tt
windows_from-IsWindow front (a ∷ b ∷ slots) i e = (
  record {
    here = a;
    next = b;
    slot_load = rw e (get_elem?-here front (b ∷ slots) a);
    next_load = rw e (get_elem?-next front slots a b);
    sum = refl;
    named = refl;
  },
  subst (λ l. All (IsWindow l) (windows_from (suc i) (b ∷ slots)))
      (append_assoc front (a ∷ []) (b ∷ slots))
      (windows_from-IsWindow (front ++ a ∷ []) (b ∷ slots) (suc i)
        (omega (arith, e, length-append front (a ∷ [])))),
)

-- The suggestions are windows of the slots, in the order of their loads; they are three, or all
-- windows if these are fewer; and no window that is left out has a smaller load than one of them.
pub suggest_times-least :
    (slots : List ℕ)
    → let chosen = suggest_times (some slots) in
      let key : Window → ℕ = λ w. w.load in
      All (IsWindow slots) chosen
      × (length chosen ≡ min 3 (length slots - 1))
      × Pairs (Before key) chosen
      × ((others : List Window) × Perm (chosen ++ others) (windows_from 0 slots)
          × All (λ w. All (Before key w) others) chosen)
unfolding suggest_times
suggest_times-least slots =
    let key : Window → ℕ = λ w. w.load in
    let all : List Window = windows_from 0 slots in
    let ordered = sort_by-Pairs key all in
    (
      All-take (IsWindow slots) 3 (sort_by key all)
          (All-sort_by key (IsWindow slots) all (windows_from-IsWindow [] slots 0 refl)),
      omega (
        arith,
        length-take 3 (sort_by key all),
        length-sort_by key all,
        length-windows_from 0 slots,
      ),
      Pairs-take (Before key) 3 (sort_by key all) ordered,
      (
        drop 3 (sort_by key all),
        subst (λ l. Perm l all) (sym (take-append-drop 3 (sort_by key all))) (sort_by-perm key all),
        All-take-drop (Before key) 3 (sort_by key all) ordered,
      ),
    )
