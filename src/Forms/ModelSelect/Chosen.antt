-- ===== src/Forms/ModelSelect/Chosen.antt =====
-- What the field for a model's name takes over, and how often it asks for the models.
use ollama_queue.Prelude.{
  ℕ, zero, suc, ◌+◌, ◌≡◌, refl, sym, ap, ◌∙◌, subst, Bool, true, false, not, ◌&&◌, ◌||◌, Option,
  none, some, List, [], ◌∷◌, filter, get_elem?, All, All-snoc, arith, Bool-cases, inl, inr,
  if◌then◌else◌,
}
use mathlib.Core.Option.{some-injective}
use ollama_queue.Text.{Text, is_nil}
use ollama_queue.Forms.ModelSelect.{
  Choice, Select, get_list, matches, filtered_list, is_empty_list, fetch_if_empty, highlight,
  set_open, find_index, select_name, at_index, MenuKey, arrow_down, arrow_up, escape, enter,
  other_key, key_when_closed, key_when_open, handle_key_down, SelectEvent, type_in, focus,
  close_outside, press, hover, click_row, models_arrive, fetched, select_step, run_select,
  closed_select,
}

-- The name is one of those that were offered, and has what was typed in it.
pub record IsOffered (c : Choice) : Type 0 where
  pub listed : (i : ℕ) × (get_elem? c.offered i ≡ some c.name)
  pub fitting : (is_nil c.typed || matches c.typed c.name) ≡ true

Proper : Select → Type 0
Proper s = All IsOffered s.chosen

first_or_later :
    (p : Text → Bool) (y : Text) (ys : List Text) (i : ℕ) (x : Text)
    → p y ≡ true
    → ((k : ℕ) (z : Text)
        → get_elem? (filter p ys) k ≡ some z
        → ((j : ℕ) × (get_elem? ys j ≡ some z)) × (p z ≡ true))
    → get_elem? (y ∷ filter p ys) i ≡ some x
    → ((j : ℕ) × (get_elem? (y ∷ ys) j ≡ some x)) × (p x ≡ true)
first_or_later p y ys zero x e f h = ((0, h), ap p (sym (some-injective _ _ h)) ∙ e)
first_or_later p y ys (suc i) x e f h = let ((j, k), q) = f i x h in ((suc j, k), q)

filter-get_elem? :
    (p : Text → Bool) (xs : List Text) (i : ℕ) (x : Text)
    → get_elem? (filter p xs) i ≡ some x
    → ((j : ℕ) × (get_elem? xs j ≡ some x)) × (p x ≡ true)
filter-get_elem? p [] i x h = cc
filter-get_elem? p (y ∷ ys) i x h = elim (Bool-cases (p y)) [
  | inl e ↦
      first_or_later p y ys i x e (filter-get_elem? p ys)
        (sym (ap (λ b. get_elem? (if b then y ∷ filter p ys else filter p ys) i) e) ∙ h)
  | inr e ↦
      let ((j, k), q) =
        filter-get_elem? p ys i x
          (sym (ap (λ b. get_elem? (if b then y ∷ filter p ys else filter p ys) i) e) ∙ h) in
      ((suc j, k), q)
]

filtered_list-IsOffered :
    (s : Select) (i : Option ℕ) (name : Text)
    → at_index (filtered_list s) i ≡ some name
    → IsOffered (record { typed = s.value; offered = get_list s; name = name })
unfolding at_index filtered_list
filtered_list-IsOffered s none name h = cc
filtered_list-IsOffered s (some i) name h = elim (Bool-cases (is_nil s.value)) [
  | inl e ↦ record {
    listed = (
      i,
      sym (
            ap (λ b. get_elem? (if b then get_list s else filter (matches s.value) (get_list s)) i)
              e)
          ∙ h,
    );
    fitting = ground (arith, e);
  }
  | inr e ↦
      let (found, fits) = filter-get_elem? (matches s.value) (get_list s) i name (
        sym (
          ap (λ b. get_elem? (if b then get_list s else filter (matches s.value) (get_list s)) i) e)
        ∙ h) in
      record { listed = found; fitting = ground (arith, fits) }
]

select_name-Proper :
    (o : Option Text) (s : Select)
    → ((name : Text)
        → o ≡ some name
        → IsOffered (record { typed = s.value; offered = get_list s; name = name }))
    → Proper s
    → Proper (select_name o s)
unfolding select_name Proper
select_name-Proper none s f h = h
select_name-Proper (some name) s f h = All-snoc IsOffered s.chosen _ h (f name refl)

taken-Proper :
    (i : Option ℕ) (s : Select) → Proper s → Proper (select_name (at_index (filtered_list s) i) s)
taken-Proper i s h =
    select_name-Proper (at_index (filtered_list s) i) s (filtered_list-IsOffered s i) h

fetch_if_empty-chosen : (s : Select) → (fetch_if_empty s).chosen ≡ s.chosen
unfolding fetch_if_empty
fetch_if_empty-chosen s =
    elim (Bool-cases (s.is_open && s.is_ollama && is_empty_list s.installed && not s.loading)) [
      | inl e ↦ rw e refl
      | inr e ↦ rw e refl
    ]

set_open-chosen : (b : Bool) (s : Select) → (set_open b s).chosen ≡ s.chosen
unfolding set_open highlight
set_open-chosen true s = elim (Bool-cases s.is_open) [
  | inl e ↦ rw e refl
  | inr e ↦ rw e (fetch_if_empty-chosen (record s { is_open = true }))
]
set_open-chosen false s = elim (Bool-cases s.is_open) [ inl e ↦ rw e refl | inr e ↦ rw e refl ]

same_choices-Proper : (s t : Select) → t.chosen ≡ s.chosen → Proper s → Proper t
unfolding Proper
same_choices-Proper s t e h = subst (All IsOffered) (sym e) h

opened-Proper : (b : Bool) (s : Select) → Proper s → Proper (set_open b s)
opened-Proper b s h = same_choices-Proper s (set_open b s) (set_open-chosen b s) h

key_when_closed-Proper : (k : MenuKey) (s : Select) → Proper s → Proper (key_when_closed k s)
unfolding key_when_closed
key_when_closed-Proper arrow_down s h = opened-Proper true s h
key_when_closed-Proper arrow_up s h = opened-Proper true s h
key_when_closed-Proper escape s h = h
key_when_closed-Proper enter s h = h
key_when_closed-Proper other_key s h = h

key_when_open-Proper : (k : MenuKey) (s : Select) → Proper s → Proper (key_when_open k s)
unfolding key_when_open Proper
key_when_open-Proper escape s h = opened-Proper false s h
key_when_open-Proper arrow_down s h = h
key_when_open-Proper arrow_up s h = h
key_when_open-Proper enter s h = taken-Proper s.active s h
key_when_open-Proper other_key s h = h

if-Proper : (b : Bool) (s t : Select) → Proper s → Proper t → Proper (if b then s else t)
if-Proper true s t h k = h
if-Proper false s t h k = k

handle_key_down-Proper : (k : MenuKey) (s : Select) → Proper s → Proper (handle_key_down k s)
unfolding handle_key_down
handle_key_down-Proper k s h =
    if-Proper s.disabled s (if s.is_open then key_when_open k s else key_when_closed k s) h (
      if-Proper s.is_open (key_when_open k s) (key_when_closed k s) (key_when_open-Proper k s h)
        (key_when_closed-Proper k s h))

fetched-Proper : (b : Bool) (names : List Text) (s : Select) → Proper s → Proper (fetched b names s)
unfolding fetched
fetched-Proper true names s h =
    same_choices-Proper s (fetch_if_empty (record s { installed = names; loading = false }))
      (fetch_if_empty-chosen (record s { installed = names; loading = false })) h
fetched-Proper false names s h = same_choices-Proper s (record s { installed = names }) refl h

select_step-Proper : (s : Select) (e : SelectEvent) → Proper s → Proper (select_step s e)
unfolding select_step
select_step-Proper s (type_in t) h =
    if-Proper s.disabled s (set_open true (record s { value = t })) h (
      opened-Proper true (record s { value = t })
        (same_choices-Proper s (record s { value = t }) refl h))
select_step-Proper s focus h = if-Proper s.disabled s (set_open true s) h (opened-Proper true s h)
select_step-Proper s close_outside h = opened-Proper false s h
select_step-Proper s (press k) h = handle_key_down-Proper k s h
select_step-Proper s (hover i) h =
    if-Proper s.is_open (record s { active = some i }) s
      (same_choices-Proper s (record s { active = some i }) refl h) h
select_step-Proper s (click_row i) h =
    if-Proper s.is_open (select_name (at_index (filtered_list s) (some i)) s) s
      (taken-Proper (some i) s h) h
select_step-Proper s (models_arrive names) h = fetched-Proper s.loading names s h

run_from-Proper : (s : Select) (es : List SelectEvent) → Proper s → Proper (run_select s es)
unfolding run_select
run_from-Proper s [] h = h
run_from-Proper s (e ∷ es) h = run_from-Proper (select_step s e) es (select_step-Proper s e h)

-- Whatever is typed, pressed and clicked, every suggestion that the field takes over is in the list
-- of models of that moment and has the typed text in it.
pub run_select-IsOffered :
    (is_ollama disabled : Bool) (value : Text) (installed : List Text) (es : List SelectEvent)
    → All IsOffered (run_select (closed_select is_ollama disabled value installed) es).chosen
unfolding Proper
run_select-IsOffered is_ollama disabled value installed es =
    run_from-Proper (closed_select is_ollama disabled value installed) es tt

-- `n` answers without a model.
abbrev pub none_installed : ℕ → List SelectEvent
none_installed zero = []
none_installed (suc n) = models_arrive [] ∷ none_installed n

-- An open field that waits for the installed models.
abbrev waiting : Text → Option ℕ → ℕ → Select
waiting value active fetches = record {
  value = value;
  is_ollama = true;
  disabled = false;
  installed = [];
  is_open = true;
  active = active;
  loading = true;
  fetches = fetches;
  chosen = [];
}

waits_on :
    (n : ℕ) (value : Text) (active : Option ℕ) (fetches : ℕ)
    → (run_select (waiting value active fetches) (none_installed n)).fetches ≡ fetches + n
unfolding run_select select_step fetched fetch_if_empty
waits_on zero value active fetches = omega arith
waits_on (suc n) value active fetches = omega (arith, waits_on n value active (fetches + 1))

-- A field that is opened while no model is installed asks for the models, and asks again as often as
-- an answer brings none: after `n` such answers it has asked `n + 1` times.
pub asks_again :
    (value : Text) (n : ℕ)
    → (run_select (closed_select true false value []) (focus ∷ none_installed n)).fetches ≡ 1 + n
unfolding run_select select_step set_open highlight fetch_if_empty
asks_again value n = waits_on n value (find_index value (filtered_list (waiting value none 1))) 1
