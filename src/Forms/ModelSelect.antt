-- ===== src/Forms/ModelSelect.antt =====
-- components/ModelSelect.jsx: the field for a model's name with its list of suggestions, as the
-- events of the page. The effects run right after the rendering that they react to. Of a model only
-- the name is kept.
pub mod Chosen
use ollama_queue.Prelude.{
  ℕ, zero, suc, ◌+◌, ◌-◌, Bool, true, false, not, ◌&&◌, ◌||◌, Option, none, some, List, [], ◌∷◌,
  ◌++◌, ◌==◌, filter, get_elem?, length, map, min, if◌then◌else◌,
}
use ollama_queue.Text.{Text, codes, is_nil, to_lower, text_eq}

abbrev pub openai_models : List Text
openai_models =
    codes "gpt-4o"
    ∷ codes "gpt-4o-mini"
    ∷ codes "gpt-4-turbo"
    ∷ codes "gpt-4"
    ∷ codes "gpt-3.5-turbo"
    ∷ codes "o1"
    ∷ codes "o1-mini"
    ∷ codes "o3-mini"
    ∷ []

-- One suggestion that was taken: what was typed, the list it was looked up in, and the name.
pub record Choice : Type 0 where
  pub typed : Text
  pub offered : List Text
  pub name : Text

pub record Select : Type 0 where
  pub value : Text
  pub is_ollama : Bool  -- `backend === 'ollama'`, otherwise `'openai'`
  pub disabled : Bool
  pub installed : List Text  -- the signal `models`
  pub is_open : Bool
  pub active : Option ℕ  -- `activeIdx`, where `none` is -1
  pub loading : Bool
  pub fetches : ℕ  -- calls of fetchModels
  pub chosen : List Choice

-- `s.startsWith(q)` and `s.includes(q)`
unfoldable pub begins_with : Text → Text → Bool
begins_with [] s = true
begins_with (c ∷ q) [] = false
begins_with (c ∷ q) (d ∷ s) = c == d && begins_with q s

unfoldable pub includes : Text → Text → Bool
unfolding begins_with
includes q [] = is_nil q
includes q (c ∷ s) = begins_with q (c ∷ s) || includes q s

unfoldable pub get_list : Select → List Text
get_list s = if s.is_ollama then s.installed else openai_models

unfoldable pub matches : Text → Text → Bool
unfolding includes
matches value name = includes (map to_lower value) (map to_lower name)

unfoldable pub filtered_list : Select → List Text
unfolding get_list matches
filtered_list s = if is_nil s.value then get_list s else filter (matches s.value) (get_list s)

-- `list.findIndex(m => m.name === value)`
unfoldable pub find_index : Text → List Text → Option ℕ
find_index value [] = none
find_index value (n ∷ ns) =
    let rest = find_index value ns in
    if text_eq n value then some 0 else elim rest [ none ↦ none | some i ↦ some (suc i) ]

abbrev pub is_empty_list : List Text → Bool
is_empty_list [] = true
is_empty_list (n ∷ ns) = false

-- The effect that fetches the installed models.
unfoldable pub fetch_if_empty : Select → Select
fetch_if_empty s =
    if s.is_open && s.is_ollama && is_empty_list s.installed && not s.loading
    then record s { loading = true; fetches = s.fetches + 1 }
    else s

-- The effect on `open`.
unfoldable pub highlight : Select → Select
unfolding filtered_list find_index
highlight s = record s { active = if s.is_open then find_index s.value (filtered_list s) else none }

-- `setOpen(…)` and the effects of a change.
unfoldable pub set_open : Bool → Select → Select
unfolding fetch_if_empty highlight
set_open true s = if s.is_open then s else highlight (fetch_if_empty (record s { is_open = true }))
set_open false s = if s.is_open then highlight (record s { is_open = false }) else s

-- `select(list[i].name)`, if there is one.
unfoldable pub select_name : Option Text → Select → Select
unfolding get_list
select_name none s = s
select_name (some name) s = record s {
  value = name;
  is_open = false;
  active = none;
  chosen = s.chosen ++ record { typed = s.value; offered = get_list s; name = name } ∷ [];
}

-- `Math.min(i + 1, list.length - 1)`
unfoldable pub move_down : Option ℕ → ℕ → Option ℕ
move_down i zero = none
move_down none (suc n) = some 0
move_down (some i) (suc n) = some (min (i + 1) n)

-- `Math.max(i - 1, 0)`
unfoldable pub move_up : Option ℕ → Option ℕ
move_up none = some 0
move_up (some i) = some (i - 1)

unfoldable pub at_index : List Text → Option ℕ → Option Text
at_index names none = none
at_index names (some i) = get_elem? names i

pub data MenuKey : Type 0 where
  arrow_down arrow_up escape enter other_key : MenuKey

unfoldable pub key_when_closed : MenuKey → Select → Select
unfolding set_open
key_when_closed arrow_down s = set_open true s
key_when_closed arrow_up s = set_open true s
key_when_closed escape s = s
key_when_closed enter s = s
key_when_closed other_key s = s

unfoldable pub key_when_open : MenuKey → Select → Select
unfolding set_open move_down move_up select_name at_index filtered_list
key_when_open escape s = set_open false s
key_when_open arrow_down s = record s { active = move_down s.active (length (filtered_list s)) }
key_when_open arrow_up s = record s { active = move_up s.active }
key_when_open enter s = select_name (at_index (filtered_list s) s.active) s
key_when_open other_key s = s

unfoldable pub handle_key_down : MenuKey → Select → Select
unfolding key_when_closed key_when_open
handle_key_down k s =
    if s.disabled then s else if s.is_open then key_when_open k s else key_when_closed k s

pub data SelectEvent : Type 0 where
  type_in : Text → SelectEvent
  focus close_outside : SelectEvent  -- a click outside, or the focus that has left
  press : MenuKey → SelectEvent
  hover click_row : ℕ → SelectEvent
  models_arrive : List Text → SelectEvent  -- the signal `models` is written

-- The signal is written: by the fetch that the field waits for, whose end changes `loading` and so runs
-- the effect again, or by another part.
unfoldable pub fetched : Bool → List Text → Select → Select
unfolding fetch_if_empty
fetched true names s = fetch_if_empty (record s { installed = names; loading = false })
fetched false names s = record s { installed = names }

unfoldable pub select_step : Select → SelectEvent → Select
unfolding set_open handle_key_down select_name at_index filtered_list fetched
select_step s (type_in t) = if s.disabled then s else set_open true (record s { value = t })
select_step s focus = if s.disabled then s else set_open true s
select_step s close_outside = set_open false s
select_step s (press k) = handle_key_down k s
select_step s (hover i) = if s.is_open then record s { active = some i } else s
select_step s (click_row i) =
    if s.is_open then select_name (at_index (filtered_list s) (some i)) s else s
select_step s (models_arrive names) = fetched s.loading names s

unfoldable pub run_select : Select → List SelectEvent → Select
unfolding select_step
run_select s [] = s
run_select s (e ∷ es) = run_select (select_step s e) es

abbrev pub closed_select : Bool → Bool → Text → List Text → Select
closed_select is_ollama disabled value installed = record {
  value = value;
  is_ollama = is_ollama;
  disabled = disabled;
  installed = installed;
  is_open = false;
  active = none;
  loading = false;
  fetches = 0;
  chosen = [];
}
