-- ===== src/Pages/Weights.antt =====
-- pages/BackendsTab.jsx: the card of a backend, with its test and its weight, and the form that adds
-- a backend, as the events of each. What the store sends is in Health; here the calls are recorded.
pub mod Bounds
use ollama_queue.Prelude.{
  ℕ, zero, suc, ◌+◌, ◌*◌, ◌^◌, Bool, true, false, not, ◌&&◌, ◌||◌, Option, none, some, List, [],
  ◌∷◌, ◌++◌, ◌==◌, any, filter, leb, ltb, if◌then◌else◌,
}
use ollama_queue.Text.{Text, codes, is_nil, trim, decimal}
use ollama_queue.Views.Options.Amounts.{Amount, read_float}

-- `isNaN(w) || w < 0.1 || w > 10.0`
unfoldable pub is_refused : Option Amount → Bool
is_refused none = true
is_refused (some w) =
    w.negative || ltb (w.digits * 10) (10 ^ w.places) || ltb (10 * 10 ^ w.places) w.digits

-- What a test of a backend shows: the milliseconds, if the answer has them, or the error.
pub data TestResult : Type 0 where
  reached : Option ℕ → TestResult
  unreached : Text → TestResult

pub record Card : Type 0 where
  pub url : Text  -- `backend.url`
  pub edit_weight : Bool
  pub weight_val : Text
  pub weight_fb : Text
  pub test_result : Option TestResult
  pub testing : Bool
  pub weights : List Amount  -- what updateBackendWeight is called with
  pub saving : ℕ  -- its calls under way
  pub tests : ℕ  -- calls of testBackend under way

unfoldable pub weight_read : Option Amount → Card → Card
unfolding is_refused
weight_read none c = record c { weight_fb = codes "Weight must be 0.1 – 10.0" }
weight_read (some w) c =
    if is_refused (some w)
    then record c { weight_fb = codes "Weight must be 0.1 – 10.0" }
    else record c { weights = c.weights ++ w ∷ []; saving = c.saving + 1 }

-- `handleWeightSave` up to its `await`.
unfoldable pub handle_weight_save : Card → Card
unfolding weight_read
handle_weight_save c = weight_read (read_float c.weight_val) c

-- Its call returns, or throws.
unfoldable pub weight_saved : ℕ → Card → Card
weight_saved zero c = c
weight_saved (suc n) c = record c { edit_weight = false; weight_fb = []; saving = n }

unfoldable pub weight_failed : Text → ℕ → Card → Card
weight_failed m zero c = c
weight_failed m (suc n) c = record c { weight_fb = codes "Error: " ++ m; saving = n }

-- `handleTest`; the button is disabled while a test is under way.
unfoldable pub handle_test : Card → Card
handle_test c =
    if c.testing then c else record c { testing = true; test_result = none; tests = c.tests + 1 }

unfoldable pub test_answered : TestResult → ℕ → Card → Card
test_answered r zero c = c
test_answered r (suc n) c = record c { test_result = some r; testing = false; tests = n }

pub data CardEvent : Type 0 where
  edit close_edit : CardEvent
  type_weight : Text → CardEvent
  save_weight weight_done : CardEvent
  weight_refused : Text → CardEvent
  test : CardEvent
  tested : TestResult → CardEvent

unfoldable pub card_step : Card → CardEvent → Card
unfolding handle_weight_save weight_saved weight_failed handle_test test_answered
card_step c edit = record c { edit_weight = true }
card_step c close_edit = record c { edit_weight = false }
card_step c (type_weight t) = record c { weight_val = t }
card_step c save_weight = handle_weight_save c
card_step c weight_done = weight_saved c.saving c
card_step c (weight_refused m) = weight_failed m c.saving c
card_step c test = handle_test c
card_step c (tested r) = test_answered r c.tests c

unfoldable pub run_card : Card → List CardEvent → Card
unfolding card_step
run_card c [] = c
run_card c (e ∷ es) = run_card (card_step c e) es

-- The card of a backend with the text of its weight.
abbrev pub new_card : Text → Text → Card
new_card url weight = record {
  url = url;
  edit_weight = false;
  weight_val = weight;
  weight_fb = [];
  test_result = none;
  testing = false;
  weights = [];
  saving = 0;
  tests = 0;
}

pub record AddForm : Type 0 where
  pub url : Text
  pub weight : Text
  pub fb : Text
  pub loading : Bool
  pub added : List (Text × Amount)  -- what addBackend is called with
  pub adding : ℕ  -- its calls under way
  pub tests : ℕ  -- calls of testBackend under way
  pub live : List ℕ  -- the timers that clear the message
  pub next_timer : ℕ

-- `parseFloat(weight) || 1`
unfoldable pub or_one : Option Amount → Amount
or_one none = record { negative = false; digits = 1; places = 0 }
or_one (some w) = if w.digits == 0 then record { negative = false; digits = 1; places = 0 } else w

-- `handleSubmit`; the button is disabled while a backend is added.
unfoldable pub handle_submit : AddForm → AddForm
unfolding or_one
handle_submit f = if f.loading || is_nil (trim f.url) then f else record f {
  loading = true;
  fb = codes "Adding…";
  added = f.added ++ (trim f.url, or_one (read_float f.weight)) ∷ [];
  adding = f.adding + 1;
}

unfoldable pub add_succeeds : ℕ → AddForm → AddForm
add_succeeds zero f = f
add_succeeds (suc n) f = record f {
  fb = codes "Added";
  url = [];
  weight = codes "1";
  loading = false;
  adding = n;
  live = f.next_timer ∷ f.live;
  next_timer = f.next_timer + 1;
}

unfoldable pub add_fails : Text → ℕ → AddForm → AddForm
add_fails m zero f = f
add_fails m (suc n) f = record f { fb = codes "Error: " ++ m; loading = false; adding = n }

unfoldable pub try_url : AddForm → AddForm
try_url f =
    if is_nil (trim f.url) then f else record f { fb = codes "Testing…"; tests = f.tests + 1 }

abbrev pub millis : Option ℕ → Text
millis none = codes "?"
millis (some n) = decimal n

abbrev pub report : TestResult → Text
report (reached ms) = codes "Reachable — " ++ millis ms ++ codes "ms"
report (unreached m) = codes "Unreachable: " ++ m

unfoldable pub url_tried : TestResult → ℕ → AddForm → AddForm
url_tried r zero f = f
url_tried r (suc n) f = record f { fb = report r; tests = n }

unfoldable pub clear_message : ℕ → AddForm → AddForm
clear_message t f =
    if any (λ u. u == t) f.live
    then record f { fb = []; live = filter (λ u. not (u == t)) f.live }
    else f

pub data AddEvent : Type 0 where
  write_url write_weight : Text → AddEvent
  submit add_done try_it : AddEvent
  add_refused : Text → AddEvent
  tried : TestResult → AddEvent
  message_over : ℕ → AddEvent

unfoldable pub add_step : AddForm → AddEvent → AddForm
unfolding handle_submit add_succeeds add_fails try_url url_tried clear_message
add_step f (write_url t) = record f { url = t }
add_step f (write_weight t) = record f { weight = t }
add_step f submit = handle_submit f
add_step f add_done = add_succeeds f.adding f
add_step f try_it = try_url f
add_step f (add_refused m) = add_fails m f.adding f
add_step f (tried r) = url_tried r f.tests f
add_step f (message_over t) = clear_message t f

unfoldable pub run_add : AddForm → List AddEvent → AddForm
unfolding add_step
run_add f [] = f
run_add f (e ∷ es) = run_add (add_step f e) es

abbrev pub empty_form : AddForm
empty_form = record {
  url = [];
  weight = codes "1";
  fb = [];
  loading = false;
  added = [];
  adding = 0;
  tests = 0;
  live = [];
  next_timer = 1;
}
