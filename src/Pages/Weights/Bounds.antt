-- ===== src/Pages/Weights/Bounds.antt =====
-- What the cards and the form of the backends send.
use ollama_queue.Prelude.{
  ℕ, zero, suc, ◌*◌, ◌^◌, ◌≤◌, ◌≡◌, ◌≢◌, refl, sym, subst, ◌∙◌, false, ◌||◌, Option, none, some,
  List, [], ◌∷◌, ◌==◌, any, All, All-snoc, arith, Bool-cases, inl, inr,
}
use ollama_queue.Text.{Text, is_nil, trim}
use ollama_queue.Views.Options.Amounts.{Amount, read_float}
use ollama_queue.Pages.Weights.{
  is_refused, TestResult, Card, weight_read, handle_weight_save, weight_saved, weight_failed,
  handle_test, test_answered, CardEvent, edit, close_edit, type_weight, save_weight, weight_done,
  weight_refused, test, tested, card_step, run_card, new_card, AddForm, or_one, handle_submit,
  add_succeeds, add_fails, try_url, url_tried, clear_message, AddEvent, write_url, write_weight,
  submit, add_done, try_it, add_refused, tried, message_over, add_step, run_add, empty_form,
}

-- From 0.1 to 10.
pub record IsWeight (w : Amount) : Type 0 where
  pub sign : w.negative ≡ false
  pub above : 10 ^ w.places ≤ w.digits * 10
  pub below : w.digits ≤ 10 * 10 ^ w.places

abbrev Sound : Card → Type 0
Sound c = All IsWeight c.weights

weight_read-Sound : (o : Option Amount) (c : Card) → Sound c → Sound (weight_read o c)
unfolding weight_read is_refused
weight_read-Sound none c h = h
weight_read-Sound (some w) c h = elim (Bool-cases (is_refused (some w))) [
  | inl e ↦ rw e h
  | inr e ↦ rw e (
      All-snoc IsWeight c.weights w h
        (record { sign = ground arith; above = ground arith; below = ground arith }))
]

weight_saved-Sound : (n : ℕ) (c : Card) → Sound c → Sound (weight_saved n c)
unfolding weight_saved
weight_saved-Sound zero c h = h
weight_saved-Sound (suc n) c h = h

weight_failed-Sound : (m : Text) (n : ℕ) (c : Card) → Sound c → Sound (weight_failed m n c)
unfolding weight_failed
weight_failed-Sound m zero c h = h
weight_failed-Sound m (suc n) c h = h

test_answered-Sound : (r : TestResult) (n : ℕ) (c : Card) → Sound c → Sound (test_answered r n c)
unfolding test_answered
test_answered-Sound r zero c h = h
test_answered-Sound r (suc n) c h = h

card_step-Sound : (c : Card) (e : CardEvent) → Sound c → Sound (card_step c e)
unfolding card_step handle_weight_save handle_test
card_step-Sound c edit h = h
card_step-Sound c close_edit h = h
card_step-Sound c (type_weight t) h = h
card_step-Sound c save_weight h = weight_read-Sound (read_float c.weight_val) c h
card_step-Sound c weight_done h = weight_saved-Sound c.saving c h
card_step-Sound c (weight_refused m) h = weight_failed-Sound m c.saving c h
card_step-Sound c test h = elim (Bool-cases c.testing) [ inl e ↦ rw e h | inr e ↦ rw e h ]
card_step-Sound c (tested r) h = test_answered-Sound r c.tests c h

run_from-Sound : (c : Card) (es : List CardEvent) → Sound c → Sound (run_card c es)
unfolding run_card
run_from-Sound c [] h = h
run_from-Sound c (e ∷ es) h = run_from-Sound (card_step c e) es (card_step-Sound c e h)

-- Whatever is typed into the card of a backend, every weight that it sends is from 0.1 to 10.
pub run_card-weights :
    (url weight : Text) (es : List CardEvent)
    → All IsWeight (run_card (new_card url weight) es).weights
run_card-weights url weight es = run_from-Sound (new_card url weight) es tt

-- The address is not blank, and the weight is not 0.
pub record IsAddition (r : Text × Amount) : Type 0 where
  pub named : is_nil r.0 ≡ false
  pub weighted : r.1.digits ≢ 0

-- What the form has sent, and that it waits for at most one answer.
record IsTidyForm (f : AddForm) : Type 0 where
  additions : All IsAddition f.added
  single : f.adding ≤ 1
  busy : f.loading ≡ false → f.adding ≡ 0

or_one-ne : (o : Option Amount) → (or_one o).digits ≢ 0
unfolding or_one
or_one-ne none = omega arith
or_one-ne (some w) = ground arith

handle_submit-IsTidyForm : (f : AddForm) → IsTidyForm f → IsTidyForm (handle_submit f)
unfolding handle_submit
handle_submit-IsTidyForm f h = elim (Bool-cases (f.loading || is_nil (trim f.url))) [
  | inl e ↦ rw e h
  | inr e ↦ rw e (record {
    additions =
        All-snoc IsAddition f.added (trim f.url, or_one (read_float f.weight)) h.additions
          (record { named = ground arith; weighted = or_one-ne (read_float f.weight) });
    single = omega (arith, h.busy (ground arith));
    busy = λ e. cc;
  })
]

add_succeeds-IsTidyForm :
    (n : ℕ) (f : AddForm) → n ≤ 1 → IsTidyForm f → IsTidyForm (add_succeeds n f)
unfolding add_succeeds
add_succeeds-IsTidyForm zero f l h = h
add_succeeds-IsTidyForm (suc n) f l h = record {
  additions = h.additions;
  single = omega (arith, l);
  busy = λ e. omega (arith, l);
}

add_fails-IsTidyForm :
    (m : Text) (n : ℕ) (f : AddForm) → n ≤ 1 → IsTidyForm f → IsTidyForm (add_fails m n f)
unfolding add_fails
add_fails-IsTidyForm m zero f l h = h
add_fails-IsTidyForm m (suc n) f l h = record {
  additions = h.additions;
  single = omega (arith, l);
  busy = λ e. omega (arith, l);
}

url_tried-IsTidyForm :
    (r : TestResult) (n : ℕ) (f : AddForm) → IsTidyForm f → IsTidyForm (url_tried r n f)
unfolding url_tried
url_tried-IsTidyForm r zero f h = h
url_tried-IsTidyForm r (suc n) f h = record {
  additions = h.additions;
  single = h.single;
  busy = h.busy;
}

-- A change of the texts or of the timers alone.
same_calls-IsTidyForm :
    (f g : AddForm)
    → g.added ≡ f.added
    → g.adding ≡ f.adding
    → g.loading ≡ f.loading
    → IsTidyForm f
    → IsTidyForm g
same_calls-IsTidyForm f g a b c h = record {
  additions = subst (All IsAddition) (sym a) h.additions;
  single = rw b h.single;
  busy = λ e. b ∙ h.busy (sym c ∙ e);
}

add_step-IsTidyForm : (f : AddForm) (e : AddEvent) → IsTidyForm f → IsTidyForm (add_step f e)
unfolding add_step try_url clear_message
add_step-IsTidyForm f (write_url t) h =
    same_calls-IsTidyForm f (record f { url = t }) refl refl refl h
add_step-IsTidyForm f (write_weight t) h =
    same_calls-IsTidyForm f (record f { weight = t }) refl refl refl h
add_step-IsTidyForm f submit h = handle_submit-IsTidyForm f h
add_step-IsTidyForm f add_done h = add_succeeds-IsTidyForm f.adding f h.single h
add_step-IsTidyForm f try_it h = elim (Bool-cases (is_nil (trim f.url))) [
  | inl e ↦ rw e h
  | inr e ↦ rw e (record { additions = h.additions; single = h.single; busy = h.busy })
]
add_step-IsTidyForm f (add_refused m) h = add_fails-IsTidyForm m f.adding f h.single h
add_step-IsTidyForm f (tried r) h = url_tried-IsTidyForm r f.tests f h
add_step-IsTidyForm f (message_over t) h = elim (Bool-cases (any (λ u. u == t) f.live)) [
  | inl e ↦ rw e (record { additions = h.additions; single = h.single; busy = h.busy })
  | inr e ↦ rw e h
]

run_add_from-IsTidyForm :
    (f : AddForm) (es : List AddEvent) → IsTidyForm f → IsTidyForm (run_add f es)
unfolding run_add
run_add_from-IsTidyForm f [] h = h
run_add_from-IsTidyForm f (e ∷ es) h =
    run_add_from-IsTidyForm (add_step f e) es (add_step-IsTidyForm f e h)

-- Whatever is typed and clicked and in whatever order the answers come, the form that adds a backend
-- sends no blank address and no weight of 0, and waits for at most one addition.
pub run_add-sends :
    (es : List AddEvent)
    → All IsAddition (run_add empty_form es).added × ((run_add empty_form es).adding ≤ 1)
run_add-sends es =
    let h =
      run_add_from-IsTidyForm empty_form es
        (record { additions = tt; single = omega arith; busy = λ e. refl }) in
    (h.additions, h.single)
