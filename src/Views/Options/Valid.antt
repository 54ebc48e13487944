-- ===== src/Views/Options/Valid.antt =====
-- What the form of the settings saves.
use ollama_queue.Prelude.{
  ℕ, zero, suc, ◌*◌, ◌^◌, ◌≤◌, ◌≡◌, refl, sym, subst, ap, ◌∙◌, Bool, true, false, ◌&&◌, ◌||◌,
  Option, none, some, List, [], ◌∷◌, ◌++◌, map, any, All, All-snoc, ◌==◌, arith, Bool-cases, inl,
  inr,
}
use mathlib.Core.Option.{some-injective}
use ollama_queue.Text.{Text}
use ollama_queue.Views.Options.Amounts.{Amount, at_least, at_most}
use ollama_queue.Views.Options.{
  has_error, Payload, OptionsForm, handle_change, change_by, any_error, payload_of, handle_save,
  save_unless, click_save, saved, save_failed, hide_saved, OptionsEvent, change, set_auto_promote,
  set_judge_mode, set_analysis_model, save, save_done, save_refused, timer_ends, leave_form,
  options_step, run_options, opened_form,
}
use ollama_queue.Views.Options.Fields.{Key, FieldDef, all_defs, is_valid}

-- The number is there, and lies between the bounds of its field.
pub record IsWithin (low high : ℕ) (a : Amount) : Type 0 where
  pub positive : a.negative ≡ true → a.digits ≡ 0
  pub above : low * 10 ^ a.places ≤ a.digits
  pub below : a.digits ≤ high * 10 ^ a.places

abbrev pub InRange : FieldDef → Option Amount → Type 0
InRange d o = (a : Amount) × (o ≡ some a) × IsWithin d.low d.high a

is_valid-InRange : (d : FieldDef) (o : Option Amount) → is_valid d o ≡ true → InRange d o
unfolding is_valid at_least at_most
is_valid-InRange d none h = cc
is_valid-InRange d (some a) h =
    (a, refl, record { positive = ground arith; above = ground arith; below = ground arith })

all_valid :
    (values : Key → Option Amount) (ds : List FieldDef)
    → any_error values ds ≡ false
    → All (λ d. InRange d (values d.key)) ds
unfolding any_error
all_valid values [] h = tt
all_valid values (d ∷ ds) h =
    (is_valid-InRange d (values d.key) (ground arith), all_valid values ds (ground arith))

pow_pos : (p : ℕ) → 1 ≤ 10 ^ p
pow_pos zero = omega arith
pow_pos (suc p) = omega (arith, pow_pos p)

no_multiple : (low q : ℕ) → 1 ≤ q → low * q ≤ 0 → low ≡ 0
no_multiple zero q h k = refl
no_multiple (suc low) q h k = omega (arith, h, k)

low_nought : (low high : ℕ) (a : Amount) → IsWithin low high a → a.digits ≡ 0 → low ≡ 0
low_nought low high a v e =
    no_multiple low (10 ^ a.places) (pow_pos a.places) (omega (arith, v.above, e))

InRange-is_valid : (d : FieldDef) (o : Option Amount) → InRange d o → is_valid d o ≡ true
unfolding is_valid at_least at_most
InRange-is_valid d none (a, e, v) = cc
InRange-is_valid d (some b) (a, e, v) =
    ap (λ x. at_least d.low x && at_most d.high x) (some-injective _ _ e)
    ∙ ground (arith, v.positive, v.above, v.below, low_nought d.low d.high a v)

valid_all :
    (values : Key → Option Amount) (ds : List FieldDef)
    → All (λ d. InRange d (values d.key)) ds
    → any_error values ds ≡ false
unfolding any_error
valid_all values [] h = refl
valid_all values (d ∷ ds) h =
    ground (arith, InRange-is_valid d (values d.key) h.0, valid_all values ds h.1)

save_unless-true : (b : Bool) (f : OptionsForm) → b ≡ true → (save_unless b f).sent ≡ f.sent
unfolding save_unless
save_unless-true true f e = refl
save_unless-true false f e = cc

save_unless-false :
    (b : Bool) (f : OptionsForm) → b ≡ false → (save_unless b f).sent ≡ f.sent ++ payload_of f ∷ []
unfolding save_unless
save_unless-false true f e = cc
save_unless-false false f e = refl

-- One call of the save sends the values of all fields when every field has a number within its
-- bounds, and otherwise nothing.
pub handle_save-sends :
    (f : OptionsForm)
    → (All (λ d. InRange d (f.values d.key)) all_defs
        → (handle_save f).sent ≡ f.sent ++ payload_of f ∷ [])
      × (¬ All (λ d. InRange d (f.values d.key)) all_defs → (handle_save f).sent ≡ f.sent)
unfolding handle_save
handle_save-sends f = elim (Bool-cases (any_error f.values all_defs)) [
  | inl e ↦ (
    λ h. let v = valid_all f.values all_defs h in cc,
    λ h. save_unless-true (any_error f.values all_defs) _ e,
  )
  | inr e ↦ (
    λ h. save_unless-false (any_error f.values all_defs) _ e,
    λ h. absurd (h (all_valid f.values all_defs e)),
  )
]

-- The numbers of a payload are those of all fields in their order, each within its bounds.
unfoldable pub IsProper : Payload → Type 0
IsProper p =
    (values : Key → Option Amount) × (p.numbers ≡ map (λ d. (d.key, values d.key)) all_defs)
    × All (λ d. InRange d (values d.key)) all_defs

handle_save-IsProper : (f : OptionsForm) → All IsProper f.sent → All IsProper (handle_save f).sent
unfolding handle_save payload_of IsProper
handle_save-IsProper f h = elim (Bool-cases (any_error f.values all_defs)) [
  | inl e ↦ subst (All IsProper) (sym (save_unless-true (any_error f.values all_defs) _ e)) h
  | inr e ↦
      subst (All IsProper) (sym (save_unless-false (any_error f.values all_defs) _ e))
        (All-snoc IsProper f.sent (payload_of f) h (f.values, refl, all_valid f.values all_defs e))
]

saved-IsProper : (n : ℕ) (f : OptionsForm) → All IsProper f.sent → All IsProper (saved n f).sent
unfolding saved
saved-IsProper zero f h = h
saved-IsProper (suc n) f h = h

save_failed-IsProper :
    (m : Text) (n : ℕ) (f : OptionsForm)
    → All IsProper f.sent
    → All IsProper (save_failed m n f).sent
unfolding save_failed
save_failed-IsProper m zero f h = h
save_failed-IsProper m (suc n) f h = h

change_by-sent :
    (o : Option Amount) (d : FieldDef) (f : OptionsForm) → (change_by o d f).sent ≡ f.sent
unfolding change_by
change_by-sent none d f = refl
change_by-sent (some a) d f = refl

options_step-IsProper :
    (f : OptionsForm) (e : OptionsEvent)
    → All IsProper f.sent
    → All IsProper (options_step f e).sent
unfolding options_step handle_change click_save hide_saved
options_step-IsProper f (change d raw) h =
    subst (All IsProper) (sym (change_by-sent (d.parse raw) d f)) h
options_step-IsProper f (set_auto_promote b) h = h
options_step-IsProper f (set_judge_mode t) h = h
options_step-IsProper f (set_analysis_model t) h = h
options_step-IsProper f save h =
    elim (Bool-cases (f.saving || any (λ d. has_error (f.errors d.key)) all_defs)) [
      | inl e ↦ rw e h
      | inr e ↦ rw e (handle_save-IsProper f h)
    ]
options_step-IsProper f save_done h = saved-IsProper f.waiting f h
options_step-IsProper f (save_refused m) h = save_failed-IsProper m f.waiting f h
options_step-IsProper f (timer_ends t) h = elim (Bool-cases (any (λ u. u == t) f.live)) [
  | inl e ↦ rw e h
  | inr e ↦ rw e h
]
options_step-IsProper f leave_form h = h

run_from-IsProper :
    (f : OptionsForm) (es : List OptionsEvent)
    → All IsProper f.sent
    → All IsProper (run_options f es).sent
unfolding run_options
run_from-IsProper f [] h = h
run_from-IsProper f (e ∷ es) h =
    run_from-IsProper (options_step f e) es (options_step-IsProper f e h)

-- Whatever settings the store has and whatever the user types, every request of the form has a
-- number for each field, in the order of the definitions, and each number is within the bounds of
-- its field.
pub run_options-IsProper :
    (settings : Key → Option Text) (auto : Option Bool) (mode model : Option Text)
    (es : List OptionsEvent)
    → All IsProper (run_options (opened_form settings auto mode model) es).sent
unfolding opened_form
run_options-IsProper settings auto mode model es =
    run_from-IsProper (opened_form settings auto mode model) es tt
