-- ===== src/Pages/Restart/Banner.antt =====
-- The banner that asks for a restart of the daemon.
use ollama_queue.Prelude.{
  ℕ, zero, suc, ◌≡◌, refl, sym, ap, ◌∙◌, subst, String, Bool, true, false, not, Option, none, some,
  List, [], ◌∷◌, ◌==◌, any, get_elem?, take_out, all, All, All-snoc, arith, Bool-cases,
  Option-cases, inl, inr, if◌then◌else◌,
}
use mathlib.Core.Option.{some-injective}
use ollama_queue.Pages.Restart.{
  SettingValue, SaveRequest, Prefs, needs_restart, form_keys, setting_of, same_value, ask_save,
  if_changed, handle_blur, flash, save_answered, observe_daemon, flash_over, PrefsEvent, blur,
  choose, toggle, answer, daemon_now, flash_ends, at_control, prefs_step, run_prefs, opened_prefs,
}

abbrev IsHarmless : String → Type 0
IsHarmless key = needs_restart key ≡ false

-- A page without the banner, on which no request under way brings it.
record IsCalm (p : Prefs) : Type 0 where
  hidden : p.restart_required ≡ false
  harmless : All (λ (r : SaveRequest). IsHarmless r.key) p.saving

keys_harmless : all (λ key. not (needs_restart key)) form_keys ≡ true
unfolding needs_restart
keys_harmless = refl

all-get_elem? :
    {A : Type 0} (f : A → Bool) (xs : List A) (k : ℕ) (x : A)
    → all f xs ≡ true
    → get_elem? xs k ≡ some x
    → f x ≡ true
all-get_elem? f [] k x h e = cc
all-get_elem? f (y ∷ ys) zero x h e = ap f (sym (some-injective _ _ e)) ∙ ground arith
all-get_elem? f (y ∷ ys) (suc k) x h e = all-get_elem? f ys k x (ground arith) e

All-take_out :
    (P : SaveRequest → Type 0) (k : ℕ) (xs : List SaveRequest)
    (found : SaveRequest × List SaveRequest)
    → take_out k xs ≡ some found
    → All P xs
    → P found.0 × All P found.1
All-take_out P k [] found e h = cc
All-take_out P zero (x ∷ xs) found e h =
    subst (λ (f : SaveRequest × List SaveRequest). P f.0 × All P f.1) (some-injective _ _ e) h
All-take_out P (suc k) (x ∷ xs) found e h = elim (Option-cases (take_out k xs)) [
  | inl n ↦ cc
  | inr (f, q) ↦
      let (a, b) = All-take_out P k xs f q h.1 in
      let e : some (f.0, x ∷ f.1) ≡ some found = ground arith in
      subst (λ (g : SaveRequest × List SaveRequest). P g.0 × All P g.1) (some-injective _ _ e)
        (a, (h.0, b))
]

ask_save-IsCalm :
    (key : String) (v : SettingValue) (p : Prefs)
    → IsHarmless key
    → IsCalm p
    → IsCalm (ask_save key v p)
unfolding ask_save
ask_save-IsCalm key v p h c = record {
  hidden = c.hidden;
  harmless =
      All-snoc (λ (r : SaveRequest). IsHarmless r.key) p.saving (record { key = key; value = v })
        c.harmless h;
}

if_changed-IsCalm :
    (key : String) (o : Option SettingValue) (p : Prefs)
    → IsHarmless key
    → IsCalm p
    → IsCalm (if_changed key o p)
unfolding if_changed
if_changed-IsCalm key none p h c = c
if_changed-IsCalm key (some v) p h c =
    elim (Bool-cases (same_value v (setting_of key p.settings))) [
      | inl e ↦ rw e c
      | inr e ↦ rw e (ask_save-IsCalm key v p h c)
    ]

at_control-IsCalm :
    (f : String → Prefs → Prefs) (o : Option String) (p : Prefs)
    → ((key : String) → o ≡ some key → IsCalm (f key p))
    → IsCalm p
    → IsCalm (at_control f o p)
unfolding at_control
at_control-IsCalm f none p h c = c
at_control-IsCalm f (some key) p h c = h key refl

control-IsHarmless : (k : ℕ) (key : String) → get_elem? form_keys k ≡ some key → IsHarmless key
control-IsHarmless k key e =
    ground (arith, all-get_elem? (λ key. not (needs_restart key)) form_keys k key keys_harmless e)

save_answered-IsCalm :
    (accepted : Bool) (o : Option (SaveRequest × List SaveRequest)) (p : Prefs)
    → ((found : SaveRequest × List SaveRequest)
        → o ≡ some found
        → IsHarmless found.0.key × All (λ (r : SaveRequest). IsHarmless r.key) found.1)
    → IsCalm p
    → IsCalm (save_answered accepted o p)
unfolding save_answered flash
save_answered-IsCalm accepted none p h c = c
save_answered-IsCalm false (some found) p h c = record {
  hidden = c.hidden;
  harmless = (h found refl).1;
}
save_answered-IsCalm true (some found) p h c = record {
  hidden = ap (λ b. if b then true else p.restart_required) (h found refl).0 ∙ c.hidden;
  harmless = (h found refl).1;
}

observe_daemon-IsCalm : (s : Option String) (p : Prefs) → IsCalm p → IsCalm (observe_daemon s p)
unfolding observe_daemon
observe_daemon-IsCalm s p c = record { hidden = ground (arith, c.hidden); harmless = c.harmless }

prefs_step-IsCalm : (p : Prefs) (e : PrefsEvent) → IsCalm p → IsCalm (prefs_step p e)
unfolding prefs_step handle_blur flash_over
prefs_step-IsCalm p (blur k raw) c =
    at_control-IsCalm (λ key. handle_blur key raw) (get_elem? form_keys k) p
      (λ key e. if_changed-IsCalm key _ p (control-IsHarmless k key e) c) c
prefs_step-IsCalm p (choose k v) c =
    at_control-IsCalm (λ key. if_changed key (some v)) (get_elem? form_keys k) p
      (λ key e. if_changed-IsCalm key (some v) p (control-IsHarmless k key e) c) c
prefs_step-IsCalm p (toggle k v) c =
    at_control-IsCalm (λ key. ask_save key v) (get_elem? form_keys k) p
      (λ key e. ask_save-IsCalm key v p (control-IsHarmless k key e) c) c
prefs_step-IsCalm p (answer k accepted) c =
    save_answered-IsCalm accepted (take_out k p.saving) p
      (λ found e.
        All-take_out (λ (r : SaveRequest). IsHarmless r.key) k p.saving found e c.harmless)
      c
prefs_step-IsCalm p (daemon_now s) c = observe_daemon-IsCalm s p c
prefs_step-IsCalm p (flash_ends t) c = elim (Bool-cases (any (λ u. u == t) p.live)) [
  | inl e ↦ rw e (record { hidden = c.hidden; harmless = c.harmless })
  | inr e ↦ rw e c
]

run_from-IsCalm : (p : Prefs) (es : List PrefsEvent) → IsCalm p → IsCalm (run_prefs p es)
unfolding run_prefs
run_from-IsCalm p [] c = c
run_from-IsCalm p (e ∷ es) c = run_from-IsCalm (prefs_step p e) es (prefs_step-IsCalm p e c)

opened_prefs-IsCalm :
    (settings : List (String × SettingValue)) (daemon : Option String)
    → IsCalm (opened_prefs settings daemon)
unfolding opened_prefs observe_daemon
opened_prefs-IsCalm settings daemon = record { hidden = ground arith; harmless = tt }

-- Whatever the user changes in the form, whatever is answered and whatever the daemon does, the
-- banner that asks for a restart never shows: none of the three keys that need one is a key of the
-- form.
pub banner_stays_hidden :
    (settings : List (String × SettingValue)) (daemon : Option String) (es : List PrefsEvent)
    → (run_prefs (opened_prefs settings daemon) es).restart_required ≡ false
banner_stays_hidden settings daemon es =
    (run_from-IsCalm (opened_prefs settings daemon) es (opened_prefs-IsCalm settings daemon)).hidden
