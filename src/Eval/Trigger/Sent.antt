-- ===== src/Eval/Trigger/Sent.antt =====
-- What the panel sends, whatever is chosen and clicked; and its two readings of the data source.
use ollama_queue.Prelude.{
  ℕ, zero, suc, ◌≤◌, ◌≡◌, ◌≢◌, refl, sym, ap, ◌∙◌, Bool, true, false, not, ◌||◌, Option, none, some,
  List, [], ◌∷◌, any, filter, count, count-append, any-append, arith, if◌then◌else◌, All, All-snoc,
  Bool-cases, inl, inr,
}
use ollama_queue.Text.{Text, text_eq}
use ollama_queue.Text.Equal.{same, other, compared}
use ollama_queue.Eval.Trigger.{
  SourceResult, check_readiness, readiness_of, primed, is_less, is_at_least, Settings, TriggerBody,
  TriggerPanel, toggle_in, toggle_variant, handle_mode_change, trigger_body, is_empty,
  handle_submit, follow_run, started, start_failed,
}

any-remove :
    (u v : Text) (vs : List Text)
    → any (text_eq u) (filter (λ w. not (text_eq v w)) vs)
      ≡ (if text_eq u v then false else any (text_eq u) vs)
any-remove u v [] = ground arith
any-remove u v (w ∷ vs) = elim (compared v w) [
  | same e h ↦ rw h (any-remove u v vs ∙ (rw (sym e) (ground arith)))
  | other h ↦ rw h (elim (compared u v) [
    | same e k ↦ rw (k, ap (λ t. text_eq t w) e ∙ h) (any-remove u v vs ∙ rw k refl)
    | other k ↦ rw k (ap (λ b. text_eq u w || b) (any-remove u v vs) ∙ rw k refl)
  ])
]

count-remove :
    (u v : Text) (vs : List Text)
    → count (text_eq u) (filter (λ w. not (text_eq v w)) vs) ≤ count (text_eq u) vs
count-remove u v [] = omega arith
count-remove u v (w ∷ vs) = ground (arith, count-remove u v vs)

count-absent : (u : Text) (vs : List Text) → any (text_eq u) vs ≡ false → count (text_eq u) vs ≡ 0
count-absent u [] h = refl
count-absent u (w ∷ vs) h = ground (arith, count-absent u vs)

-- No variant twice.
abbrev pub HasNoTwice : List Text → Type 0
HasNoTwice vs = (u : Text) → count (text_eq u) vs ≤ 1

toggle_in-HasNoTwice : (v : Text) (vs : List Text) → HasNoTwice vs → HasNoTwice (toggle_in v vs)
unfolding toggle_in
toggle_in-HasNoTwice v vs h u = elim (Bool-cases (any (text_eq v) vs)) [
  | inl e ↦ rw e (omega (arith, count-remove u v vs, h u))
  | inr e ↦
      rw (e, count-append (text_eq u) vs (v ∷ []))
        (elim (compared u v) [
          | same i k ↦ rw k (omega (arith, ap (λ t. count (text_eq t) vs) i, count-absent v vs e))
          | other k ↦ rw k (omega (arith, h u))
        ])
]

-- A click on a variant turns its choice around and leaves the others.
pub toggle_in_lem :
    (u v : Text) (vs : List Text)
    → any (text_eq u) (toggle_in v vs)
      ≡ (if text_eq u v then not (any (text_eq v) vs) else any (text_eq u) vs)
unfolding toggle_in
toggle_in_lem u v vs = elim (Bool-cases (any (text_eq v) vs)) [
  | inl e ↦ rw e (any-remove u v vs)
  | inr e ↦
      rw (e, any-append (text_eq u) vs (v ∷ []))
        (elim (compared u v) [
          | same i k ↦ rw (k, ap (λ t. any (text_eq t) vs) i, e) refl
          | other k ↦ rw k (ground arith)
        ])
]

-- A body with variants, none of them twice.
pub record IsFair (b : TriggerBody) : Type 0 where
  pub some_variant : b.variants ≢ []
  pub once : HasNoTwice b.variants

-- The panel's choice has none twice, and every body that it sent is fair.
pub record IsOrderly (p : TriggerPanel) : Type 0 where
  pub chosen : HasNoTwice p.selected_variants
  pub fair : All IsFair p.sent

pub data Event : Type 0 where
  open_or_close submit fail : Event
  toggle : Text → Event
  change_mode : Text → List (Text × Text) → Event
  edit : Settings → Event
  start : Bool → Option ℕ → Event  -- the start came through, for a dry run or not

unfoldable pub step : TriggerPanel → Event → TriggerPanel
unfolding toggle_variant handle_mode_change handle_submit started start_failed
step p open_or_close = record p { is_open = not p.is_open }
step p submit = handle_submit p
step p fail = start_failed p
step p (toggle v) = toggle_variant v p
step p (change_mode m fs) = handle_mode_change m fs p
step p (edit s) = record p { settings = s }
step p (start dry r) = started dry r p

unfoldable pub run : TriggerPanel → List Event → TriggerPanel
run p [] = p
run p (e ∷ es) = run (step p e) es

is_empty-ne : (vs : List Text) → is_empty vs ≡ false → vs ≢ []
is_empty-ne [] h = cc
is_empty-ne (v ∷ vs) h = cc

if_IsOrderly :
    (x : Bool) (p q : TriggerPanel)
    → IsOrderly p
    → (x ≡ false → IsOrderly q)
    → IsOrderly (if x then p else q)
if_IsOrderly true p q h k = h
if_IsOrderly false p q h k = k refl

handle_submit-IsOrderly : (p : TriggerPanel) → IsOrderly p → IsOrderly (handle_submit p)
unfolding handle_submit trigger_body
handle_submit-IsOrderly p h = if_IsOrderly (is_empty p.selected_variants || p.busy) p _ h λ e.
    record {
      chosen = h.chosen;
      fair = All-snoc IsFair p.sent (trigger_body p.selected_variants p.settings) h.fair (record {
        some_variant = is_empty-ne p.selected_variants (ground arith);
        once = h.chosen;
      });
    }

started-IsOrderly :
    (dry : Bool) (r : Option ℕ) (p : TriggerPanel) → IsOrderly p → IsOrderly (started dry r p)
unfolding started follow_run
started-IsOrderly dry none p h = record { chosen = h.chosen; fair = h.fair }
started-IsOrderly dry (some zero) p h = record { chosen = h.chosen; fair = h.fair }
started-IsOrderly true (some (suc n)) p h = record { chosen = h.chosen; fair = h.fair }
started-IsOrderly false (some (suc n)) p h = record { chosen = h.chosen; fair = h.fair }

step-IsOrderly : (p : TriggerPanel) (e : Event) → IsOrderly p → IsOrderly (step p e)
unfolding step toggle_variant handle_mode_change start_failed
step-IsOrderly p open_or_close h = record { chosen = h.chosen; fair = h.fair }
step-IsOrderly p submit h = handle_submit-IsOrderly p h
step-IsOrderly p fail h = record { chosen = h.chosen; fair = h.fair }
step-IsOrderly p (toggle v) h = record {
  chosen = toggle_in-HasNoTwice v p.selected_variants h.chosen;
  fair = h.fair;
}
step-IsOrderly p (change_mode m fs) h = record { chosen = h.chosen; fair = h.fair }
step-IsOrderly p (edit s) h = record { chosen = h.chosen; fair = h.fair }
step-IsOrderly p (start dry r) h = started-IsOrderly dry r p h

-- Whatever is chosen and clicked, every test run that the panel starts names at least one variant,
-- and none of them twice, if the choice and the runs before were so.
pub run-IsOrderly : (es : List Event) (p : TriggerPanel) → IsOrderly p → IsOrderly (run p es)
unfolding run
run-IsOrderly [] p h = h
run-IsOrderly (e ∷ es) p h = run-IsOrderly es (step p e) (step-IsOrderly p e h)

-- Of an answer with both counts the two readings agree: after the preparation the panel shows what a
-- new check with the same answer would show.
pub primed-check_readiness :
    (e : Option Text) (n m : ℕ)
    → let r : SourceResult = record {
      is_ok = true;
      error = e;
      item_count = some n;
      cluster_count = some m;
    } in
      primed r ≡ check_readiness (some r)
unfolding primed check_readiness readiness_of is_less is_at_least
primed-check_readiness e n m = ground arith
