-- ===== src/Pages/Shell/Leaves.antt =====
-- Leaving the evaluation, and the theme.
use ollama_queue.Prelude.{
  ◌≡◌, refl, sym, subst, ap, ◌∙◌, ◌&&◌, ◌||◌, Bool-cases, inl, inr, Bool, false, Option, none, some,
  List, [], if◌then◌else◌,
}
use ollama_queue.Plan.Detail.{parse_int}
use ollama_queue.Eval.{Page, Progress, Event, run, opened, stop_eval_poll}
use ollama_queue.Eval.Panel.{run-IsSteady, stop_eval_poll-live, IsSteady}
use ollama_queue.Pages.Shell.{
  Tab, Shell, is_eval, fetch_for, handle_navigate, set_current_tab, Press, on_key_down, show_tab,
  tab_of, is_k, now, plan, history, models, settings, eval, consumers, performance, backends,
}

fetch_for-page : (tab : Tab) (s : Shell) → (fetch_for tab s).page ≡ s.page
unfolding fetch_for
fetch_for-page now s = refl
fetch_for-page plan s = refl
fetch_for-page history s = refl
fetch_for-page models s = refl
fetch_for-page settings s = refl
fetch_for-page eval s = refl
fetch_for-page consumers s = refl
fetch_for-page performance s = refl
fetch_for-page backends s = refl

stopped : (b : Bool) (p : Page) → b ≡ false → (if b then p else stop_eval_poll p) ≡ stop_eval_poll p
stopped b p h = rw h refl

show_tab-page : (o : Option Tab) (s : Shell) → (show_tab o s).page ≡ s.page
unfolding show_tab set_current_tab
show_tab-page none s = refl
show_tab-page (some tab) s = refl

on_key_down-page : (p : Press) (s : Shell) → (on_key_down p s).page ≡ s.page
unfolding on_key_down
on_key_down-page p s = elim (Bool-cases ((p.meta || p.ctrl) && is_k p.key)) [
  | inl e ↦ rw e refl
  | inr e ↦ rw e (elim (Bool-cases (p.ctrl || p.alt || p.meta || p.in_field)) [
    | inl f ↦ rw f refl
    | inr f ↦ rw f (show_tab-page (tab_of (parse_int p.key)) s)
  ])
]

-- Whatever has happened in the evaluation, the navigation by `handleNavigate` to another tab leaves
-- no interval of its polling running. A click of a component that sets the tab itself and a pressed
-- key, which can lead there too, leave the intervals of the polling as they are.
pub leave-live :
    (s : Shell) (d : Option Progress) (es : List Event) (tab : Tab) (p : Press)
    → s.page ≡ run (opened d) es
    → is_eval tab ≡ false
    → ((handle_navigate tab s).page.live ≡ [])
      × ((set_current_tab tab s).page.live ≡ s.page.live)
      × ((on_key_down p s).page.live ≡ s.page.live)
unfolding handle_navigate set_current_tab
leave-live s d es tab p happened other = (
  ap (λ q. q.live) (fetch_for-page tab _ ∙ stopped (is_eval tab) s.page other)
      ∙ stop_eval_poll-live s.page (subst IsSteady (sym happened) (run-IsSteady d es)),
  refl,
  ap (λ q. q.live) (on_key_down-page p s),
)
