-- ===== src/Views/Variants/Reloads.antt =====
-- What the commands on variants send, and what a failed one leaves.
use ollama_queue.Prelude.{
  ◌≡◌, refl, Bool, true, false, ◌||◌, inl, inr, Option, none, some, List, [], ◌∷◌, ◌++◌,
  Option-cases,
}
use ollama_queue.Text.{is_nil}
use ollama_queue.Net.{Body, Answer, accepted, refused, Failure, World, network, say}
use ollama_queue.Eval.Data.{detail_or_status}
use ollama_queue.Views.Variants.{
  blank_variant, VariantRequest, post_variant, get_variants, raised, Bench, reload_variants,
  require_told, post_new, handle_save_new,
}

abbrev Place : Type 0
Place = World Bench VariantRequest

abbrev at : Bench → List (Option Answer) → List VariantRequest → Place
at s l sent = record { store = s; replies = l; sent = sent }

abbrev pub first_accepted : List (Option Answer) → Bool
first_accepted [] = false
first_accepted (none ∷ l) = false
first_accepted (some (accepted b) ∷ l) = true
first_accepted (some (refused n b) ∷ l) = false

-- The form is closed and blank, and the list of variants was asked for after the new one was sent.
pub record IsSaved (s : Bench) (sent : List VariantRequest) (v : Place) : Type 0 where
  pub closed : v.store.show_new_form ≡ false
  pub blank : v.store.new_variant ≡ blank_variant
  pub fine : v.store.error ≡ none
  pub idle : v.store.saving ≡ false
  pub asked : v.sent ≡ (sent ++ post_variant s.new_variant ∷ []) ++ get_variants ∷ []

-- The form is as the user left it, with an error, and only the new variant was sent.
pub record IsKept (s : Bench) (sent : List VariantRequest) (v : Place) : Type 0 where
  pub same_form : v.store.new_variant ≡ s.new_variant
  pub same_place : v.store.show_new_form ≡ s.show_new_form
  pub same_list : v.store.variants ≡ s.variants
  pub error : (e : Failure) × (v.store.error ≡ some (raised e))
  pub idle : v.store.saving ≡ false
  pub asked : v.sent ≡ sent ++ post_variant s.new_variant ∷ []

save_accepted :
    (s : Bench) (b : Body) (l : List (Option Answer)) (sent : List VariantRequest)
    → (is_nil s.new_variant.label || is_nil s.new_variant.model) ≡ false
    → IsSaved s sent (handle_save_new (at s (some (accepted b) ∷ l) sent)).0
unfolding handle_save_new post_new require_told reload_variants
save_accepted s b [] sent h =
    rw h (record { closed = refl; blank = refl; fine = refl; idle = refl; asked = refl })
save_accepted s b (none ∷ l) sent h =
    rw h (record { closed = refl; blank = refl; fine = refl; idle = refl; asked = refl })
save_accepted s b (some (refused n c) ∷ l) sent h =
    rw h (record { closed = refl; blank = refl; fine = refl; idle = refl; asked = refl })
save_accepted s b (some (accepted c) ∷ l) sent h = elim (Option-cases c.json) [
  | inl e ↦
      rw h (rw e (record { closed = refl; blank = refl; fine = refl; idle = refl; asked = refl }))
  | inr (j, e) ↦
      rw h (rw e (record { closed = refl; blank = refl; fine = refl; idle = refl; asked = refl }))
]

save_failed :
    (s : Bench) (l : List (Option Answer)) (sent : List VariantRequest)
    → (is_nil s.new_variant.label || is_nil s.new_variant.model) ≡ false
    → first_accepted l ≡ false
    → IsKept s sent (handle_save_new (at s l sent)).0
unfolding handle_save_new post_new require_told reload_variants
save_failed s [] sent h f = rw h (record {
  same_form = refl;
  same_place = refl;
  same_list = refl;
  error = (network, refl);
  idle = refl;
  asked = refl;
})
save_failed s (none ∷ l) sent h f = rw h (record {
  same_form = refl;
  same_place = refl;
  same_list = refl;
  error = (network, refl);
  idle = refl;
  asked = refl;
})
save_failed s (some (accepted b) ∷ l) sent h f = cc
save_failed s (some (refused n b) ∷ l) sent h f = rw h (record {
  same_form = refl;
  same_place = refl;
  same_list = refl;
  error = (say n (detail_or_status b.json), refl);
  idle = refl;
  asked = refl;
})

-- Whatever the service answers, a complete form is sent once. If the answer is accepted, the form is
-- closed and blank, and the list of variants is asked for again; otherwise what the user has typed
-- stays, with an error. In both cases the button is free again.
pub handle_save_new-outcome :
    (s : Bench) (l : List (Option Answer)) (sent : List VariantRequest)
    → (is_nil s.new_variant.label || is_nil s.new_variant.model) ≡ false
    → (first_accepted l ≡ true
        → IsSaved s sent (handle_save_new (record { store = s; replies = l; sent = sent })).0)
      × (first_accepted l ≡ false
          → IsKept s sent (handle_save_new (record { store = s; replies = l; sent = sent })).0)
handle_save_new-outcome s [] sent h = (λ e. cc, λ e. save_failed s [] sent h e)
handle_save_new-outcome s (none ∷ l) sent h = (λ e. cc, λ e. save_failed s (none ∷ l) sent h e)
handle_save_new-outcome s (some (accepted b) ∷ l) sent h =
    (λ e. save_accepted s b l sent h, λ e. cc)
handle_save_new-outcome s (some (refused n b) ∷ l) sent h =
    (λ e. cc, λ e. save_failed s (some (refused n b) ∷ l) sent h e)
