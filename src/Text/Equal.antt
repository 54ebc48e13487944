-- ===== src/Text/Equal.antt =====
-- Comparing texts.
use ollama_queue.Prelude.{◌≡◌, refl, ap, ◌∙◌, true, false, [], ◌∷◌, arith, Bool-cases, inl, inr}
use ollama_queue.Text.{Text, text_eq}

pub text_eq_refl : (t : Text) → text_eq t t ≡ true
unfolding text_eq
text_eq_refl [] = refl
text_eq_refl (c ∷ cs) = ground (arith, text_eq_refl cs)

pub equal_texts : (s t : Text) → text_eq s t ≡ true → s ≡ t
unfolding text_eq
equal_texts [] [] h = refl
equal_texts [] (d ∷ ds) h = cc
equal_texts (c ∷ cs) [] h = cc
equal_texts (c ∷ cs) (d ∷ ds) h =
    let head : c ≡ d = ground arith in
    let tail : cs ≡ ds = equal_texts cs ds (ground arith) in
    ap (λ x. x ∷ cs) head ∙ ap (λ l. d ∷ l) tail

-- Both answers of the comparison, as an equation or a difference.
pub data Compared (s t : Text) : Type 0 where
  same : s ≡ t → text_eq s t ≡ true → Compared s t
  other : text_eq s t ≡ false → Compared s t

pub compared : (s t : Text) → Compared s t
compared s t = elim (Bool-cases (text_eq s t)) [
  | inl h ↦ same (equal_texts s t h) h
  | inr h ↦ other h
]
