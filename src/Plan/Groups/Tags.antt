-- ===== src/Plan/Groups/Tags.antt =====
-- groupJobsByTag: lists of tags, counted, and the groups picked by them.
use ollama_queue.Prelude.{
  ℕ, zero, suc, ◌≡◌, refl, sym, ap, ◌∙◌, Bool, false, not, ◌&&◌, ◌||◌, Option, none, some, List, [],
  ◌∷◌, ◌++◌, map, any, filter, count, count-append, any-append, arith, if◌then◌else◌, All, Pairs,
  inl, inr, Option-cases,
}
use ollama_queue.Text.{Text, text_eq}
use ollama_queue.Text.Equal.{text_eq_refl, same, other, compared}
use ollama_queue.Plan.Groups.{
  TaggedJob, Group, lookup_group, insert_text, sort_texts, with_group, pick,
}
use ollama_queue.Plan.Groups.Each.{is_group}

pub pick-append :
    (gs : List Group) (ts us : List Text) → pick gs (ts ++ us) ≡ pick gs ts ++ pick gs us
unfolding pick
pick-append gs [] us = refl
pick-append gs (t ∷ ts) us = elim (Option-cases (lookup_group t gs)) [
  | inl e ↦ rw e (pick-append gs ts us)
  | inr (js, e) ↦ rw e (ap (λ l. record { tag = t; jobs = js } ∷ l) (pick-append gs ts us))
]

abbrev pub times : ℕ → List Group → List Group
times zero xs = []
times (suc n) xs = xs ++ times n xs

-- The groups of a tag among the picked ones: as many copies as the tag is named.
filter-with_group :
    (t u : Text) (o : Option (List TaggedJob)) (gs : List Group)
    → text_eq t u ≡ false
    → filter (is_group t) (with_group u o gs) ≡ filter (is_group t) gs
filter-with_group t u none gs h = refl
filter-with_group t u (some js) gs h = rw h refl

filter-with_group_same :
    (t : Text) (o : Option (List TaggedJob)) (gs : List Group)
    → filter (is_group t) (with_group t o gs) ≡ with_group t o [] ++ filter (is_group t) gs
filter-with_group_same t none gs = refl
filter-with_group_same t (some js) gs = rw (text_eq_refl t) refl

pub filter-pick :
    (t : Text) (gs : List Group) (ts : List Text)
    → filter (is_group t) (pick gs ts)
      ≡ times (count (text_eq t) ts) (with_group t (lookup_group t gs) [])
unfolding pick
filter-pick t gs [] = refl
filter-pick t gs (u ∷ ts) = elim (compared t u) [
  | same e h ↦
      rw (h, sym e)
        (filter-with_group_same t (lookup_group t gs) (pick gs ts)
          ∙ ap (λ l. with_group t (lookup_group t gs) [] ++ l) (filter-pick t gs ts))
  | other h ↦ rw h (filter-with_group t u (lookup_group u gs) (pick gs ts) h ∙ filter-pick t gs ts)
]

count-insert_text :
    (p : Text → Bool) (t : Text) (ts : List Text) → count p (insert_text t ts) ≡ count p (t ∷ ts)
unfolding insert_text
count-insert_text p t [] = refl
count-insert_text p t (u ∷ us) = ground (arith, count-insert_text p t us)

pub count-sort_texts : (p : Text → Bool) (ts : List Text) → count p (sort_texts ts) ≡ count p ts
unfolding sort_texts
count-sort_texts p [] = refl
count-sort_texts p (t ∷ ts) =
    count-insert_text p t (sort_texts ts) ∙ ground (arith, count-sort_texts p ts)

pub count-filter :
    (p : Text → Bool) (t : Text) (ts : List Text)
    → count (text_eq t) (filter p ts) ≡ (if p t then count (text_eq t) ts else 0)
count-filter p t [] = ground arith
count-filter p t (u ∷ us) = elim (compared t u) [
  | same e h ↦ rw (sym e) (ground (arith, count-filter p t us, text_eq_refl t))
  | other h ↦ ground (arith, count-filter p t us)
]

pub count-tags :
    (t : Text) (gs : List Group) → count (text_eq t) (map (λ g. g.tag) gs) ≡ count (is_group t) gs
count-tags t [] = refl
count-tags t (g ∷ gs) = ground (arith, count-tags t gs)

-- What differs from a text that `t` equals differs from `t`.
All-differ :
    (t u : Text) (us : List Text)
    → t ≡ u
    → All (λ v. text_eq u v ≡ false) us
    → any (text_eq t) us ≡ false
All-differ t u [] e h = refl
All-differ t u (v ∷ us) e h =
    let head : text_eq t v ≡ false = ap (λ x. text_eq x v) e ∙ h.0 in
    rw (head, All-differ t u us e h.1) refl

count-none : (t : Text) (us : List Text) → any (text_eq t) us ≡ false → count (text_eq t) us ≡ 0
count-none t [] h = refl
count-none t (u ∷ us) h = ground (arith, count-none t us)

-- Different texts: each is there once or not at all.
abbrev pub AreDistinct : List Text → Type 0
AreDistinct ts = Pairs (λ u v. text_eq u v ≡ false) ts

count-distinct :
    (t : Text) (ts : List Text)
    → AreDistinct ts
    → count (text_eq t) ts ≡ (if any (text_eq t) ts then 1 else 0)
count-distinct t [] h = refl
count-distinct t (u ∷ us) h = elim (compared t u) [
  | same e k ↦ rw k (ap suc (count-none t us (All-differ t u us e h.0)))
  | other k ↦ rw k (count-distinct t us h.1)
]

pub count-three :
    (t : Text) (front extras : List Text) (last : Text) (n : ℕ)
    → AreDistinct (front ++ last ∷ [])
    → count (text_eq t) extras
      ≡ (if not (any (text_eq t) front) && not (text_eq t last) then n else 0)
    → count (text_eq t) (front ++ (extras ++ last ∷ []))
      ≡ (if any (text_eq t) front || text_eq t last then 1 else n)
count-three t front extras last n d h = ground (
  arith,
  count-append (text_eq t) front (extras ++ last ∷ []),
  count-append (text_eq t) extras (last ∷ []),
  count-append (text_eq t) front (last ∷ []),
  count-distinct t (front ++ last ∷ []) d,
  any-append (text_eq t) front (last ∷ []),
)
