-- ===== src/Pages/Recent/Tags.antt =====
-- A tag that is offered has rows to show.
use ollama_queue.Prelude.{
  ℕ, zero, suc, ◌≤◌, ◌≡◌, sym, ap, ◌∙◌, subst, Bool, true, false, ◌||◌, Option, none, some, List,
  [], ◌∷◌, ◌++◌, any, filter, length, length-take, length-filter, count, get_elem?, All, All-snoc,
  All-take, Bool-cases, inl, inr, arith, if◌then◌else◌,
}
use mathlib.Core.Option.{some-injective}
use ollama_queue.Text.{Text, is_nil, text_eq}
use ollama_queue.Text.Equal.{text_eq_refl}
use ollama_queue.Pages.Recent.{
  PastJob, add_tag, note_tag, tags_from, tags_of_jobs, bears, with_tag, shown_items,
}

seen_or :
    (t : Text) (seen : List Text) (i : ℕ)
    → get_elem? seen i ≡ some t
    → any (λ u. text_eq u t) seen ≡ true
seen_or t [] i h = cc
seen_or t (u ∷ us) zero h =
    let e : text_eq u t ≡ true = ap (λ v. text_eq v t) (some-injective _ _ h) ∙ text_eq_refl t in
    ground (arith, e)
seen_or t (u ∷ us) (suc i) h = ground (arith, seen_or t us i h)

any-snoc :
    (t u : Text) (seen : List Text)
    → any (λ v. text_eq v t) (seen ++ u ∷ []) ≡ (any (λ v. text_eq v t) seen || text_eq u t)
any-snoc t u [] = ground arith
any-snoc t u (v ∷ vs) = ground (arith, any-snoc t u vs)

-- The two tests of `note_tag` and `add_tag`.
noted_if :
    (b c : Bool) (u t : Text) (seen : List Text)
    → any (λ v. text_eq v t) (if b then seen else if c then seen else seen ++ u ∷ []) ≡ true
    → (any (λ v. text_eq v t) seen || text_eq u t) ≡ true
noted_if true c u t seen h = ground (arith, h)
noted_if false true u t seen h = ground (arith, h)
noted_if false false u t seen h = sym (any-snoc t u seen) ∙ h

noted :
    (o : Option Text) (t : Text) (seen : List Text)
    → any (λ v. text_eq v t) (note_tag o seen) ≡ true
    → (any (λ v. text_eq v t) seen || elim o [ none ↦ false | some u ↦ text_eq u t ]) ≡ true
unfolding note_tag add_tag
noted none t seen h = ground (arith, h)
noted (some u) t seen h = noted_if (is_nil u) (any (λ v. text_eq v u) seen) u t seen h

tags_from-borne :
    (jobs : List PastJob) (seen : List Text) (i : ℕ) (t : Text)
    → get_elem? (tags_from seen jobs) i ≡ some t
    → (any (λ u. text_eq u t) seen || any (bears t) jobs) ≡ true
unfolding tags_from
tags_from-borne [] seen i t h = ground (arith, seen_or t seen i h)
tags_from-borne (j ∷ js) seen i t h =
    elim (Bool-cases (any (λ u. text_eq u t) (note_tag j.tag seen))) [
      | inl e ↦ ground (arith, noted j.tag t seen e)
      | inr e ↦ ground (arith, e, tags_from-borne js (note_tag j.tag seen) i t h)
    ]

Named : List Text → Type 0
Named seen = All (λ t. is_nil t ≡ false) seen

note_tag-Named : (o : Option Text) (seen : List Text) → Named seen → Named (note_tag o seen)
unfolding note_tag add_tag Named
note_tag-Named none seen h = h
note_tag-Named (some u) seen h = elim (Bool-cases (is_nil u)) [
  | inl e ↦ rw e h
  | inr e ↦ rw e (elim (Bool-cases (any (λ v. text_eq v u) seen)) [
    | inl f ↦ rw f h
    | inr f ↦ rw f (All-snoc (λ t. is_nil t ≡ false) seen u h e)
  ])
]

tags_from-Named :
    (jobs : List PastJob) (seen : List Text) → Named seen → Named (tags_from seen jobs)
unfolding tags_from
tags_from-Named [] seen h = h
tags_from-Named (j ∷ js) seen h =
    tags_from-Named js (note_tag j.tag seen) (note_tag-Named j.tag seen h)

All-get_elem? :
    (P : Text → Type 0) (xs : List Text) (i : ℕ) (t : Text)
    → All P xs
    → get_elem? xs i ≡ some t
    → P t
All-get_elem? P [] i t h e = cc
All-get_elem? P (x ∷ xs) zero t h e = subst P (some-injective _ _ e) h.0
All-get_elem? P (x ∷ xs) (suc i) t h e = All-get_elem? P xs i t h.1 e

filter-All : (p : PastJob → Bool) (jobs : List PastJob) → All (λ j. p j ≡ true) (filter p jobs)
filter-All p [] = tt
filter-All p (j ∷ js) = elim (Bool-cases (p j)) [
  | inl e ↦ rw e (e, filter-All p js)
  | inr e ↦ rw e (filter-All p js)
]

any-count : (p : PastJob → Bool) (jobs : List PastJob) → any p jobs ≡ true → 1 ≤ count p jobs
any-count p [] h = cc
any-count p (j ∷ js) h = ground (arith, any-count p js)

-- Choosing any of the tags that are offered shows at least one row and at most 20, and each row that
-- is shown has the tag.
pub offered_tag_shows :
    (jobs : List PastJob) (i : ℕ) (t : Text)
    → get_elem? (tags_of_jobs jobs) i ≡ some t
    → (1 ≤ length (shown_items (some t) jobs))
      × (length (shown_items (some t) jobs) ≤ 20)
      × All (λ j. bears t j ≡ true) (shown_items (some t) jobs)
unfolding tags_of_jobs shown_items with_tag Named
offered_tag_shows jobs i t h =
    let named : is_nil t ≡ false =
      All-get_elem? (λ t. is_nil t ≡ false) (tags_from [] jobs) i t (tags_from-Named jobs [] tt)
        h in
    let borne : any (bears t) jobs ≡ true = tags_from-borne jobs [] i t h in
    let rows = filter (bears t) jobs in
    rw named (
      omega (
        arith,
        length-take 20 rows,
        length-filter (bears t) jobs,
        any-count (bears t) jobs borne,
      ),
      omega (arith, length-take 20 rows),
      All-take (λ j. bears t j ≡ true) 20 rows (filter-All (bears t) jobs),
    )
