-- ===== src/Plan/Groups/Each.antt =====
-- groupJobsByTag: the group of each tag.
use ollama_queue.Prelude.{
  ℕ, ◌+◌, ◌≡◌, refl, sym, ap, subst, ◌∙◌, Bool, true, false, Option, none, some, List, [], ◌∷◌,
  ◌++◌, filter, count, arith, if◌then◌else◌, Bool-cases, inl, inr,
}
use mathlib.Core.Option.{some-injective}
use mathlib.Core.List.{append-nil, append_assoc}
use ollama_queue.Text.{Text, text_eq}
use ollama_queue.Text.Equal.{same, other, compared}
use ollama_queue.Plan.Groups.{
  TaggedJob, Group, tag_of, is_inherited, lookup_group, push_job, collect,
}

-- A list of jobs in a group that may not be there yet.
abbrev pub extended : Option (List TaggedJob) → List TaggedJob → Option (List TaggedJob)
extended none [] = none
extended none (j ∷ js) = some (j ∷ js)
extended (some is) js = some (is ++ js)

abbrev pub has_tag : Text → TaggedJob → Bool
has_tag t j = text_eq t (tag_of j)

abbrev pub is_group : Text → Group → Bool
is_group t g = text_eq t g.tag

extended-nil : (o : Option (List TaggedJob)) → extended o [] ≡ o
extended-nil none = refl
extended-nil (some js) = ap some (append-nil js)

extended_step :
    (o : Option (List TaggedJob)) (j : TaggedJob) (js : List TaggedJob)
    → extended (extended o (j ∷ [])) js ≡ extended o (j ∷ js)
extended_step none j js = refl
extended_step (some is) j js = ap some (append_assoc is (j ∷ []) js)

-- A text that equals one of two different texts is not the other.
not_both : (t u v : Text) → text_eq t v ≡ true → text_eq u v ≡ false → text_eq t u ≡ false
not_both t u v h k = elim (compared t u) [
  | same e i ↦ absurd (let same_as : text_eq t v ≡ text_eq u v = ap (λ x. text_eq x v) e in cc)
  | other i ↦ i
]

lookup_group-push_job :
    (t u : Text) (j : TaggedJob) (gs : List Group)
    → lookup_group t (push_job u j gs)
      ≡ extended (lookup_group t gs) (if text_eq t u then j ∷ [] else [])
unfolding lookup_group push_job
lookup_group-push_job t u j [] = elim (Bool-cases (text_eq t u)) [
  | inl h ↦ rw h refl
  | inr h ↦ rw h refl
]
lookup_group-push_job t u j (g ∷ gs) = elim (compared u g.tag) [
  | same e h ↦
      rw (h, ap (text_eq t) e)
        (elim (Bool-cases (text_eq t g.tag)) [
          | inl k ↦ rw k refl
          | inr k ↦ rw k (sym (extended-nil (lookup_group t gs)))
        ])
  | other h ↦ rw h (elim (Bool-cases (text_eq t g.tag)) [
    | inl k ↦ rw (k, not_both t u g.tag k h) (sym (extended-nil (some g.jobs)))
    | inr k ↦ rw k (lookup_group-push_job t u j gs)
  ])
]

not_thrown {ℓ} :
    {A : Type ℓ} {a : A} (b : Bool) (o : Option A) → (if b then none else o) ≡ some a → o ≡ some a
not_thrown true o h = absurd (let no : none ≡ some _ = h in cc)
not_thrown false o h = h

-- The group of a tag after the loop: its jobs from before, and the jobs with that tag.
pub lookup_group-collect :
    (t : Text) (gs hs : List Group) (js : List TaggedJob)
    → collect gs js ≡ some hs
    → lookup_group t hs ≡ extended (lookup_group t gs) (filter (has_tag t) js)
unfolding collect
lookup_group-collect t gs hs [] e =
    ap (lookup_group t) (sym (some-injective _ _ e)) ∙ sym (extended-nil (lookup_group t gs))
lookup_group-collect t gs hs (j ∷ js) e =
    lookup_group-collect t (push_job (tag_of j) j gs) hs js
      (not_thrown (is_inherited (tag_of j)) _ e)
    ∙ ap (λ o. extended o (filter (has_tag t) js)) (lookup_group-push_job t (tag_of j) j gs)
    ∙ elim (Bool-cases (text_eq t (tag_of j))) [
      | inl h ↦ rw h (extended_step (lookup_group t gs) j (filter (has_tag t) js))
      | inr h ↦
          rw h (ap (λ o. extended o (filter (has_tag t) js)) (extended-nil (lookup_group t gs)))
    ]

-- A tag has one group or none.
abbrev pub present : Option (List TaggedJob) → ℕ
present none = 0
present (some js) = 1

abbrev pub HasOne : List Group → Type 0
HasOne gs = (t : Text) → count (is_group t) gs ≡ present (lookup_group t gs)

abbrev absent : Option (List TaggedJob) → ℕ
absent none = 1
absent (some js) = 0

count-push_job :
    (t u : Text) (j : TaggedJob) (gs : List Group)
    → count (is_group t) (push_job u j gs)
      ≡ count (is_group t) gs + (if text_eq t u then absent (lookup_group u gs) else 0)
unfolding push_job lookup_group
count-push_job t u j [] = ground arith
count-push_job t u j (g ∷ gs) = elim (Bool-cases (text_eq u g.tag)) [
  | inl h ↦ rw h (ground arith)
  | inr h ↦ rw h (ground (arith, count-push_job t u j gs))
]

present-extended :
    (o : Option (List TaggedJob)) (j : TaggedJob)
    → present (extended o (j ∷ [])) ≡ present o + absent o
present-extended none j = omega arith
present-extended (some js) j = omega arith

push_job-HasOne :
    (u : Text) (j : TaggedJob) (gs : List Group) → HasOne gs → HasOne (push_job u j gs)
push_job-HasOne u j gs h t = count-push_job t u j gs ∙ elim (compared t u) [
  | same e k ↦
      rw (lookup_group-push_job t u j gs, k, sym e)
        (omega (arith, h t, present-extended (lookup_group t gs) j))
  | other k ↦
      rw (lookup_group-push_job t u j gs, k, extended-nil (lookup_group t gs)) (omega (arith, h t))
]

pub collect-HasOne :
    (gs hs : List Group) (js : List TaggedJob) → collect gs js ≡ some hs → HasOne gs → HasOne hs
unfolding collect
collect-HasOne gs hs [] e h = subst HasOne (some-injective _ _ e) h
collect-HasOne gs hs (j ∷ js) e h =
    collect-HasOne (push_job (tag_of j) j gs) hs js (not_thrown (is_inherited (tag_of j)) _ e)
      (push_job-HasOne (tag_of j) j gs h)
