-- ===== src/Plan/Groups/Order.antt =====
-- groupJobsByTag: the groups in the order of the page hold every job once.
use ollama_queue.Prelude.{
  ◌≡◌, refl, sym, ap, ◌∙◌, Bool, true, false, not, ◌&&◌, ◌||◌, Option, none, some, List, [], ◌∷◌,
  ◌++◌, map, any, filter, count, arith, if◌then◌else◌, All, Bool-cases, inl, inr,
}
use ollama_queue.Text.{Text, text_eq}
use ollama_queue.Plan.Groups.{
  TaggedJob, Group, other_tag, tag_of, is_inherited, lookup_group, push_job, collect, tag_order,
  extra_tags, with_group, pick, in_order, if_collected, group_jobs_by_tag,
}
use ollama_queue.Plan.Groups.Each.{
  extended, has_tag, is_group, lookup_group-collect, present, HasOne, collect-HasOne,
}
use ollama_queue.Plan.Groups.Tags.{
  pick-append, times, filter-pick, count-sort_texts, count-filter, count-tags, AreDistinct,
  count-three,
}

fixed_tags-AreDistinct : AreDistinct (tag_order ++ other_tag ∷ [])
unfolding text_eq
fixed_tags-AreDistinct = (
  (refl, (refl, (refl, (refl, (refl, tt))))),
  (
    (refl, (refl, (refl, (refl, tt)))),
    ((refl, (refl, (refl, tt))), ((refl, (refl, tt)), ((refl, tt), (tt, tt)))),
  ),
)

is_extra : Text → Bool
is_extra t = not (any (text_eq t) tag_order) && not (text_eq t other_tag)

count-extra_tags :
    (t : Text) (gs : List Group)
    → HasOne gs
    → count (text_eq t) (extra_tags gs) ≡ (if is_extra t then present (lookup_group t gs) else 0)
unfolding extra_tags is_extra
count-extra_tags t gs h =
    count-sort_texts (text_eq t) (filter is_extra (map (λ g. g.tag) gs))
    ∙ count-filter is_extra t (map (λ g. g.tag) gs)
    ∙ ap (λ n. if is_extra t then n else 0) (count-tags t gs ∙ h t)

named : Text → Bool
named t = any (text_eq t) tag_order || text_eq t other_tag

-- The tag `t` among all tags of the page: once, or not at all if it has no group.
count-all :
    (t : Text) (gs : List Group)
    → HasOne gs
    → count (text_eq t) (tag_order ++ (extra_tags gs ++ other_tag ∷ []))
      ≡ (if named t then 1 else present (lookup_group t gs))
unfolding named is_extra
count-all t gs h =
    count-three t tag_order (extra_tags gs) other_tag (present (lookup_group t gs))
      fixed_tags-AreDistinct (count-extra_tags t gs h)

times-group :
    (b : Bool) (t : Text) (o : Option (List TaggedJob))
    → times (if b then 1 else present o) (with_group t o []) ≡ with_group t o []
times-group true t none = refl
times-group true t (some js) = refl
times-group false t none = refl
times-group false t (some js) = refl

filter-in_order :
    (t : Text) (gs : List Group)
    → HasOne gs
    → filter (is_group t) (in_order gs) ≡ with_group t (lookup_group t gs) []
filter-in_order t gs h =
    let tags = extra_tags gs ++ other_tag ∷ [] in
    ap (filter (is_group t)) (
      sym (
        pick-append gs tag_order tags
        ∙ ap (λ l. pick gs tag_order ++ l) (pick-append gs (extra_tags gs) (other_tag ∷ []))))
    ∙ filter-pick t gs (tag_order ++ tags)
    ∙ ap (λ n. times n (with_group t (lookup_group t gs) [])) (count-all t gs h)
    ∙ times-group (named t) t (lookup_group t gs)

-- The group that a tag should have: all jobs with the tag, in their order, if there are any.
abbrev pub group_of : Text → List TaggedJob → List Group
group_of t [] = []
group_of t (j ∷ js) = record { tag = t; jobs = j ∷ js } ∷ []

with_group-extended :
    (t : Text) (js : List TaggedJob) → with_group t (extended none js) [] ≡ group_of t js
with_group-extended t [] = refl
with_group-extended t (j ∷ js) = refl

collects :
    (gs : List Group) (js : List TaggedJob)
    → All (λ j. is_inherited (tag_of j) ≡ false) js
    → (hs : List Group) × (collect gs js ≡ some hs)
unfolding collect
collects gs [] h = (gs, refl)
collects gs (j ∷ js) h = let (hs, e) = collects (push_job (tag_of j) j gs) js h.1 in (hs, rw h.0 e)

-- If no tag is a member that every object has, the page gets its groups, and for every tag exactly
-- one group, with the jobs of that tag in their order, if there are jobs of that tag, and else none.
pub group_jobs_by_tag_each :
    (js : List TaggedJob)
    → All (λ j. is_inherited (tag_of j) ≡ false) js
    → (gs : List Group) × (group_jobs_by_tag js ≡ some gs)
      × ((t : Text) → filter (is_group t) gs ≡ group_of t (filter (has_tag t) js))
unfolding group_jobs_by_tag
group_jobs_by_tag_each js h =
    let (gs, e) = collects [] js h in
    let one = collect-HasOne [] gs js e (λ t. unfold lookup_group in refl) in
    (
      in_order gs,
      ap if_collected e,
      λ t.
          filter-in_order t gs one
          ∙ ap (λ o. with_group t o [])
              (lookup_group-collect t [] gs js e ∙ (unfold lookup_group in refl))
          ∙ with_group-extended t (filter (has_tag t) js),
    )

collect-throws :
    (gs : List Group) (js : List TaggedJob)
    → any (λ j. is_inherited (tag_of j)) js ≡ true
    → collect gs js ≡ none
unfolding collect
collect-throws gs [] h = cc
collect-throws gs (j ∷ js) h = elim (Bool-cases (is_inherited (tag_of j))) [
  | inl e ↦ rw e refl
  | inr e ↦ rw e (collect-throws (push_job (tag_of j) j gs) js (ground arith))
]

-- One job with such a tag, and the page gets no groups at all.
pub group_jobs_by_tag_throws :
    (js : List TaggedJob)
    → any (λ j. is_inherited (tag_of j)) js ≡ true
    → group_jobs_by_tag js ≡ none
unfolding group_jobs_by_tag
group_jobs_by_tag_throws js h = ap if_collected (collect-throws [] js h)
