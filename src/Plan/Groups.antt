-- ===== src/Plan/Groups.antt =====
-- pages/Plan/helpers.js: groupJobsByTag. A tag is a list of the code units that JavaScript compares.
-- The groups are a plain object, which has the members of every object besides.
pub mod Each
pub mod Tags
pub mod Order
use ollama_queue.Prelude.{
  ℕ, Bool, true, false, not, ◌&&◌, ◌||◌, Option, none, some, List, [], ◌∷◌, ◌++◌, map, any, filter,
  find, leb, ltb, ◌==◌, if◌then◌else◌,
}
use ollama_queue.Text.{Text, codes, is_nil, text_eq}

pub record TaggedJob : Type 0 where
  pub id : ℕ
  pub tag : Option Text

pub record Group : Type 0 where
  pub tag : Text
  pub jobs : List TaggedJob

abbrev pub other_tag : Text
other_tag = codes "other"

-- `job.tag || 'other'`
unfoldable pub tag_of : TaggedJob → Text
tag_of j = elim j.tag [ none ↦ other_tag | some t ↦ if is_nil t then other_tag else t ]

-- The members that an object has without being given them.
abbrev pub inherited : List Text
inherited =
    codes "constructor"
    ∷ codes "__defineGetter__"
    ∷ codes "__defineSetter__"
    ∷ codes "hasOwnProperty"
    ∷ codes "__lookupGetter__"
    ∷ codes "__lookupSetter__"
    ∷ codes "isPrototypeOf"
    ∷ codes "propertyIsEnumerable"
    ∷ codes "toString"
    ∷ codes "valueOf"
    ∷ codes "__proto__"
    ∷ codes "toLocaleString"
    ∷ []

unfoldable pub is_inherited : Text → Bool
unfolding text_eq
is_inherited t = any (text_eq t) inherited

unfoldable pub lookup_group : Text → List Group → Option (List TaggedJob)
unfolding text_eq
lookup_group t [] = none
lookup_group t (g ∷ gs) =
    let rest = lookup_group t gs in if text_eq t g.tag then some g.jobs else rest

-- `if (!groups[tag]) groups[tag] = []; groups[tag].push(job)`
unfoldable pub push_job : Text → TaggedJob → List Group → List Group
unfolding text_eq
push_job t j [] = record { tag = t; jobs = j ∷ [] } ∷ []
push_job t j (g ∷ gs) =
    let rest = push_job t j gs in
    if text_eq t g.tag then record g { jobs = g.jobs ++ j ∷ [] } ∷ gs else g ∷ rest

-- The first loop. An inherited member is there and has no `push`: the loop throws.
unfoldable pub collect : List Group → List TaggedJob → Option (List Group)
unfolding push_job is_inherited tag_of
collect gs [] = some gs
collect gs (j ∷ js) =
    let rest = collect (push_job (tag_of j) j gs) js in
    if is_inherited (tag_of j) then none else rest

abbrev pub tag_order : List Text
tag_order =
    codes "aria" ∷ codes "telegram" ∷ codes "lessons" ∷ codes "notion" ∷ codes "embeddings" ∷ []

-- The order of `sort()`.
unfoldable pub comes_before : Text → Text → Bool
comes_before [] t = true
comes_before (c ∷ cs) [] = false
comes_before (c ∷ cs) (d ∷ ds) = let rest = comes_before cs ds in if c == d then rest else ltb c d

unfoldable pub insert_text : Text → List Text → List Text
unfolding comes_before
insert_text t [] = t ∷ []
insert_text t (u ∷ us) =
    let rest = insert_text t us in if comes_before t u then t ∷ u ∷ us else u ∷ rest

unfoldable pub sort_texts : List Text → List Text
unfolding insert_text
sort_texts [] = []
sort_texts (t ∷ ts) = insert_text t (sort_texts ts)

unfoldable pub extra_tags : List Group → List Text
unfolding sort_texts text_eq
extra_tags gs = sort_texts (
    filter (λ t. not (any (text_eq t) tag_order) && not (text_eq t other_tag))
      (map (λ g. g.tag) gs))

-- `{ tag, jobs: groups[tag] }` in front, if the group is there.
abbrev pub with_group : Text → Option (List TaggedJob) → List Group → List Group
with_group t none gs = gs
with_group t (some js) gs = record { tag = t; jobs = js } ∷ gs

-- The groups of the given tags, as far as they are there.
unfoldable pub pick : List Group → List Text → List Group
unfolding lookup_group
pick gs [] = []
pick gs (t ∷ ts) = with_group t (lookup_group t gs) (pick gs ts)

abbrev pub in_order : List Group → List Group
in_order gs = pick gs tag_order ++ (pick gs (extra_tags gs) ++ pick gs (other_tag ∷ []))

abbrev pub if_collected : Option (List Group) → Option (List Group)
if_collected none = none
if_collected (some gs) = some (in_order gs)

unfoldable pub group_jobs_by_tag : List TaggedJob → Option (List Group)
unfolding collect pick extra_tags
group_jobs_by_tag js = if_collected (collect [] js)
