-- ===== src/Pages/Recent.antt =====
-- components/HistoryList.jsx: the tags of the recent jobs and the rows that are shown. The rows
-- themselves are left out.
pub mod Tags
use ollama_queue.Prelude.{
  ℕ, Bool, true, false, Option, none, some, List, [], ◌∷◌, ◌++◌, any, filter, take, if◌then◌else◌,
}
use ollama_queue.Text.{Text, is_nil, text_eq}

pub record PastJob : Type 0 where
  pub id : ℕ
  pub tag : Option Text

-- `set.add(tag)`
unfoldable pub add_tag : List Text → Text → List Text
add_tag seen t = if any (λ u. text_eq u t) seen then seen else seen ++ t ∷ []

-- `filter(Boolean)` lets no missing and no empty tag through.
unfoldable pub note_tag : Option Text → List Text → List Text
unfolding add_tag
note_tag none seen = seen
note_tag (some t) seen = if is_nil t then seen else add_tag seen t

unfoldable pub tags_from : List Text → List PastJob → List Text
unfolding note_tag
tags_from seen [] = seen
tags_from seen (j ∷ js) = tags_from (note_tag j.tag seen) js

unfoldable pub tags_of_jobs : List PastJob → List Text
unfolding tags_from
tags_of_jobs jobs = tags_from [] jobs

abbrev pub bears : Text → PastJob → Bool
bears t j = elim j.tag [ none ↦ false | some u ↦ text_eq u t ]

-- `tagFilter ? allItems.filter(j => j.tag === tagFilter) : allItems`
unfoldable pub with_tag : Option Text → List PastJob → List PastJob
with_tag none jobs = jobs
with_tag (some t) jobs = if is_nil t then jobs else filter (bears t) jobs

-- `items`
unfoldable pub shown_items : Option Text → List PastJob → List PastJob
unfolding with_tag
shown_items tag_filter jobs = take 20 (with_tag tag_filter jobs)
