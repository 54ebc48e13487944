-- ===== src/Views/Pipeline.antt =====
-- components/eval/EvalPipelineSwimline.jsx: the states of the four nodes of the pipeline.
use ollama_queue.Prelude.{
  ℕ, zero, suc, ◌<◌, ◌-◌, ◌≡◌, ◌↔◌, refl, String, Bool, true, false, ◌&&◌, ◌||◌, Option, none, some,
  List, [], ◌∷◌, ◌++◌, map, ltb, ap, ◌∙◌, ◌⊎◌, inl, inr, Bool-cases, eq_iff, ◌==◌, str_eq,
  if◌then◌else◌, arith,
}

abbrev pub stage_order : List String
stage_order = "queued" ∷ "generating" ∷ "judging" ∷ "done" ∷ []

-- `!stage`
unfoldable pub no_stage : Option String → Bool
no_stage none = true
no_stage (some s) = str_eq s ""

unfoldable pub is_stage : Option String → String → Bool
is_stage none name = false
is_stage (some s) name = str_eq s name

unfoldable pub normalize_stage : Option String → String → String
unfolding no_stage is_stage
normalize_stage stage status =
    if str_eq status "complete"
    then "done"
    else if str_eq status "queued" && no_stage stage
    then "queued"
    else if no_stage stage || is_stage stage "fetch_items"
    then "generating"
    else if is_stage stage "fetch_targets"
    then "judging"
    else if is_stage stage "generating"
    then "generating"
    else if is_stage stage "judging"
    then "judging"
    else "queued"

-- `indexOf`: `none` for -1.
unfoldable pub index_of : List String → String → Option ℕ
index_of [] s = none
index_of (x ∷ xs) s =
    let rest = index_of xs s in
    if str_eq x s then some 0 else elim rest [ none ↦ none | some n ↦ some (suc n) ]

pub data NodeState : Type 0 where
  done active pending : NodeState

unfoldable pub compare_nodes : Option ℕ → Option ℕ → NodeState
compare_nodes none _ = pending
compare_nodes (some curr) none = pending
compare_nodes (some curr) (some node) =
    if ltb node curr then done else if node == curr then active else pending

unfoldable pub stage_state : String → String → NodeState
unfolding index_of compare_nodes
stage_state id current = compare_nodes (index_of stage_order current) (index_of stage_order id)

-- The states that the nodes are drawn with, in their order.
unfoldable pub node_states : Option String → String → List NodeState
unfolding normalize_stage stage_state
node_states stage status = map (λ id. stage_state id (normalize_stage stage status)) stage_order

-- `n` times the same state.
abbrev repeat : ℕ → NodeState → List NodeState
repeat zero s = []
repeat (suc n) s = s ∷ repeat n s

-- `k` nodes that are done, one that is active, and the others pending.
abbrev pub Marches : ℕ → List NodeState → Type 0
Marches k states = states ≡ repeat k done ++ active ∷ repeat (3 - k) pending

Unfinished : String → Type 0
Unfinished s = (s ≡ "queued") ⊎ ((s ≡ "generating") ⊎ (s ≡ "judging"))

normalize_stage-Unfinished :
    (stage : Option String) (status : String)
    → str_eq status "complete" ≡ false
    → Unfinished (normalize_stage stage status)
unfolding normalize_stage Unfinished
normalize_stage-Unfinished stage status h = ground arith

normalize_stage-done :
    (stage : Option String) (status : String)
    → str_eq status "complete" ≡ true
    → normalize_stage stage status ≡ "done"
unfolding normalize_stage
normalize_stage-done stage status h = rw h refl

-- The states for a position of the pipeline.
states_at : String → List NodeState
states_at current = map (λ id. stage_state id current) stage_order

queued_states : Marches 0 (states_at "queued")
unfolding states_at stage_state index_of compare_nodes
queued_states = refl

generating_states : Marches 1 (states_at "generating")
unfolding states_at stage_state index_of compare_nodes
generating_states = refl

judging_states : Marches 2 (states_at "judging")
unfolding states_at stage_state index_of compare_nodes
judging_states = refl

done_states : Marches 3 (states_at "done")
unfolding states_at stage_state index_of compare_nodes
done_states = refl

March : String → Type 0
March current = (k : ℕ) × (k < 3) × Marches k (states_at current)

Unfinished-March : (current : String) → Unfinished current → March current
unfolding Unfinished March
Unfinished-March current (inl e) = (0, omega arith, ap states_at e ∙ queued_states)
Unfinished-March current (inr (inl e)) = (1, omega arith, ap states_at e ∙ generating_states)
Unfinished-March current (inr (inr e)) = (2, omega arith, ap states_at e ∙ judging_states)

-- Whatever stage and status the service sends, the nodes of the pipeline are some that are done,
-- exactly one that is active, and the rest pending; the last node is the active one exactly for a
-- run that is complete.
pub node_states-march :
    (stage : Option String) (status : String)
    → (k : ℕ) × (k < 4) × Marches k (node_states stage status) × ((k ≡ 3) ↔ (status ≡ "complete"))
unfolding node_states states_at March
node_states-march stage status = elim (Bool-cases (str_eq status "complete")) [
  | inl h ↦ (
    3,
    omega arith,
    ap states_at (normalize_stage-done stage status h) ∙ done_states,
    ground (arith, eq_iff status "complete"),
  )
  | inr h ↦
      let (k, l, m) = Unfinished-March _ (normalize_stage-Unfinished stage status h) in
      (k, omega (arith, l), m, ground (arith, l, eq_iff status "complete"))
]
