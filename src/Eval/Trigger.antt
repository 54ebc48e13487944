-- ===== src/Eval/Trigger.antt =====
-- components/eval/RunTriggerPanel.jsx: the panel that starts an evaluation run, its check of the
-- data source, and what it sends. The effects of superhot-ui are left out, and the list that
-- fetchEvalRuns brings, which is in the parent module.
pub mod Sent
use ollama_queue.Prelude.{
  ℕ, zero, suc, ◌+◌, Bool, true, false, not, ◌&&◌, ◌||◌, Option, none, some, List, [], ◌∷◌, ◌++◌,
  any, filter, leb, ltb, if◌then◌else◌,
}
use ollama_queue.Text.{Text, codes, is_nil, text_eq}
use ollama_queue.Forms.{Num, nat, or_number}

-- What the test of the data source, or its preparation, answers.
pub record SourceResult : Type 0 where
  pub is_ok : Bool
  pub error : Option Text
  pub item_count : Option ℕ
  pub cluster_count : Option ℕ

pub data Readiness : Type 0 where
  checking : Readiness
  ready : Option ℕ → Option ℕ → Readiness
  needs_prime : ℕ → ℕ → Readiness
  offline : Text → Readiness

-- Both comparisons are false for `undefined`.
unfoldable pub is_less : Option ℕ → ℕ → Bool
is_less none n = false
is_less (some m) n = ltb m n

unfoldable pub is_at_least : Option ℕ → ℕ → Bool
is_at_least none n = false
is_at_least (some m) n = leb n m

-- `n ?? 0`
abbrev pub or_nought : Option ℕ → ℕ
or_nought none = 0
or_nought (some n) = n

abbrev pub or_no_response : Option Text → Text
or_no_response none = codes "No response"
or_no_response (some t) = if is_nil t then codes "No response" else t

unfoldable pub readiness_of : SourceResult → Readiness
unfolding is_less
readiness_of r =
    if not r.is_ok
    then offline (or_no_response r.error)
    else if is_less r.cluster_count 2 || is_less r.item_count 10
    then needs_prime (or_nought r.item_count) (or_nought r.cluster_count)
    else ready r.item_count r.cluster_count

unfoldable pub check_readiness : Option SourceResult → Readiness
unfolding readiness_of
check_readiness none = offline (codes "No response")
check_readiness (some r) = readiness_of r

-- What the button that prepares the data makes of the answer.
unfoldable pub primed : SourceResult → Readiness
unfolding is_at_least
primed r =
    if is_at_least r.cluster_count 2 && is_at_least r.item_count 10
    then ready r.item_count r.cluster_count
    else needs_prime (or_nought r.item_count) (or_nought r.cluster_count)

pub record Settings : Type 0 where
  pub per_cluster : Num  -- `parseInt(perCluster)`
  pub judge_model : Text
  pub judge_mode : Text
  pub run_mode : Text
  pub mode_sub_fields : List (Text × Text)
  pub dry_run : Bool
  pub gen_backend : Text
  pub judge_backend : Text

pub record TriggerBody : Type 0 where
  pub variants : List Text
  pub per_cluster : Num
  pub judge_model : Text
  pub judge_mode : Text
  pub run_mode : Text
  pub dry_run : Bool
  pub mode_sub_fields : List (Text × Text)
  pub gen_backend_url : Option Text
  pub judge_backend_url : Option Text

pub record TriggerPanel : Type 0 where
  pub is_open : Bool
  pub selected_variants : List Text
  pub settings : Settings
  pub busy : Bool  -- `fb.phase === 'loading'`
  pub sent : List TriggerBody
  pub active_run : Option ℕ  -- `evalActiveRun.value?.run_id`, also in the session's storage
  pub polled : List ℕ  -- the runs that startEvalPoll was called for
  pub reloads : ℕ  -- the calls of fetchEvalRuns

unfoldable pub toggle_in : Text → List Text → List Text
unfolding text_eq
toggle_in v vs = if any (text_eq v) vs then filter (λ u. not (text_eq v u)) vs else vs ++ v ∷ []

unfoldable pub toggle_variant : Text → TriggerPanel → TriggerPanel
unfolding toggle_in
toggle_variant v p = record p { selected_variants = toggle_in v p.selected_variants }

unfoldable pub handle_mode_change : Text → List (Text × Text) → TriggerPanel → TriggerPanel
handle_mode_change mode fields p =
    let s : Settings = p.settings in
    record p { settings = record s { run_mode = mode; mode_sub_fields = fields } }

-- `...(url ? { member: url } : {})`
abbrev pub if_given : Text → Option Text
if_given [] = none
if_given (c ∷ cs) = some (c ∷ cs)

unfoldable pub trigger_body : List Text → Settings → TriggerBody
unfolding or_number
trigger_body vs s = record {
  variants = vs;
  per_cluster = or_number s.per_cluster (nat 4);
  judge_model = s.judge_model;
  judge_mode = s.judge_mode;
  run_mode = s.run_mode;
  dry_run = s.dry_run;
  mode_sub_fields = s.mode_sub_fields;
  gen_backend_url = if_given s.gen_backend;
  judge_backend_url = if_given s.judge_backend;
}

abbrev pub is_empty {ℓ} : {A : Type ℓ} → List A → Bool
is_empty [] = true
is_empty (x ∷ xs) = false

-- Nothing happens without a variant, or while a start is under way.
unfoldable pub handle_submit : TriggerPanel → TriggerPanel
unfolding trigger_body
handle_submit p =
    if is_empty p.selected_variants || p.busy
    then p
    else record p { busy = true; sent = p.sent ++ trigger_body p.selected_variants p.settings ∷ [] }

-- `if (!dryRun && result.run_id)`, with the dry run of the time of the click.
unfoldable pub follow_run : Bool → Option ℕ → TriggerPanel → TriggerPanel
follow_run dry none p = p
follow_run dry (some zero) p = p
follow_run true (some (suc n)) p = p
follow_run false (some (suc n)) p = record p {
  active_run = some (suc n);
  polled = p.polled ++ suc n ∷ [];
}

-- The run was started, with its number; or the start failed.
unfoldable pub started : Bool → Option ℕ → TriggerPanel → TriggerPanel
unfolding follow_run
started dry run p = record (follow_run dry run p) {
  busy = false;
  is_open = false;
  reloads = suc p.reloads;
}

unfoldable pub start_failed : TriggerPanel → TriggerPanel
start_failed p = record p { busy = false }
