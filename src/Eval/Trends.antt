-- ===== src/Eval/Trends.antt =====
-- stores/eval.js: normalizeTrends, evalWinner, and the counts of scheduled runs. Rates are natural
-- numbers of some fixed unit, and an average is its sum and its count. `new Date(text).getTime()` is
-- the parameter `time_of`, in milliseconds; `none` is NaN.
pub mod Growing
use ollama_queue.Prelude.{
  ℕ, zero, suc, ◌+◌, ◌*◌, ◌/◌, ◌≤◌, ◌≡◌, refl, ap, ◌∙◌, ◌↔◌, ◌⊎◌, inl, inr, String, Bool, true,
  false, not, ◌&&◌, ◌||◌, Option, none, some, List, [], ◌∷◌, ◌++◌, map, arith, ltb, if◌then◌else◌,
  str_eq, length, any, all, filter, find, All, Pairs, All-map, Bool-cases,
}

pub record RawRun : Type 0 where
  pub timestamp : Option ℕ
  pub started_at : String
  pub item_count : Option ℕ

pub record RawVariant : Type 0 where
  pub id : String  -- the key of `raw.variants`
  pub trend_direction : Option String
  pub judge_agreement_rate : Option ℕ
  pub runs : Option (List RawRun)

pub record RawTrends : Type 0 where
  pub status : Option String
  pub variants : Option (List RawVariant)  -- the entries of the object

pub record TrendRun : Type 0 where
  pub timestamp : Option ℕ
  pub item_count : Option ℕ

pub record TrendVariant : Type 0 where
  pub id : String
  pub trend_direction : Option String
  pub judge_agreement_rate : Option ℕ
  pub runs : List TrendRun

pub record Trends : Type 0 where
  pub variants : List TrendVariant
  pub trend_direction : String
  pub completed_runs : ℕ
  pub judge_reliability : Option (ℕ × ℕ)
  pub item_count_growing : Bool
  pub no_cluster_data : Bool

abbrev pub or_none {ℓ} : {A : Type ℓ} → Option (List A) → List A
or_none none = []
or_none (some xs) = xs

abbrev pub is_text : String → Option String → Bool
is_text s none = false
is_text s (some t) = str_eq t s

in_seconds : Option ℕ → Option ℕ
in_seconds none = none
in_seconds (some n) = some (n / 1000)

stamp : Option ℕ → Option ℕ → Option ℕ
unfolding in_seconds
stamp none t = in_seconds t
stamp (some n) t = some n

-- `runs[i].item_count || 0`
unfoldable pub items_of : TrendRun → ℕ
items_of r = elim r.item_count [ none ↦ 0 | some n ↦ n ]

-- The loop over the runs, from the second one on.
unfoldable pub grows_after : ℕ → List TrendRun → Bool
unfolding items_of
grows_after last [] = false
grows_after last (r ∷ rs) =
    let rest = grows_after (items_of r) rs in if ltb last (items_of r) then true else rest

unfoldable pub grows : List TrendRun → Bool
unfolding grows_after
grows [] = false
grows (r ∷ rs) = grows_after (items_of r) rs

unfoldable pub overall_direction : List TrendVariant → String
overall_direction vs =
    if any (λ v. is_text "regressing" v.trend_direction) vs
    then "regressing"
    else if any (λ v. is_text "improving" v.trend_direction) vs
    then "improving"
    else "stable"

unfoldable pub count_runs : List TrendVariant → ℕ
count_runs [] = 0
count_runs (v ∷ vs) = length v.runs + count_runs vs

-- The rates that are there: their sum and their number.
unfoldable pub rates : List TrendVariant → List ℕ
rates [] = []
rates (v ∷ vs) = elim v.judge_agreement_rate [ none ↦ rates vs | some r ↦ r ∷ rates vs ]

unfoldable pub sum : List ℕ → ℕ
sum [] = 0
sum (n ∷ ns) = n + sum ns

average : List ℕ → Option (ℕ × ℕ)
unfolding sum
average [] = none
average (n ∷ ns) = some (sum (n ∷ ns), length (n ∷ ns))

module _ (time_of : String → Option ℕ) where
  unfoldable pub normalize_run : RawRun → TrendRun
  unfolding stamp
  normalize_run r = record {
    timestamp = stamp r.timestamp (time_of r.started_at);
    item_count = r.item_count;
  }

  unfoldable pub normalize_variant : RawVariant → TrendVariant
  normalize_variant v = record {
    id = v.id;
    trend_direction = v.trend_direction;
    judge_agreement_rate = v.judge_agreement_rate;
    runs = map normalize_run (or_none v.runs);
  }

  unfoldable pub normalize_trends : RawTrends → Trends
  unfolding average
  normalize_trends raw =
      let vs = map normalize_variant (or_none raw.variants) in
      record {
        variants = vs;
        trend_direction = overall_direction vs;
        completed_runs = count_runs vs;
        judge_reliability = average (rates vs);
        item_count_growing = any (λ v. grows v.runs) vs;
        no_cluster_data = is_text "no_cluster_data" raw.status;
      }

pub record EvalVariant : Type 0 where
  pub name : String
  pub is_recommended : Bool
  pub is_production : Bool

unfoldable pub eval_winner : Option (List EvalVariant) → Option EvalVariant
eval_winner vs = find (λ v. v.is_recommended || v.is_production) (or_none vs)

pub record ScheduledRun : Type 0 where
  pub scheduled_for : Option ℕ

-- `run.scheduled_for && run.scheduled_for < Date.now() / 1000 + 4 * 3600`
unfoldable pub is_soon : ℕ → ScheduledRun → Bool
is_soon now r = elim r.scheduled_for [
  | none ↦ false
  | some zero ↦ false
  | some (suc t) ↦ ltb (suc t) (now + 4 * 3600)
]

unfoldable pub scheduled_eval_count : ℕ → List ScheduledRun → ℕ
unfolding is_soon
scheduled_eval_count now rs = length (filter (is_soon now) rs)
