-- ===== src/Eval/Data.antt =====
-- stores/eval.js: the fetchers of one signal (but fetchEvalTrends), and the commands that answer
-- with a value. None of them touches the polling of the parent module.
use ollama_queue.Prelude.{◌≡◌, refl, Option, none, some}
use ollama_queue.Net.{
  Json, null, bool, number, text, array, object, member_of, truthy, Body, Answer, accepted, refused,
  Failure, null_member, http, said, say, World, Action, ◌>>=◌, ◌>>◌, return, throw, assign, fetch,
  json_of, require, load, Result, ok, failed,
}

pub data Request : Type 0 where
  get_variants : Request  -- GET /eval/variants
  get_templates : Request  -- GET /eval/templates
  get_settings : Request  -- GET /eval/settings
  get_stability : Request  -- GET /eval/variants/stability
  get_analysis : Json → Request  -- GET /eval/runs/{runId}/analysis
  get_confusion : Json → Request  -- GET /eval/runs/{runId}/confusion
  get_source_test : Request  -- GET /eval/datasource/test
  post_prime : Request  -- POST /eval/datasource/prime
  put_settings : Json → Request  -- PUT /eval/settings updates
  post_run : Json → Request  -- POST /eval/runs body

pub record Signals : Type 0 where
  pub variants : Json
  pub templates : Json
  pub settings : Json
  pub stability : Json

abbrev pub Do : Type 0 → Type 0
Do A = Action Signals Request A

unfoldable pub fetch_eval_variants : Do (Unit {0})
fetch_eval_variants = load get_variants (λ j s. record s { variants = j })

unfoldable pub fetch_eval_templates : Do (Unit {0})
fetch_eval_templates = load get_templates (λ j s. record s { templates = j })

unfoldable pub fetch_eval_settings : Do (Unit {0})
fetch_eval_settings = load get_settings (λ j s. record s { settings = j })

unfoldable pub fetch_variant_stability : Do (Unit {0})
fetch_variant_stability = load get_stability (λ j s. record s { stability = j })

-- `try { if (!res.ok) return null; return await res.json(); } catch { return null; }`
json_or_null : Answer → Do Json
json_or_null (accepted b) = json_of b
json_or_null (refused n b) = return null

value_or_null : Result Json → Do Json
value_or_null (ok j) = return j
value_or_null (failed e) = return null

unfoldable pub fetch_or_null : Request → Do Json
unfolding json_or_null value_or_null
fetch_or_null r w = let m = fetch r >>= json_or_null in value_or_null (m w).1 (m w).0

unfoldable pub fetch_run_analysis : Json → Do Json
unfolding fetch_or_null
fetch_run_analysis id = fetch_or_null (get_analysis id)

unfoldable pub fetch_confusion_matrix : Json → Do Json
unfolding fetch_or_null
fetch_confusion_matrix id = fetch_or_null (get_confusion id)

-- What the test of the data source returns: `{ ok: false, error }` with the status, or the body.
pub data SourceTest : Type 0 where
  unavailable : Failure → SourceTest
  tested : Json → SourceTest

test_from : Answer → Do SourceTest
test_from (accepted b) = do j ← json_of b; return (tested j)
test_from (refused n b) = return (unavailable (http n))

unfoldable pub test_data_source : Do SourceTest
unfolding test_from
test_data_source = fetch get_source_test >>= test_from

unfoldable pub prime_data_source : Do Json
prime_data_source = fetch post_prime >>= require >>= json_of

-- `err.detail`, where `none` is a member that is missing or false in a test.
detail_of : Json → Do (Option Json)
detail_of null = throw null_member
detail_of (object ms) = return (truthy (member_of "detail" ms))
detail_of (bool _) = return none
detail_of (number _) = return none
detail_of (text _) = return none
detail_of (array _) = return none

complain : Option Json → Failure
complain none = said (text "Settings save failed")
complain (some d) = said d

require_saved : Answer → Do Body
unfolding detail_of complain
require_saved (accepted b) = return b
require_saved (refused n b) = do err ← json_of b; detail ← detail_of err; throw (complain detail)

unfoldable pub save_eval_settings : Json → Do Json
unfolding require_saved
save_eval_settings updates = do
  updated ← fetch (put_settings updates) >>= require_saved >>= json_of
  assign (λ s. record s { settings = updated })
  return updated

-- The `try` around the body of a refusal, whose errors are dropped.
unfoldable pub detail_or_status : Option Json → Option Json
detail_or_status none = none
detail_or_status (some null) = none
detail_or_status (some (object ms)) = truthy (member_of "detail" ms)
detail_or_status (some (bool _)) = none
detail_or_status (some (number _)) = none
detail_or_status (some (text _)) = none
detail_or_status (some (array _)) = none

require_started : Answer → Do Body
unfolding detail_or_status
require_started (accepted b) = return b
require_started (refused n b) = throw (say n (detail_or_status b.json))

unfoldable pub trigger_eval_run : Json → Do Json
unfolding require_started
trigger_eval_run body = fetch (post_run body) >>= require_started >>= json_of

-- The two fetchers that return `null` on a failure never throw.
fetch_or_null-ok :
    (r : Request) (w : World Signals Request) → (j : Json) × ((fetch_or_null r w).1 ≡ ok j)
unfolding fetch_or_null value_or_null
fetch_or_null-ok r w = value_or_null-ok _ _
  where
    value_or_null-ok :
        (x : Result Json) (v : World Signals Request) → (j : Json) × ((value_or_null x v).1 ≡ ok j)
    value_or_null-ok (ok j) v = (j, refl)
    value_or_null-ok (failed e) v = (null, refl)
