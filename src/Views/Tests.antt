-- ===== src/Views/Tests.antt =====
-- Tests of the views at concrete values, and witnesses.
use ollama_queue.Prelude.{
  if◌then◌else◌, ℕ, ◌≡◌, refl, String, true, false, Option, none, some, List, [], ◌∷◌, get_elem?,
  All,
}
use ollama_queue.Text.{Text, codes, trim_start, is_space, span_digits, is_digit, value_from}
use ollama_queue.Views.Chart.{
  TrendLine, f1_line_chart, has_bayesian, ChartVariant, chart_data, x_values, all_timestamps,
  add_runs, add_timestamp, series, value_at, run_map,
}
use ollama_queue.Views.Chart.Drawn.{cell}
use ollama_queue.Views.Chart.Metric.{f1_line_chart-drawn}
use ollama_queue.Views.Pipeline.{
  node_states, done, active, pending, normalize_stage, stage_state, index_of, no_stage, is_stage,
  compare_nodes,
}
use ollama_queue.Views.Row.{
  RowEvent, open_row, open_items, analysis_loaded, run_row, closed_row, row_step, toggle_level,
  show_loaded, ask_analysis,
}
use ollama_queue.Views.Options.{OptionsForm, OptionsEvent, change, save, run_options, opened_form}
use ollama_queue.Views.Options.Fields.{Key, counted, per_cluster}
use ollama_queue.Views.Options.Amounts.{
  read_float, split_sign, whole, exponent_of, fraction, exponent, shifted, read_parts, unsigned,
}
use ollama_queue.Views.Options.Valid.{IsProper, run_options-IsProper}
use ollama_queue.Net.{Body, null, refused, array, item, end, text}
use ollama_queue.Views.Variants.{
  Bench, handle_save_new, read_temperature, read_num_ctx, or_else_amount, blank_variant,
}
use ollama_queue.Views.Variants.Reloads.{first_accepted, IsSaved, IsKept, handle_save_new-outcome}
use ollama_queue.Views.Variants.Commands.{Lists}

abbrev second_variant : ChartVariant String
second_variant = record {
  id = "B";
  runs =
      record { timestamp = 20; value = none }
      ∷ record { timestamp = 30; value = some "0.7" }
      ∷ record { timestamp = 20; value = some "0.6" }
      ∷ [];
}

abbrev trends : List (ChartVariant String)
trends =
    record {
      id = "A";
      runs =
          record { timestamp = 20; value = some "0.5" }
          ∷ record { timestamp = 10; value = some "0.4" }
          ∷ [];
    }
    ∷ second_variant
    ∷ []

chart_data_test : chart_data trends ≡ (
  10 ∷ 20 ∷ 30 ∷ [],
  (some "0.4" ∷ some "0.5" ∷ none ∷ []) ∷ (none ∷ some "0.6" ∷ some "0.7" ∷ []) ∷ [],
)
unfolding chart_data x_values all_timestamps add_runs add_timestamp series value_at run_map
chart_data_test = refl

abbrev lines : List (TrendLine String)
lines =
    record {
      id = "A";
      entries =
          record { timestamp = 20; f1 = some "0.5"; auc = none; judge_mode = some "rubric" }
          ∷ record { timestamp = 20; f1 = some "0.6"; auc = none; judge_mode = none }
          ∷ [];
    }
    ∷ []

f1_line_chart-drawn_example :
    (i : ℕ) × (get_elem? (f1_line_chart lines).0 i ≡ some 20)
    × (cell (f1_line_chart lines) 0 i ≡ some (if has_bayesian lines then none else some "0.6"))
f1_line_chart-drawn_example =
    f1_line_chart-drawn lines 0
      (record {
        id = "A";
        entries =
            record { timestamp = 20; f1 = some "0.5"; auc = none; judge_mode = some "rubric" }
            ∷ record { timestamp = 20; f1 = some "0.6"; auc = none; judge_mode = none }
            ∷ [];
      })
      (record { timestamp = 20; f1 = some "0.5"; auc = none; judge_mode = some "rubric" } ∷ [])
      (record { timestamp = 20; f1 = some "0.6"; auc = none; judge_mode = none }) [] refl refl tt

node_states_test :
    node_states (some "fetch_targets") "judging" ≡ done ∷ done ∷ active ∷ pending ∷ []
unfolding node_states normalize_stage stage_state index_of no_stage is_stage compare_nodes
node_states_test = refl

abbrev clicks : List (RowEvent String)
clicks = open_row ∷ open_items ∷ analysis_loaded (some "report") ∷ analysis_loaded none ∷ []

-- The second answer takes away the analysis that the first has brought.
lost_analysis : (run_row (closed_row "complete") clicks).analysis ≡ none
unfolding run_row row_step toggle_level show_loaded ask_analysis
lost_analysis = refl

read_float_test :
    read_float (codes "-12.50e1") ≡ some (record { negative = true; digits = 12500; places = 2 })
unfolding read_float split_sign trim_start is_space span_digits is_digit value_from whole
    exponent_of fraction exponent shifted read_parts unsigned
read_float_test = refl

abbrev no_settings : Key → Option Text
no_settings k = none

abbrev untouched : OptionsForm
untouched = opened_form no_settings none none none

abbrev typed : List OptionsEvent
typed = change (counted per_cluster 4) (codes "12") ∷ save ∷ []

run_options-IsProper_example : All IsProper (run_options untouched typed).sent
run_options-IsProper_example = run_options-IsProper no_settings none none none typed

abbrev drafted : Bench
drafted = record {
  variants = null;
  templates = null;
  show_new_form = true;
  gen_preview = none;
  preview_error = none;
  import_error = none;
  new_variant = record {
    label = codes "cold";
    model = codes "qwen3:8b";
    prompt_template_id = codes "fewshot";
    temperature = read_temperature (codes "0.2");
    num_ctx = read_num_ctx (codes "4096");
  };
  saving = false;
  error = none;
  cloning = false;
  clone_error = none;
  pending_delete = false;
}

abbrev no_body : Body
no_body = record { raw = ""; json = none }

handle_save_new-outcome_example :
    (first_accepted (some (refused 409 no_body) ∷ []) ≡ true
      → IsSaved drafted []
          (handle_save_new
            (record { store = drafted; replies = some (refused 409 no_body) ∷ []; sent = [] })).0)
    × (first_accepted (some (refused 409 no_body) ∷ []) ≡ false
        → IsKept drafted []
            (handle_save_new
              (record { store = drafted; replies = some (refused 409 no_body) ∷ []; sent = [] })).0)
handle_save_new-outcome_example =
    handle_save_new-outcome drafted (some (refused 409 no_body) ∷ []) [] refl

abbrev imported : Lists
imported = record { variants = array (item (text "A") end); templates = drafted.templates }

-- A temperature of 0 cannot be entered.
no_cold : read_temperature (codes "0") ≡ blank_variant.temperature
unfolding read_temperature or_else_amount read_float split_sign trim_start is_space span_digits
    is_digit value_from whole exponent_of fraction exponent shifted read_parts unsigned
no_cold = refl
