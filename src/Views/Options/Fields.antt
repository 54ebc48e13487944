-- ===== src/Views/Options/Fields.antt =====
-- components/eval/GeneralSettings.jsx: the fields with a number, their defaults and their bounds.
use ollama_queue.Prelude.{ℕ, Bool, false, ◌&&◌, Option, none, some, List, [], ◌∷◌, ◌++◌}
use ollama_queue.Text.{Text}
use ollama_queue.Views.Options.Amounts.{Amount, read_int, read_float, at_least, at_most}

-- The fields with a number, in short: `min_improvement` is `eval.auto_promote_min_improvement`.
pub data Key : Type 0 where
  per_cluster error_budget f1_threshold stability_window min_improvement auc_threshold : Key
  min_posterior_separation prior_probability pairs_per_principle : Key

abbrev pub key_index : Key → ℕ
key_index per_cluster = 0
key_index error_budget = 1
key_index f1_threshold = 2
key_index stability_window = 3
key_index min_improvement = 4
key_index auc_threshold = 5
key_index min_posterior_separation = 6
key_index prior_probability = 7
key_index pairs_per_principle = 8

-- A definition of a field: `parse`, the bounds that `validate` tests, and `default`.
pub record FieldDef : Type 0 where
  pub key : Key
  pub parse : Text → Option Amount
  pub low : ℕ
  pub high : ℕ
  pub default : Amount

-- A whole number from 1 to 20.
unfoldable pub counted : Key → ℕ → FieldDef
counted k n = record {
  key = k;
  parse = read_int;
  low = 1;
  high = 20;
  default = record { negative = false; digits = n; places = 0 };
}

-- A number from 0 to 1; its default is in hundredths.
unfoldable pub proportion : Key → ℕ → FieldDef
proportion k n = record {
  key = k;
  parse = read_float;
  low = 0;
  high = 1;
  default = record { negative = false; digits = n; places = 2 };
}

abbrev pub field_defs : List FieldDef
field_defs =
    counted per_cluster 4
    ∷ proportion error_budget 30
    ∷ proportion f1_threshold 75
    ∷ counted stability_window 3
    ∷ []

abbrev pub improvement_defs : List FieldDef
improvement_defs = proportion min_improvement 5 ∷ []

abbrev pub bayesian_promote_defs : List FieldDef
bayesian_promote_defs = proportion auc_threshold 85 ∷ proportion min_posterior_separation 40 ∷ []

abbrev pub bayesian_field_defs : List FieldDef
bayesian_field_defs = proportion prior_probability 25 ∷ counted pairs_per_principle 4 ∷ []

-- The fields in the order in which the loops of the form take them.
abbrev pub all_defs : List FieldDef
all_defs = field_defs ++ improvement_defs ++ bayesian_promote_defs ++ bayesian_field_defs

-- `!validate(v)`: the comparisons are false for NaN.
unfoldable pub is_valid : FieldDef → Option Amount → Bool
is_valid d none = false
is_valid d (some a) = at_least d.low a && at_most d.high a
