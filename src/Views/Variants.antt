-- ===== src/Views/Variants.antt =====
-- components/eval/VariantToolbar.jsx, and the commands of components/eval/VariantRow.jsx and
-- components/eval/TemplateRow.jsx, as actions on the page that talk to the service. The export, which
-- only stores a file, is left out.
pub mod Reloads
pub mod Commands
use ollama_queue.Prelude.{
  ℕ, Bool, true, false, not, ◌||◌, Option, none, some, List, [], ◌∷◌, ◌++◌, ◌==◌, if◌then◌else◌,
}
use ollama_queue.Text.{Text, codes, is_nil}
use ollama_queue.Net.{
  Json, Body, Answer, accepted, refused, Failure, http, bad_json, say, Result, ok, failed, World,
  Action, ◌>>=◌, ◌>>◌, return, throw, assign, fetch, json_of, load,
}
use ollama_queue.Eval.Data.{detail_or_status}
use ollama_queue.Views.Options.Amounts.{Amount, read_int, read_float}

pub record NewVariant : Type 0 where
  pub label : Text
  pub model : Text
  pub prompt_template_id : Text
  pub temperature : Amount
  pub num_ctx : Amount

abbrev pub blank_variant : NewVariant
blank_variant = record {
  label = [];
  model = [];
  prompt_template_id = codes "fewshot";
  temperature = record { negative = false; digits = 6; places = 1 };
  num_ctx = record { negative = false; digits = 8192; places = 0 };
}

-- The parameter of a route is the variant's or template's `id`.
pub data VariantRequest : Type 0 where
  post_variant : NewVariant → VariantRequest  -- POST /eval/variants
  get_preview : VariantRequest  -- GET /eval/variants/generate/preview
  post_generate : VariantRequest  -- POST /eval/variants/generate
  post_import : Json → VariantRequest  -- POST /eval/variants/import
  post_clone : Text → VariantRequest  -- POST /eval/variants/{id}/clone
  delete_variant : Text → VariantRequest  -- DELETE /eval/variants/{id}
  clone_template : Text → VariantRequest  -- POST /eval/templates/{id}/clone
  delete_template : Text → VariantRequest  -- DELETE /eval/templates/{id}
  get_variants get_templates : VariantRequest  -- GET /eval/variants, GET /eval/templates

-- What an error shows.
pub data Complaint : Type 0 where
  required : Complaint  -- “Label and model are required.”
  raised : Failure → Complaint

pub record Bench : Type 0 where
  pub variants : Json  -- the signal `evalVariants`
  pub templates : Json  -- the signal `evalTemplates`
  pub show_new_form : Bool
  pub gen_preview : Option Json
  pub preview_error : Option Failure
  pub import_error : Option Failure
  pub new_variant : NewVariant
  pub saving : Bool
  pub error : Option Complaint
  pub cloning : Bool
  pub clone_error : Option Failure
  pub pending_delete : Bool

abbrev pub Job : Type 0 → Type 0
Job A = Action Bench VariantRequest A

unfoldable pub reload_variants : Job (Unit {0})
reload_variants = load get_variants (λ j s. record s { variants = j })

unfoldable pub reload_templates : Job (Unit {0})
reload_templates = load get_templates (λ j s. record s { templates = j })

-- `try { … } catch (err) { … }`
abbrev pub settle :
    (Failure → Bench → Bench)
    → World Bench VariantRequest
    → Result (Unit {0})
    → World Bench VariantRequest × Result (Unit {0})
settle f w (ok u) = (w, ok tt)
settle f w (failed e) = (record w { store = f e w.store }, ok tt)

abbrev pub caught : Job (Unit {0}) → (Failure → Bench → Bench) → Job (Unit {0})
caught m f w = settle f (m w).0 (m w).1

-- A refusal throws what the service says, or the status.
unfoldable pub require_told : Answer → Job Body
require_told (accepted b) = return b
require_told (refused n b) = throw (say n (detail_or_status b.json))

-- A refusal throws the status.
unfoldable pub require_status : Answer → Job Body
require_status (accepted b) = return b
require_status (refused n b) = throw (http n)

unfoldable pub post_new : NewVariant → Job (Unit {0})
unfolding require_told reload_variants
post_new v = do
  _ ← fetch (post_variant v) >>= require_told
  reload_variants
  assign (λ s. record s { show_new_form = false; new_variant = blank_variant })

unfoldable pub handle_save_new : Job (Unit {0})
unfolding post_new
handle_save_new w =
    if is_nil w.store.new_variant.label || is_nil w.store.new_variant.model
    then assign (λ s. record s { error = some required }) w
    else (assign (λ s. record s { saving = true; error = none })
          >> caught (post_new w.store.new_variant) (λ e s. record s { error = some (raised e) })
          >> assign (λ s. record s { saving = false }))
        w

unfoldable pub handle_generate_preview : Job (Unit {0})
unfolding require_status
handle_generate_preview =
    assign (λ s. record s { preview_error = none })
    >> caught
        (do
          j ← fetch get_preview >>= require_status >>= json_of
          assign (λ s. record s { gen_preview = some j }))
        (λ e s. record s { preview_error = some e })

-- The function that the button “Confirm” runs.
unfoldable pub handle_generate_confirm : Job Json
unfolding require_told reload_variants
handle_generate_confirm = do
  j ← fetch post_generate >>= require_told >>= json_of
  reload_variants
  assign (λ s. record s { gen_preview = none })
  return j

-- `reader.onload`, with what JSON.parse makes of the file.
unfoldable pub handle_import : Option Json → Job (Unit {0})
unfolding require_status reload_variants
handle_import none =
    assign (λ s. record s { import_error = none })
    >> assign (λ s. record s { import_error = some bad_json })
handle_import (some j) =
    assign (λ s. record s { import_error = none })
    >> caught (do _ ← fetch (post_import j) >>= require_status; reload_variants)
        (λ e s. record s { import_error = some e })

unfoldable pub handle_clone : Text → Job (Unit {0})
unfolding require_told reload_variants
handle_clone id =
    assign (λ s. record s { cloning = true; clone_error = none })
    >> caught (do _ ← fetch (post_clone id) >>= require_told; reload_variants)
        (λ e s. record s { clone_error = some e })
    >> assign (λ s. record s { cloning = false })

-- The function that the button “Delete” runs.
unfoldable pub handle_delete : Text → Job (Unit {0})
unfolding require_told reload_variants
handle_delete id = do _ ← fetch (delete_variant id) >>= require_told; reload_variants

unfoldable pub handle_clone_template : Text → Job (Unit {0})
unfolding require_status reload_templates
handle_clone_template id =
    assign (λ s. record s { cloning = true; clone_error = none })
    >> caught (do _ ← fetch (clone_template id) >>= require_status; reload_templates)
        (λ e s. record s { clone_error = some e })
    >> assign (λ s. record s { cloning = false })

unfoldable pub handle_delete_template : Text → Job (Unit {0})
unfolding require_status reload_templates reload_variants
handle_delete_template id = do
  _ ← fetch (delete_template id) >>= require_status
  reload_templates
  reload_variants
  assign (λ s. record s { pending_delete = false })

-- `parseFloat(value) || 0.6` and `parseInt(value) || 8192` of the form's fields.
unfoldable pub or_else_amount : Option Amount → Amount → Amount
or_else_amount none fallback = fallback
or_else_amount (some a) fallback = if a.digits == 0 then fallback else a

unfoldable pub read_temperature : Text → Amount
unfolding or_else_amount
read_temperature t = or_else_amount (read_float t) blank_variant.temperature

unfoldable pub read_num_ctx : Text → Amount
unfolding or_else_amount
read_num_ctx t = or_else_amount (read_int t) blank_variant.num_ctx
