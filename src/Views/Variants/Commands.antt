-- ===== src/Views/Variants/Commands.antt =====
-- The commands on variants and templates, and the lists that they ask for again.
use ollama_queue.Prelude.{◌≡◌, Option, none, some, List, [], ◌∷◌}
use ollama_queue.Text.{Text}
use ollama_queue.Net.{Json, Answer, accepted, World}
use ollama_queue.Views.Variants.{
  VariantRequest, post_variant, get_preview, post_generate, post_import, post_clone, delete_variant,
  clone_template, delete_template, get_variants, get_templates, Bench, Job, handle_import,
  handle_clone, handle_delete, handle_clone_template, handle_delete_template,
}

-- The service of the repository has no route that deletes a template: it refuses that command.
pub data VariantCommand : Type 0 where
  import_file : Json → VariantCommand
  clone_one delete_one clone_one_template delete_one_template : Text → VariantCommand

unfoldable pub obey : VariantCommand → Job (Unit {0})
obey (import_file j) = handle_import (some j)
obey (clone_one id) = handle_clone id
obey (delete_one id) = handle_delete id
obey (clone_one_template id) = handle_clone_template id
obey (delete_one_template id) = handle_delete_template id

abbrev pub order_of : VariantCommand → VariantRequest
order_of (import_file j) = post_import j
order_of (clone_one id) = post_clone id
order_of (delete_one id) = delete_variant id
order_of (clone_one_template id) = clone_template id
order_of (delete_one_template id) = delete_template id

-- What the handler of the command asks for again. An import asks for the variants alone.
abbrev pub reloads : VariantCommand → List VariantRequest
reloads (import_file j) = get_variants ∷ []
reloads (clone_one id) = get_variants ∷ []
reloads (delete_one id) = get_variants ∷ []
reloads (clone_one_template id) = get_templates ∷ []
reloads (delete_one_template id) = get_templates ∷ get_variants ∷ []

-- The lists of the service after a command.
pub record Lists : Type 0 where
  pub variants : Json
  pub templates : Json

abbrev pub with_json : Option Json → Option Answer
with_json o = some (accepted (record { raw = ""; json = o }))

-- How the service answers a request with these lists.
abbrev pub reply_to : Lists → VariantRequest → Option Answer
reply_to l get_variants = with_json (some l.variants)
reply_to l get_templates = with_json (some l.templates)
reply_to l (post_variant v) = with_json none
reply_to l get_preview = with_json none
reply_to l post_generate = with_json none
reply_to l (post_import j) = with_json none
reply_to l (post_clone id) = with_json none
reply_to l (delete_variant id) = with_json none
reply_to l (clone_template id) = with_json none
reply_to l (delete_template id) = with_json none

-- At the service, the command has left the other list as the page shows it: the templates, or the
-- variants when a template was cloned. Of a deleted template nothing is asked: both lists are
-- reloaded.
abbrev pub LeavesOther : VariantCommand → Bench → Lists → Type 0
LeavesOther (import_file j) s l = s.templates ≡ l.templates
LeavesOther (clone_one id) s l = s.templates ≡ l.templates
LeavesOther (delete_one id) s l = s.templates ≡ l.templates
LeavesOther (clone_one_template id) s l = s.variants ≡ l.variants
LeavesOther (delete_one_template id) s l = Unit

abbrev Place : Type 0
Place = World Bench VariantRequest

-- The page shows these lists and has sent these requests.
pub record Shows (l : Lists) (sent : List VariantRequest) (w : Place) : Type 0 where
  pub variants : w.store.variants ≡ l.variants
  pub templates : w.store.templates ≡ l.templates
  pub asked : w.sent ≡ sent

abbrev pub lists_of : Bench → Lists
lists_of s = record { variants = s.variants; templates = s.templates }
