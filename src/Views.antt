-- ===== src/Views.antt =====
-- The views of the evaluation pages: components/eval/F1LineChart.jsx in Chart,
-- components/eval/EvalPipelineSwimline.jsx in Pipeline, components/eval/RunRow.jsx in Row,
-- components/eval/GeneralSettings.jsx in Options, and the toolbar and the commands of variants and
-- templates in Variants.
pub mod Chart
pub mod Pipeline
pub mod Row
pub mod Options
pub mod Variants
mod Tests
