-- ===== src/Pages.antt =====
-- The pages and what stands on them: components/eval/ResultsTable.jsx in Results, pages/Settings.jsx
-- in Restart, pages/BackendsTab.jsx in Weights, app.jsx in Shell and components/HistoryList.jsx in
-- Recent.
pub mod Results
pub mod Restart
pub mod Weights
pub mod Shell
pub mod Recent
mod Tests
