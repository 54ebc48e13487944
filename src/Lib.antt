-- ===== src/Lib.antt =====
-- The dashboard of ollama-queue, the single-page application under
-- ollama_queue/dashboard/spa/src/. It shows the queue of a scheduler of language-model jobs, polls
-- its HTTP interface, and sends the user's commands to it. Paths below start there.
--
-- Parts, and where they are modelled:
--
--   Gantt       components/GanttChart.jsx: assignLanes, getConflictingPairs, findHeavyConflicts,
--               buildDensityBuckets, buildBucketJobIds, alignLoadMapToNow, suggestDisplayIndices.
--               Lanes, Conflicts, Density and LoadMap hold their theorems. Gantt/Window has the
--               window, the zoom by handleBarClick, runStatus and lastRunOutcome.
--   Queue       components/QueueList.jsx: the items of the tag filter and handleDrop; the signals it
--               assigns and the requests it sends are the record View. Queue/Cancel has the buttons
--               that cancel (requestCancel, undoCancel), as events on the record Cancels.
--   Poll        stores/index.js: startPolling, stopPolling, fetchStatus, and of fetchAll the queue
--               and the poll interval, as events on the record State. A function behind an `await`
--               is the event that brings its reply.
--   Toasts      stores/health.js: addToast, removeToast and their timers.
--   Atmosphere  stores/atmosphere.js: _computeHealthMode, _initOrchestrator, the effect of
--               initAtmosphere, and canFireEffect with its budget. What it asks of superhot-ui is
--               recorded as a list of calls. Lifecycle has initAtmosphere and disposeAtmosphere.
--   Net         the fetch of a store's function: the replies to come and the requests sent, with
--               do blocks for `await`, and JSON values. Net/Laws has the rules for what an action
--               keeps.
--   Health      stores/health.js, all that is not a toast: backends, dead letters, deferred jobs,
--               metrics, consumers. Requests, Counted and Stale hold the theorems.
--   Schedule    stores/schedule.js, and fetchQueueEtas of stores/queue.js.
--   Jobs        the rest of stores/queue.js, stores/models.js and stores/settings.js.
--   Hosts       components/HostCard.jsx (the state of a card) and components/TopologyDiagram.jsx
--               (edgeState, and nodeState without its labels).
--   Feedback    hooks/useActionFeedback.js and hooks/useShatter.js, as events on the record Button.
--   Eval        stores/eval.js: startEvalPoll, stopEvalPoll, fetchEvalRuns, cancelEvalRun and the
--               check at start-up, as events on the record Page; Eval/Data has the fetchers of one
--               signal and the commands that answer with a value, Eval/Trends normalizeTrends.
--               Eval/Trigger is components/eval/RunTriggerPanel.jsx. A run that this panel or
--               components/eval/RunRow.jsx has started is the event run_started of Eval.
--   Text        what the pages use of JavaScript's texts: trim, toLowerCase, the digits of a number and
--               the number that digits spell. Text/Digits has their laws.
--   Plan        pages/Plan/helpers.js: the traffic intensity, the next due job, the categories;
--               Plan/Interval has formatInterval and parseInterval. Plan/Detail is the detail panel of
--               pages/Plan/index.jsx: toggleJobDetail, handleDetailSave and the delete button, on the
--               record Panel. Plan/Groups is groupJobsByTag, Plan/Refresh
--               the refresh every ten seconds. Plan has also
--               utils/priority.js, and valueToLevel of components/PrioritySelector.jsx.
--   Forms       the dialogs that add jobs: Forms/Submit is components/SubmitJobModal.jsx,
--               Forms/Recurring and Forms/Suggest are components/AddRecurringJobModal.jsx. Each is a
--               record Dialog with the events of its page. Forms/ModelSelect is the field for a
--               model of components/ModelSelect.jsx.
--   Pulls       pages/ModelsTab.jsx: the downloads of models with their intervals, as events on the
--               record Page, and the order of the table.
--   Durations   durations, countdowns and ages as text: utils/time.js and the copies of formatDuration in
--               pages/Plan/helpers.js, components/GanttChart.jsx and components/HistoryList.jsx,
--               formatCountdown, relativeTime and formatEta.
--   Views       the views of the evaluation: Views/Chart is the data of components/eval/F1LineChart.jsx,
--               Views/Pipeline components/eval/EvalPipelineSwimline.jsx, Views/Row the unfolding and
--               the analysis of components/eval/RunRow.jsx, Views/Options the form of
--               components/eval/GeneralSettings.jsx with its fields in Views/Options/Fields, and
--               Views/Variants components/eval/VariantToolbar.jsx with the commands of VariantRow.jsx
--               and TemplateRow.jsx, as actions of Net.
--   Pages       Pages/Results is components/eval/ResultsTable.jsx, Pages/Restart the form of
--               components/SettingsForm with the banner of pages/Settings.jsx, Pages/Weights
--               pages/BackendsTab.jsx, Pages/Shell the tabs, keys, theme and incident of app.jsx with
--               the clicks that set currentTab elsewhere (components/ModelChip.jsx),
--               Pages/Recent the tags and rows of components/HistoryList.jsx.
--
-- The chart and the list read the signals that the polling writes; the health mode reads those of
-- the polling, of the toasts' store and of the backends. The effects of Feedback spend the budget
-- of Atmosphere. The navigation of Pages/Shell stops the polling of Eval. The parts share no other
-- state, so each has its own record.
--
-- Conventions. The server, the clock, the browser's timers and superhot-ui are not in this code: a
-- reply, a time, an expired timer come in as arguments or events, and requests and calls go out as
-- lists. In Net the n-th reply of a list answers the n-th request, which stands for every behaviour
-- of the service. A timer is a number that is given out once. Times are natural numbers,
-- microseconds in Gantt, seconds in Plan and milliseconds elsewhere, so that a difference is
-- written by a sum on the other side; the fractions of the chart's buckets are compared after
-- multiplication by the number of buckets. Outside of JSON values `undefined` and `null` are
-- `none`. A text is a list of code points. Loops are structural recursion on the list that they run
-- through; only the digits of a number are printed with fuel, one round for each unit of the
-- number, and Text/Digits shows that the digits spell the number; the clicks of a reader of
-- Pages/Results are counted by a bound, and Pages/Results/Complete shows which bound is enough. The
-- decimals of an interval and of a setting are exact, where the source has the nearest double, and an
-- unreadable number and a negative one are one case where each use refuses both.
--
-- Not modelled: the rendering (JSX), components/eval/RunRow/index.jsx (a copy of RunRow.jsx that the
-- import does not reach), the other handlers in the pages, the other helpers of the Plan
-- page, the native dialog element, the parsed suggestions of stores/eval.js, the styles,
-- the legacy store.js that no module imports, the Python service, its tests and the build files.
pub mod Prelude
pub mod Text
pub mod Gantt
pub mod Queue
pub mod Poll
pub mod Toasts
pub mod Atmosphere
pub mod Net
pub mod Health
pub mod Schedule
pub mod Jobs
pub mod Feedback
pub mod Eval
pub mod Hosts
pub mod Plan
pub mod Forms
pub mod Pulls
pub mod Durations
pub mod Views
pub mod Pages
