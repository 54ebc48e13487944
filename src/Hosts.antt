-- ===== src/Hosts.antt =====
-- components/HostCard.jsx (deriveHostState, matchesBackend, computeAllUnhealthy) and
-- components/TopologyDiagram.jsx (edgeState and the tests that it shares with nodeState). Numbers of
-- percent and the texts of a card are left out.
pub mod Serving
pub mod Nodes
mod Tests
use ollama_queue.Prelude.{
  ℕ, zero, suc, String, Bool, true, false, not, ◌&&◌, ◌||◌, Option, none, some, List, [], ◌∷◌, ltb,
  if◌then◌else◌, any, all, find, length, str_eq,
}

-- The name of a model, cut at its first colon: `split(':')[0]`, and what follows it if there is one.
pub record Model : Type 0 where
  pub family : String
  pub tag : Option String

pub record Backend : Type 0 where
  pub url : String
  pub hostname : Option String  -- `new URL(url).hostname`, `none` where that throws
  pub healthy : Bool
  pub loaded_models : List Model  -- `loaded_models || []`

unfoldable pub same_tag : Option String → Option String → Bool
same_tag none none = true
same_tag (some a) (some b) = str_eq a b
same_tag none (some b) = false
same_tag (some a) none = false

unfoldable pub is_tagged : Option String → Bool
is_tagged none = false
is_tagged (some t) = true

-- `m === model || m.startsWith(model.split(':')[0] + ':')`
unfoldable pub fits : Model → Model → Bool
unfolding same_tag is_tagged
fits model m =
    (str_eq m.family model.family && same_tag m.tag model.tag)
    || (str_eq m.family model.family && is_tagged m.tag)

-- `!!model`: the empty text has an empty family and no tag.
unfoldable pub is_named : Model → Bool
unfolding is_tagged
is_named m = not (str_eq m.family "") || is_tagged m.tag

unfoldable pub matches_backend : Backend → Option Model → Bool
unfolding fits is_named
matches_backend b none = false
matches_backend b (some model) = if is_named model then any (fits model) b.loaded_models else false

unfoldable pub compute_all_unhealthy : List Backend → Bool
compute_all_unhealthy bs = ltb 0 (length bs) && all (λ b. not b.healthy) bs

pub data HostState : Type 0 where
  offline running in_eval warm idle : HostState

-- The two backends of an active evaluation.
pub record ActiveEval : Type 0 where
  pub gen_backend_url : Option String
  pub judge_backend_url : Option String

unfoldable pub is_url : String → Option String → Bool
is_url u none = false
is_url u (some v) = str_eq v u

unfoldable pub evaluates_on : String → Option ActiveEval → Bool
unfolding is_url
evaluates_on u none = false
evaluates_on u (some e) = is_url u e.gen_backend_url || is_url u e.judge_backend_url

unfoldable pub model_of : Option (Option Model) → Option Model
model_of none = none
model_of (some m) = m

-- `state` of `deriveHostState`. A job is given by its model; without a job nothing matches.
unfoldable pub derive_host_state : Backend → Option (Option Model) → Option ActiveEval → HostState
unfolding matches_backend evaluates_on model_of
derive_host_state b current_job active_eval =
    if not b.healthy
    then offline
    else if matches_backend b (model_of current_job)
    then running
    else if evaluates_on b.url active_eval
    then in_eval
    else if ltb 0 (length b.loaded_models)
    then warm
    else idle

unfoldable pub is_local : String → Bool
is_local h = str_eq h "127.0.0.1" || str_eq h "localhost"

is_local_backend : Backend → Bool
is_local_backend b = elim b.hostname [ none ↦ false | some h ↦ is_local h ]

is_remote_backend : Backend → Bool
is_remote_backend b = elim b.hostname [ none ↦ false | some h ↦ not (is_local h) ]

unfoldable pub find_local_backend : List Backend → Option Backend
unfolding is_local_backend
find_local_backend bs = find is_local_backend bs

unfoldable pub find_remote_backend : List Backend → Option Backend
unfolding is_remote_backend
find_remote_backend bs = find is_remote_backend bs

-- `_isServing`
pub serves : Backend → Option Model → Bool
unfolding fits is_named
serves b none = false
serves b (some model) =
    if not b.healthy
    then false
    else if not (is_named model)
    then false
    else any (fits model) b.loaded_models

unfoldable pub is_serving : Option Backend → Option Model → Bool
unfolding serves
is_serving none m = false
is_serving (some b) m = serves b m

pub data Burst : Type 0 where
  storm burst calm : Burst  -- `calm`: any other regime

-- What `edgeState` reads of the daemon. `current_job_id` is a number, -1 for the proxy's.
pub data CurrentJob : Type 0 where
  no_job proxy_job : CurrentJob
  daemon_job : ℕ → CurrentJob

pub record Topology : Type 0 where
  pub paused : Bool  -- `state` starts with 'paused'
  pub current_job_id : CurrentJob
  pub burst_regime : Burst
  pub current_model : Option Model
  pub backends : List Backend
  pub dlq_count : ℕ

pub data Colour : Type 0 where
  phosphor amber threat : Colour

-- The look of an edge: marching dashes with the milliseconds of a round, dashes that stand, or dim.
pub data Look : Type 0 where
  active : Colour → ℕ → Look
  dashed dim : Look

pub data Edge : Type 0 where
  e3 e4 e6 e7 e8 e9 e10 e11 e12 e13 : Edge
  other : ℕ → Edge

-- `typeof id === 'number' && id > 0`
unfoldable pub is_daemon_job : CurrentJob → Bool
is_daemon_job no_job = false
is_daemon_job proxy_job = false
is_daemon_job (daemon_job zero) = false
is_daemon_job (daemon_job (suc n)) = true

unfoldable pub is_proxy : CurrentJob → Bool
is_proxy proxy_job = true
is_proxy no_job = false
is_proxy (daemon_job n) = false

is_up : Option Backend → Bool
is_up none = false
is_up (some b) = b.healthy

burst_look : Burst → Look
burst_look storm = active threat 400
burst_look burst = active amber 500
burst_look calm = dim

-- The edge to one of the two GPUs, which is the first backend here.
unfoldable pub gpu_edge : Option Backend → Option Backend → Topology → Look
unfolding is_up is_serving
gpu_edge this that t =
    let job = is_daemon_job t.current_job_id in
    let here = is_serving this t.current_model in
    let neither = job && not here && not (is_serving that t.current_model) in
    if job && not t.paused && (here || neither)
    then active phosphor 350
    else if is_proxy t.current_job_id && is_up this
    then active amber 450
    else dim

unfoldable pub edge_state : Edge → Topology → Look
unfolding gpu_edge burst_look
edge_state e6 t =
    if is_daemon_job t.current_job_id && not t.paused then active phosphor 350 else dim
edge_state e7 t =
    if is_daemon_job t.current_job_id && not t.paused then active phosphor 350 else dim
edge_state e9 t = gpu_edge (find_local_backend t.backends) (find_remote_backend t.backends) t
edge_state e10 t = gpu_edge (find_remote_backend t.backends) (find_local_backend t.backends) t
edge_state e8 t = if is_proxy t.current_job_id then active amber 450 else dim
edge_state e11 t = if t.paused then active threat 600 else dim
edge_state e12 t = if ltb 0 t.dlq_count then dashed else dim
edge_state e13 t = if ltb 0 t.dlq_count then dashed else dim
edge_state e3 t = burst_look t.burst_regime
edge_state e4 t = burst_look t.burst_regime
edge_state (other n) t = dim
