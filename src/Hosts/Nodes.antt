-- ===== src/Hosts/Nodes.antt =====
-- components/TopologyDiagram.jsx: nodeState, but for the labels of the nodes. Opacities are percent.
use ollama_queue.Prelude.{
  ℕ, ◌≡◌, sym, subst, ◌↔◌, Bool, true, false, not, Option, none, some, ltb, if◌then◌else◌, arith,
  String,
}
use ollama_queue.Hosts.{
  Model, Backend, HostState, offline, running, ActiveEval, derive_host_state, model_of, is_serving,
  Burst, storm, burst, calm, Topology, is_daemon_job, is_proxy, Colour, phosphor, amber, threat,
  find_local_backend, find_remote_backend,
}
use ollama_queue.Hosts.Serving.{serves-matches}

-- What `nodeState` reads beside the inputs of the edges.
pub record Diagram : Type 0 where
  pub topology : Topology
  pub is_offline : Bool  -- `(state ?? 'offline') === 'offline'`
  pub has_eval : Bool  -- `!!activeEval`
  pub queue_depth : ℕ

pub data Node : Type 0 where
  daemon dlq eval proxy queue gtx1650 rtx5080 recurring cli intercept : Node
  other : String → Node

-- `stroke`: a colour of a state, the colour of faint text, or that of a border.
pub data Stroke : Type 0 where
  lit : Colour → Stroke
  faint border : Stroke

pub record NodeLook : Type 0 where
  pub stroke : Stroke
  pub filter : Option Colour
  pub opacity : ℕ
  pub pulse : Bool

abbrev pub plain : Stroke → ℕ → NodeLook
plain s o = record { stroke = s; filter = none; opacity = o; pulse = false }

abbrev pub glow : Colour → NodeLook
glow c = record { stroke = lit c; filter = some c; opacity = 100; pulse = false }

abbrev pub threatened : NodeLook
threatened = record { stroke = lit threat; filter = some threat; opacity = 100; pulse = true }

abbrev pub healthy_of : Option Backend → Bool
healthy_of none = false
healthy_of (some b) = b.healthy

unfoldable pub gpu_look : Option Backend → Option Model → NodeLook
gpu_look b model =
    if not (healthy_of b)
    then threatened
    else if is_serving b model
    then glow phosphor
    else plain border 80

burst_node : Burst → NodeLook
burst_node storm = record { stroke = lit threat; filter = none; opacity = 100; pulse = true }
burst_node burst = plain (lit amber) 100
burst_node calm = plain border 70

unfoldable pub node_state : Node → Diagram → NodeLook
unfolding gpu_look burst_node
node_state daemon d =
    if d.topology.paused
    then plain faint 35
    else if d.is_offline
    then threatened
    else if is_daemon_job d.topology.current_job_id
    then glow phosphor
    else plain border 70
node_state dlq d = if ltb 0 d.topology.dlq_count then glow amber else plain border 60
node_state eval d = if d.has_eval then glow phosphor else plain border 60
node_state proxy d = if is_proxy d.topology.current_job_id then glow amber else plain border 60
node_state queue d = if ltb 0 d.queue_depth then plain (lit amber) 100 else plain border 70
node_state gtx1650 d = gpu_look (find_local_backend d.topology.backends) d.topology.current_model
node_state rtx5080 d = gpu_look (find_remote_backend d.topology.backends) d.topology.current_model
node_state recurring d = burst_node d.topology.burst_regime
node_state cli d = burst_node d.topology.burst_regime
node_state intercept d = burst_node d.topology.burst_regime
node_state (other s) d = plain border 70

abbrev pub AgreesWith : HostState → NodeLook → Type 0
AgreesWith card node =
    ((node ≡ threatened) ↔ (card ≡ offline)) × ((node ≡ glow phosphor) ↔ (card ≡ running))

gpu_look-card :
    (b : Backend) (job : Option (Option Model)) (e : Option ActiveEval)
    → AgreesWith (derive_host_state b job e) (gpu_look (some b) (model_of job))
unfolding gpu_look derive_host_state is_serving
gpu_look-card b job e = (
  ground (arith, serves-matches b (model_of job)),
  ground (arith, serves-matches b (model_of job)),
)

-- The node of the local GPU is under threat exactly if the card of its backend says that it is
-- offline, and glows exactly if the card says that it runs the current job, which both are given.
pub node_state-card :
    (d : Diagram) (b : Backend) (job : Option (Option Model)) (e : Option ActiveEval)
    → find_local_backend d.topology.backends ≡ some b
    → model_of job ≡ d.topology.current_model
    → AgreesWith (derive_host_state b job e) (node_state gtx1650 d)
unfolding node_state
node_state-card d b job e found same =
    subst (λ o. AgreesWith (derive_host_state b job e) (gpu_look o d.topology.current_model))
      (sym found)
      (subst (λ m. AgreesWith (derive_host_state b job e) (gpu_look (some b) m)) same
        (gpu_look-card b job e))
