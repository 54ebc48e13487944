-- ===== src/Hosts/Serving.antt =====
-- Which host serves the current job: the card and the diagram compute it apart.
use ollama_queue.Prelude.{◌≡◌, ◌↔◌, ◌⊎◌, true, false, ◌&&◌, Option, none, some, arith}
use ollama_queue.Hosts.{
  Model, Backend, matches_backend, running, ActiveEval, model_of, derive_host_state, serves,
  is_serving, Topology, phosphor, active, e9, e10, is_daemon_job, gpu_edge, edge_state,
}

pub serves-matches :
    (b : Backend) (m : Option Model) → serves b m ≡ (b.healthy && matches_backend b m)
unfolding serves matches_backend
serves-matches b none = ground arith
serves-matches b (some m) = ground arith

-- A host card says that its host runs the job exactly if the diagram says that the host serves it,
-- whatever evaluation is active.
pub derive_host_state-is_serving :
    (b : Backend) (job : Option (Option Model)) (active_eval : Option ActiveEval)
    → (derive_host_state b job active_eval ≡ running) ↔ (is_serving (some b) (model_of job) ≡ true)
unfolding derive_host_state is_serving
derive_host_state-is_serving b job active_eval = ground (arith, serves-matches b (model_of job))

-- The edge to this GPU or the one to that GPU is lit while a job of the daemon runs.
gpu_edge-lit :
    (this that : Option Backend) (t : Topology)
    → is_daemon_job t.current_job_id ≡ true
    → t.paused ≡ false
    → (gpu_edge this that t ≡ active phosphor 350) ⊎ (gpu_edge that this t ≡ active phosphor 350)
unfolding gpu_edge
gpu_edge-lit this that t j p = ground arith

-- While a job of the daemon runs and the daemon is not paused, the edge to the local or the one to
-- the remote GPU is lit, even if neither is known to have the model.
pub edge_state-lit :
    (t : Topology)
    → is_daemon_job t.current_job_id ≡ true
    → t.paused ≡ false
    → (edge_state e9 t ≡ active phosphor 350) ⊎ (edge_state e10 t ≡ active phosphor 350)
unfolding edge_state
edge_state-lit t j p = gpu_edge-lit _ _ t j p
