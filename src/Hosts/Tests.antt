-- ===== src/Hosts/Tests.antt =====
-- A local host with the job's family of models loaded, and a remote one without.
use ollama_queue.Prelude.{◌≡◌, refl, ◌↔◌, true, false, none, some, [], ◌∷◌}
use ollama_queue.Hosts.{
  Model, Backend, running, derive_host_state, is_serving, model_of, Topology, daemon_job, calm,
  matches_backend, fits, is_named, same_tag, is_tagged,
}
use ollama_queue.Hosts.Nodes.{Diagram}
use ollama_queue.Hosts.Serving.{derive_host_state-is_serving}

abbrev qwen : Model
qwen = record { family = "qwen2.5"; tag = some "7b" }

abbrev here : Backend
here = record {
  url = "http://127.0.0.1:11434";
  hostname = some "127.0.0.1";
  healthy = true;
  loaded_models = record { family = "qwen2.5"; tag = some "latest" } ∷ [];
}

abbrev there : Backend
there = record {
  url = "http://gpu:11434";
  hostname = some "gpu";
  healthy = true;
  loaded_models = [];
}

card_runs : derive_host_state here (some (some qwen)) none ≡ running
unfolding derive_host_state matches_backend fits is_named same_tag is_tagged model_of
card_runs = refl

derive_host_state-is_serving_example :
    (derive_host_state here (some (some qwen)) none ≡ running)
    ↔ (is_serving (some here) (model_of (some (some qwen))) ≡ true)
derive_host_state-is_serving_example = derive_host_state-is_serving here (some (some qwen)) none

abbrev busy : Topology
busy = record {
  paused = false;
  current_job_id = daemon_job 7;
  burst_regime = calm;
  current_model = some qwen;
  backends = here ∷ there ∷ [];
  dlq_count = 0;
}

abbrev shown : Diagram
shown = record { topology = busy; is_offline = false; has_eval = false; queue_depth = 0 }
