-- ===== src/Checkpoint.antt =====
-- controllers/checkpoint.go and controllers/crio.go
pub mod Laws
use live_migration_operator.Base.{ℕ, String, ◌<>◌, List, [], ◌∷◌, Option, none, some, map}
use live_migration_operator.Go.{ret, ◌>>=◌, ◌>>◌}
use live_migration_operator.Kube.{Call, Error, exec, get_pod, delete_pod, Op, ask}
use live_migration_operator.Utils.Pods.{Container, wait_for_pod_deletion}

-- `TerminateCheckpointedPod`: every error is only logged. The fuel bounds the events of the watch.
unfoldable pub terminate_checkpointed_pod : ℕ → String → String → Op (Option Error)
terminate_checkpointed_pod fuel pod_name namespace = do
  ask (get_pod namespace pod_name)
  ask (delete_pod namespace pod_name)
  wait_for_pod_deletion fuel pod_name namespace
  ret none

-- The address of the kubelet's checkpoint API for a container.
abbrev pub checkpoint_url : String → String → String → String
checkpoint_url namespace pod_name container_name =
    "https://localhost:10250/checkpoint/"
    <> (namespace <> ("/" <> (pod_name <> ("/" <> container_name))))

abbrev pub checkpoint_call : String → String → String → Call
checkpoint_call namespace pod_name container_name =
    exec ("curl" ∷ "-sk" ∷ "-XPOST" ∷ checkpoint_url namespace pod_name container_name ∷ [])

-- `CheckpointPodCrio`: one container after another, errors only logged.
unfoldable pub checkpoint_pod_crio : List Container → String → String → Op (Option Error)
checkpoint_pod_crio [] namespace pod_name = ret none
checkpoint_pod_crio (container ∷ containers) namespace pod_name = do
  ask (checkpoint_call namespace pod_name container.name)
  checkpoint_pod_crio containers namespace pod_name

-- The goroutine of `CheckpointPodPipelined` for one container.
unfoldable pub checkpoint_worker : String → String → Container → Op Unit
checkpoint_worker namespace pod_name container = do
  ask (checkpoint_call namespace pod_name container.name)
  ret tt

-- The goroutines of `CheckpointPodPipelined`; after `Wait` it returns no error.
unfoldable pub checkpoint_workers : List Container → String → String → List (Op Unit)
unfolding checkpoint_worker
checkpoint_workers containers namespace pod_name =
    map (checkpoint_worker namespace pod_name) containers
