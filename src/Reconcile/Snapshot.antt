-- ===== src/Reconcile/Snapshot.antt =====
-- `RemoveCheckpointPod`, `updateAnnotations` and `NewKubernetesClient` of
-- controllers/livemigration.go
pub mod Laws
use live_migration_operator.Base.{
  ℕ, zero, suc, String, ◌<>◌, List, [], ◌∷◌, Option, none, some, ◌==◌, if◌then◌else◌,
}
use live_migration_operator.Go.{ret, poll, Result, ok, err, ◌>>=◌, ◌>>◌}
use live_migration_operator.Kube.{
  Error, exec, chmod, update_pod, in_cluster_config, new_clientset, Op, ask,
}
use live_migration_operator.Kube.Objects.{Dict, Pod}
use live_migration_operator.Kube.Maps.{put, keys_of}
use live_migration_operator.Utils.Pods.{check_pod_exist}

-- The pod that `updateAnnotations` sends; a nil map is made first.
unfoldable pub annotated : Pod → String → String → Pod
annotated pod policy path = record pod {
  meta = record pod.meta {
    annotations =
        some (put "snapshotPath" path (put "snapshotPolicy" policy (keys_of pod.meta.annotations)));
  };
}

unfoldable pub update_annotations : Pod → String → String → Op (Option Error)
unfolding annotated
update_annotations pod policy path = ask (update_pod (annotated pod policy path))

-- The loop that waits for the new pod, with no pause. The fuel bounds its rounds.
unfoldable pub await_pod : ℕ → String → String → Op Unit
await_pod zero new_pod_name namespace = poll
await_pod (suc fuel) new_pod_name namespace = do
  (pod, _) ← check_pod_exist new_pod_name namespace
  elim pod [ some _ ↦ ret tt | none ↦ await_pod fuel new_pod_name namespace ]

-- A command that removes a folder.
abbrev pub remove_command : String → List String
remove_command path = "sudo" ∷ "rm" ∷ "-rf" ∷ path ∷ []

-- What `RemoveCheckpointPod` does behind the wait.
unfoldable pub remove_snapshot : Pod → String → Op (Option Error)
unfolding update_annotations
remove_snapshot pod snapshot_path = do
  e ← update_annotations pod "" ""
  elim e [
    | some e ↦ ret (some e)
    | none ↦ do
      e ← ask (chmod snapshot_path 0o777)
      elim e [
        | some e ↦ ret (some e)
        | none ↦ do (_, e) ← ask (exec (remove_command snapshot_path)); ret e
      ]
  ]

unfoldable pub remove_checkpoint_pod : ℕ → Pod → String → String → String → Op (Option Error)
unfolding await_pod remove_snapshot
remove_checkpoint_pod fuel pod snapshot_path new_pod_name namespace =
    if new_pod_name == ""
    then remove_snapshot pod snapshot_path
    else (do await_pod fuel new_pod_name namespace; remove_snapshot pod snapshot_path)

unfoldable pub new_kubernetes_client : Op (Result Unit)
new_kubernetes_client = do
  e ← ask in_cluster_config
  elim e [
    | some e ↦ ret (err ("failed to get in-cluster config: " <> e))
    | none ↦ do
      e ← ask new_clientset
      elim e [
        | some e ↦ ret (err ("failed to create kubernetes client: " <> e))
        | none ↦ ret (ok tt)
      ]
  ]
