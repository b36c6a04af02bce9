-- ===== src/Utils/Pods.antt =====
-- The functions of controllers/utils/utils.go on pods.
pub mod ContainerIds
pub mod Ready
pub mod Running
use live_migration_operator.Base.{
  ℕ, zero, suc, ◌+◌, String, ◌<>◌, Bool, true, false, ◌&&◌, List, [], ◌∷◌, ◌++◌, Option, none, some,
  ◌==◌, split, if◌then◌else◌,
}
use live_migration_operator.Go.{ret, panic, poll, Result, ok, err, ◌>>=◌}
use live_migration_operator.Kube.{
  Error, deleted, timed_out, ticked, get_pod, list_pods, watch_pods, next_event, select_tick, Op,
  ask,
}
use live_migration_operator.Kube.Objects.{Pod, PodTemplateSpec, ContainerStatus, zero_pod_spec}

-- `Container` of controllers/types/types.go
pub record Container : Type 0 where
  pub id : String
  pub name : String

-- `GetActualRunningPod`: the count and the pods that are not being deleted, and those that are.
running_loop : List Pod → ℕ → List Pod → List Pod → ℕ × List Pod × List Pod
running_loop [] count running deleting = (count, running, deleting)
running_loop (pod ∷ pods) count running deleting = elim pod.meta.deletion_timestamp [
  | some _ ↦ running_loop pods count running (deleting ++ pod ∷ [])
  | none ↦ running_loop pods (count + 1) (running ++ pod ∷ []) deleting
]

unfoldable pub get_actual_running_pod : List Pod → ℕ × List Pod × List Pod
unfolding running_loop
get_actual_running_pod pods = running_loop pods 0 [] []

-- `CheckPodExist`: the pod, or `nil` and the error.
unfoldable pub check_pod_exist : String → String → Op (Option Pod × Option Error)
check_pod_exist name namespace = do
  (pod, e) ← ask (get_pod namespace name)
  elim e [ some e ↦ ret (none, some e) | none ↦ ret (some pod, none) ]

-- The template of `GetSourcePodTemplate`: the pod's metadata, containers and volumes.
abbrev pub template_of : Pod → PodTemplateSpec
template_of pod = record {
  meta = pod.meta;
  spec = record zero_pod_spec { containers = pod.spec.containers; volumes = pod.spec.volumes };
}

unfoldable pub get_source_pod_template :
    String → String → Op (Option PodTemplateSpec × Option Error)
unfolding check_pod_exist
get_source_pod_template source_pod namespace = do
  (retrieved, e) ← check_pod_exist source_pod namespace
  elim retrieved [ none ↦ ret (none, e) | some pod ↦ ret (some (template_of pod), none) ]

-- The inner loop of `PrintContainerIDs`: what follows `//` in each ID.
status_loop : List ContainerStatus → List Container → Result (List Container)
status_loop [] containers = ok containers
status_loop (status ∷ statuses) containers = elim (split status.container_id "//") [
  | scheme ∷ id ∷ _ ↦
      status_loop statuses (containers ++ record { id = id; name = status.name } ∷ [])
  | _ ↦ err ("invalid container ID format: " <> status.container_id)
]

pod_loop : List Pod → List Container → Result (List Container)
unfolding status_loop
pod_loop [] containers = ok containers
pod_loop (pod ∷ pods) containers = elim (status_loop pod.status.container_statuses containers) [
  | ok more ↦ pod_loop pods more
  | err e ↦ err e
]

-- The result of `PrintContainerIDs` by what listing the pods returned.
unfoldable pub containers_of : List Pod × Option Error → Result (List Container)
unfolding pod_loop
containers_of (pods, some e) = err ("failed to list pods: " <> e)
containers_of (pods, none) = pod_loop pods []

unfoldable pub print_container_ids : String → Op (Result (List Container))
print_container_ids namespace = do listed ← ask (list_pods namespace); ret (containers_of listed)

-- The loop of `checkContainerReady`.
is_ready : String → List ContainerStatus → Bool
is_ready name [] = false
is_ready name (status ∷ statuses) =
    if status.name == name && status.ready then true else is_ready name statuses

unfoldable pub check_container_ready : String → String → String → Op (Option Error)
unfolding is_ready
check_container_ready pod_name namespace container_name = do
  (pod, e) ← ask (get_pod namespace pod_name)
  elim e [
    | some e ↦ ret (some e)
    | none ↦ ret (
        if is_ready container_name pod.status.container_statuses
        then none
        else some ("container " <> container_name <> " in pod " <> pod_name <> " is not ready yet"))
  ]

-- `WaitForContainerReady`: a check at each tick of 20 s until the timeout of 300 s. The fuel bounds
-- the ticks.
unfoldable pub wait_for_container_ready : ℕ → String → String → String → Op (Option Error)
unfolding check_container_ready
wait_for_container_ready zero pod_name namespace container_name = poll
wait_for_container_ready (suc fuel) pod_name namespace container_name = do
  tick ← ask (select_tick 300 20)
  elim tick [
    | timed_out ↦ ret (
        some (
          "timed out waiting for container " <> container_name <> " in pod " <> pod_name
          <> " to become ready"))
    | ticked ↦ do
      e ← check_container_ready pod_name namespace container_name
      elim e [
        | none ↦ ret none
        | some _ ↦ wait_for_container_ready fuel pod_name namespace container_name
      ]
  ]

-- The loop of `WaitForPodDeletion` over the events of the watch. The fuel bounds the events.
unfoldable pub deletion_loop : ℕ → String → Op (Option Error)
deletion_loop zero pod_name = poll
deletion_loop (suc fuel) pod_name = do
  event ← ask next_event
  elim event [
    | none ↦ ret (some ("pod " <> pod_name <> " not found or already deleted"))
    | some deleted ↦ ret none
    | some _ ↦ deletion_loop fuel pod_name
  ]

-- `WaitForPodDeletion`. On an error of the watch `w` is nil, and `defer w.Stop()` panics.
unfoldable pub wait_for_pod_deletion : ℕ → String → String → Op (Option Error)
unfolding deletion_loop
wait_for_pod_deletion fuel pod_name namespace = do
  e ← ask (watch_pods namespace ("metadata.name=" <> pod_name))
  elim e [ some _ ↦ panic | none ↦ deletion_loop fuel pod_name ]
