-- ===== src/Examples/Pods.antt =====
-- The containers of the pod.
use live_migration_operator.Base.{List, [], ◌∷◌, ◌≡◌, refl}
use live_migration_operator.Go.{done, ok, run}
use live_migration_operator.Kube.{list_pods}
use live_migration_operator.Utils.Pods.{Container, print_container_ids}
use live_migration_operator.Utils.Pods.ContainerIds.{PodsReport, print_container_ids_reported}
use live_migration_operator.Base.{inl, inr}
use live_migration_operator.Kube.{Cluster, select_tick, ticked, timed_out}
use live_migration_operator.Utils.Pods.{wait_for_container_ready}
use live_migration_operator.Utils.Pods.Ready.{WaitEnds, wait_for_container_ready_ends}
use live_migration_operator.Base.{length, ◌++◌, All, ◌≢◌, none, some}
use mathlib.Core.List.{Perm}
use live_migration_operator.Kube.Objects.{Pod, zero_meta}
use live_migration_operator.Utils.Pods.{get_actual_running_pod}
use live_migration_operator.Utils.Pods.Running.{get_actual_running_pod_partition}
use live_migration_operator.Examples.World.{web_pod, calm}

abbrev containers : List Container
containers = record { id = "a1"; name = "web-app" } ∷ record { id = "b2"; name = "web-db" } ∷ []

reported : PodsReport (web_pod ∷ []) (containers ∷ [])
reported = (
  (
    ("cri-o:", (refl, (refl, (refl, (refl, (refl, (refl, tt)))))), (refl, (refl, tt)), refl, refl),
    (
      (
        "cri-o:",
        (refl, (refl, (refl, (refl, (refl, (refl, tt)))))),
        (refl, (refl, tt)),
        refl,
        refl,
      ),
      tt,
    ),
  ),
  tt,
)

print_container_ids_reported_example :
    run calm (print_container_ids "test") [] ≡ (done (ok containers), list_pods "test" ∷ [])
print_container_ids_reported_example =
    print_container_ids_reported calm "test" (containers ∷ []) [] refl reported

-- The first tick comes before the timeout.
abbrev late : Cluster
late [] (select_tick _ _) = ticked
late (_ ∷ _) (select_tick _ _) = timed_out
late tr c = calm tr c

wait_for_container_ready_ends_example :
    WaitEnds late "web" "test" "web-app"
      (run late (wait_for_container_ready 2 "web" "test" "web-app") [])
wait_for_container_ready_ends_example =
    wait_for_container_ready_ends late "web" "test" "web-app" 2 [] (inr (inl refl))

-- The pod, after its deletion was requested.
abbrev leaving : Pod
leaving = record web_pod { meta = record zero_meta { name = "old"; deletion_timestamp = some 7 } }

get_actual_running_pod_partition_example :
    let (count, running, gone) = get_actual_running_pod (web_pod ∷ leaving ∷ []) in
    (count ≡ length running)
    × Perm (web_pod ∷ leaving ∷ []) (running ++ gone)
    × All (λ (pod : Pod). pod.meta.deletion_timestamp ≡ none) running
    × All (λ (pod : Pod). pod.meta.deletion_timestamp ≢ none) gone
get_actual_running_pod_partition_example = get_actual_running_pod_partition (web_pod ∷ leaving ∷ [])
