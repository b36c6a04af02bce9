-- ===== src/Utils/Pods/ContainerIds.antt =====
-- What `PrintContainerIDs` returns, by the IDs that the container runtime reports.
use live_migration_operator.Base.{
  String, ◌<>◌, List, [], ◌∷◌, ◌++◌, ◌≡◌, ap, ◌∙◌, Option, none, some, split, split-append,
  split_whole, Lacks, append-nil, append_assoc,
}
use live_migration_operator.Go.{ok, done, run}
use live_migration_operator.Kube.{Error, Call, list_pods, Cluster}
use live_migration_operator.Kube.Objects.{Pod, ContainerStatus}
use live_migration_operator.Utils.Pods.{
  Container, status_loop, pod_loop, containers_of, print_container_ids,
}

-- The status reports the container, as `<scheme>//<id>` with no other slash.
abbrev pub Reports : ContainerStatus → Container → Type 0
Reports status container =
    (scheme : String) × Lacks b'/' scheme
    × Lacks b'/' container.id
    × (status.container_id ≡ scheme <> ("//" <> container.id))
    × (status.name ≡ container.name)

abbrev pub StatusesReport : List ContainerStatus → List Container → Type 0
StatusesReport [] [] = Unit
StatusesReport (s ∷ statuses) (c ∷ containers) = Reports s c × StatusesReport statuses containers
StatusesReport _ _ = ⊥

-- For each pod, the containers that its statuses report.
abbrev pub PodsReport : List Pod → List (List Container) → Type 0
PodsReport [] [] = Unit
PodsReport (pod ∷ pods) (containers ∷ found) =
    StatusesReport pod.status.container_statuses containers × PodsReport pods found
PodsReport _ _ = ⊥

abbrev pub together : List (List Container) → List Container
together [] = []
together (containers ∷ found) = containers ++ together found

split_id :
    (status : ContainerStatus) (container : Container) (report : Reports status container)
    → split status.container_id "//" ≡ report.0 ∷ container.id ∷ []
split_id status container (scheme, no_slash, whole, e, _) = rw e (
    split-append "/" "/" scheme container.id no_slash
    ∙ ap (λ l. scheme ∷ l) (split_whole "/" "/" container.id whole))

status_loop_reported :
    (statuses : List ContainerStatus) (containers found : List Container)
    → StatusesReport statuses found
    → status_loop statuses containers ≡ ok (containers ++ found)
unfolding status_loop
status_loop_reported [] containers [] h = rw append-nil
status_loop_reported [] containers (_ ∷ _) h = absurd h
status_loop_reported (_ ∷ _) containers [] h = absurd h
status_loop_reported (s ∷ statuses) containers (c ∷ found) (report, h) =
    rw (split_id s c report, status_loop, report.4)
      (status_loop_reported statuses (containers ++ c ∷ []) found h
        ∙ rw (append_assoc containers (c ∷ []) found))

pod_loop_reported :
    (pods : List Pod) (containers : List Container) (found : List (List Container))
    → PodsReport pods found
    → pod_loop pods containers ≡ ok (containers ++ together found)
unfolding pod_loop
pod_loop_reported [] containers [] h = rw append-nil
pod_loop_reported [] containers (_ ∷ _) h = absurd h
pod_loop_reported (_ ∷ _) containers [] h = absurd h
pod_loop_reported (pod ∷ pods) containers (first ∷ found) (h, hs) =
    rw (status_loop_reported pod.status.container_statuses containers first h, pod_loop)
      (pod_loop_reported pods (containers ++ first) found hs
        ∙ rw (append_assoc containers first (together found)))

listed_containers :
    (reply : List Pod × Option Error) (found : List (List Container))
    → reply.1 ≡ none
    → PodsReport reply.0 found
    → containers_of reply ≡ ok (together found)
unfolding containers_of
listed_containers (pods, none) found h reported = pod_loop_reported pods [] found reported
listed_containers (pods, some e) found h reported = cc

-- If the pods are listed, and each status reports a container as `<scheme>//<id>` with no other
-- slash, the containers of all pods are returned with their IDs, in order.
pub print_container_ids_reported :
    (w : Cluster) (namespace : String) (found : List (List Container)) (tr : List Call)
    → (w tr (list_pods namespace)).1 ≡ none
    → PodsReport (w tr (list_pods namespace)).0 found
    → run w (print_container_ids namespace) tr
      ≡ (done (ok (together found)), tr ++ list_pods namespace ∷ [])
unfolding print_container_ids run
print_container_ids_reported w namespace found tr h reported =
    rw (listed_containers (w tr (list_pods namespace)) found h reported)
