-- ===== src/Utils/Services.antt =====
-- The functions of controllers/utils/utils.go on the service in front of the receiving pod, and
-- `PushDockerImage`.
use live_migration_operator.Base.{
  ℕ, zero, suc, String, ◌<>◌, List, [], ◌∷◌, none, some, contains, decimal, if◌then◌else◌,
}
use live_migration_operator.Go.{ret, panic, poll, ◌>>=◌, ◌>>◌}
use live_migration_operator.Kube.{get_service, exec, sleep, Op, ask}
use live_migration_operator.Kube.Objects.{ServicePort}

abbrev pub dummy_service : String
dummy_service = "dummy-service"

-- The IP and the first port. With no port, `Ports[0]` panics.
abbrev pub address : String → List ServicePort → Op (String × ℕ)
address ip [] = panic
address ip (p ∷ _) = ret (ip, p.port)

-- `GetDummyServiceIPAndPort` only logs an error, and reads the service that came with it.
unfoldable pub get_dummy_service_ip_and_port : String → Op (String × ℕ)
get_dummy_service_ip_and_port namespace = do
  (service, e) ← ask (get_service namespace dummy_service)
  address service.cluster_ip service.ports

abbrev pub url : String → ℕ → String → String
url ip port path = "http://" <> (ip <> (":" <> (decimal port <> path)))

-- The body of the loop of `WaitForServiceReady`; `again` is the rest of the loop.
unfoldable pub service_round : String → String → Op Unit → Op Unit
unfolding get_dummy_service_ip_and_port
service_round service_name namespace again = do
  (_, e) ← ask (get_service namespace service_name)
  elim e [
    | some _ ↦ again
    | none ↦ do
      (ip, port) ← get_dummy_service_ip_and_port namespace
      (output, _) ← ask (exec ("curl" ∷ url ip port "/" ∷ []))
      if contains "not found" output then ret tt else again
  ]

-- `WaitForServiceReady`: until the receiving pod answers `not found`. The fuel bounds the rounds.
unfoldable pub wait_for_service_ready : ℕ → String → String → Op Unit
unfolding service_round
wait_for_service_ready zero service_name namespace = poll
wait_for_service_ready (suc fuel) service_name namespace =
    service_round service_name namespace
      (do ask (sleep 5); wait_for_service_ready fuel service_name namespace)

-- `PushDockerImage`
unfoldable pub push_docker_image : String → String → String → Op Unit
push_docker_image local_checkpoint_path container_name pod_name = do
  ask (
      exec (
        "sudo"
        ∷ "buildah"
        ∷ "push"
        ∷ "--tls-verify=false"
        ∷ local_checkpoint_path
        ∷ ("172.16.3.75:5000/checkpoint-images:" <> container_name)
        ∷ []))
  ret tt
