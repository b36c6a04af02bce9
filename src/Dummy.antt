-- ===== src/Dummy.antt =====
-- controllers/dummy/dummy.go: the pod that receives the files, and the service in front of it.
pub mod Laws
use live_migration_operator.Base.{ℕ, String, List, [], ◌∷◌, Option, none, some}
use live_migration_operator.Go.{ret, ◌>>=◌, ◌>>◌}
use live_migration_operator.Kube.{Error, get_pod, create_pod, get_service, create_service, Op, ask}
use live_migration_operator.Kube.Objects.{
  Container, Pod, Service, zero_meta, zero_pod_spec, zero_status,
}
use live_migration_operator.Utils.Pods.{wait_for_container_ready}

abbrev pub dummy_container : Container
dummy_container = record {
  name = "dummy-container";
  image = "docker.io/leonardopoggiani/file-handler:v1.0.1";
  image_pull_policy = "Always";
  ports = record { name = "http"; container_port = 8080 } ∷ [];
  volume_mounts = record { name = "checkpoint-files"; mount_path = "/mnt/data" } ∷ [];
  requests = ("cpu", "100m") ∷ ("memory", "128Mi") ∷ [];
  limits = ("cpu", "250m") ∷ ("memory", "256Mi") ∷ [];
}

abbrev pub dummy_pod : String → Pod
dummy_pod namespace = record {
  meta = record zero_meta {
    name = "dummy-pod";
    namespace = namespace;
    labels = some (("app", "dummy-pod") ∷ []);
  };
  spec = record zero_pod_spec {
    containers = dummy_container ∷ [];
    volumes = record { name = "checkpoint-files"; host_path = "/tmp/checkpoints/checkpoints" } ∷ [];
  };
  status = zero_status;
}

-- `CreateDummyPod`: an error of the wait is only logged. The fuel bounds the ticks of the wait.
unfoldable pub create_dummy_pod : ℕ → String → Op (Option Error)
create_dummy_pod fuel namespace = do
  (_, e) ← ask (get_pod namespace "dummy-pod")
  elim e [
    | none ↦ ret none
    | some _ ↦ do
      (_, e) ← ask (create_pod namespace (dummy_pod namespace))
      elim e [
        | some e ↦ ret (some e)
        | none ↦ do wait_for_container_ready fuel "dummy-pod" namespace "dummy-container"; ret none
      ]
  ]

abbrev pub dummy_service_object : String → Service
dummy_service_object namespace = record {
  meta = record zero_meta { name = "dummy-service"; namespace = namespace };
  cluster_ip = "";
  ports = record { name = "http"; port = 80; target_port = 8080 } ∷ [];
  selector = ("app", "dummy-pod") ∷ [];
}

-- `CreateDummyService`
unfoldable pub create_dummy_service : String → Op (Option Error)
create_dummy_service namespace = do
  (_, e) ← ask (get_service namespace "dummy-service")
  elim e [
    | none ↦ ret none
    | some _ ↦ ask (create_service namespace (dummy_service_object namespace))
  ]
