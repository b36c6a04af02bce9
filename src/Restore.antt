-- ===== src/Restore.antt =====
-- controllers/restore.go and `processFile` of controllers/livemigration.go
pub mod ProcessFile
pub mod Sequential
pub mod Pipelined
pub mod Parallel
pub mod Laws
pub mod InOrder
use live_migration_operator.Base.{String, ◌<>◌, List, [], ◌∷◌, true, some}
use live_migration_operator.Go.{Outcome, done, panicked, blocked, polling, ret, panic, block, poll}
use live_migration_operator.Kube.{Call, exec, Op}
use live_migration_operator.Kube.Objects.{
  Container, Pod, zero_meta, zero_pod_spec, zero_status, plain_container,
}

-- A pure function that may panic.
abbrev pub lift : {A : Type 0} → Outcome A → Op A
lift (done a) = ret a
lift panicked = panic
lift blocked = block
lift polling = poll

-- The commands of buildah.
abbrev pub from_scratch : Call
from_scratch = exec ("sudo" ∷ "buildah" ∷ "from" ∷ "scratch" ∷ [])

abbrev pub add_call : String → String → Call
add_call container path = exec ("sudo" ∷ "buildah" ∷ "add" ∷ container ∷ path ∷ "/" ∷ [])

abbrev pub config_call : String → String → Call
config_call container name = exec (
    "sudo"
    ∷ "buildah"
    ∷ "config"
    ∷ ("--annotation=io.kubernetes.cri-o.annotations.checkpoint.name=" <> name)
    ∷ container
    ∷ [])

abbrev pub commit_call : String → String → Call
commit_call container name = exec (
    "sudo"
    ∷ "buildah"
    ∷ "commit"
    ∷ container
    ∷ ("leonardopoggiani/checkpoint-images:" <> name)
    ∷ [])

abbrev pub rm_call : String → Call
rm_call container = exec ("sudo" ∷ "buildah" ∷ "rm" ∷ container ∷ [])

-- The container whose image was committed.
abbrev pub restored_container : String → Container
restored_container name =
    plain_container name ("localhost/leonardopoggiani/checkpoint-images:" <> name)

-- The pod that is created from the containers.
abbrev pub restored_pod : String → String → List Container → Pod
restored_pod name namespace containers = record {
  meta = record zero_meta {
    name = name;
    namespace = namespace;
    labels = some (("app", "test") ∷ []);
  };
  spec = record zero_pod_spec { containers = containers; share_process_namespace = some true };
  status = zero_status;
}
