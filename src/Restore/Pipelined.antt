-- ===== src/Restore/Pipelined.antt =====
-- `BuildahRestorePipelined` of controllers/restore.go
use live_migration_operator.Base.{String, List, [], ◌∷◌, none, some, ◌==◌, if◌then◌else◌}
use live_migration_operator.Go.{ret, panic, Result, ok, err, ◌>>=◌}
use live_migration_operator.Kube.{read_dir, create_pod, Op, ask}
use live_migration_operator.Kube.Objects.{Container, Pod}
use live_migration_operator.Utils.PodName.{retrieve_pod_name}
use live_migration_operator.Restore.{restored_pod}
use live_migration_operator.Restore.ProcessFile.{process_file}

-- The loop over the files. Its `containers` is a variable of the `if` and hides the one that the
-- pod is made from, so the list of containers is handed on as it is.
unfoldable pub process_loop : String → List String → List Container → Op (Result (List Container))
process_loop path [] containers = ret (ok containers)
process_loop path (file ∷ files) containers = do
  r ← process_file file path
  elim r [ err e ↦ ret (err e) | ok _ ↦ process_loop path files containers ]

-- The creation of the pod, with the containers that the loop leaves.
unfoldable pub create_restored : String → String → Result (List Container) → Op (Result Pod)
create_restored pod_name namespace (err e) = ret (err e)
create_restored pod_name namespace (ok containers) = do
  let pod = restored_pod pod_name namespace containers
  (_, e) ← ask (create_pod namespace pod)
  elim e [ some e ↦ ret (err e) | none ↦ ret (ok pod) ]

-- The files that were read; with none, `files[0]` panics.
unfoldable pub restore_files : String → String → List String → Op (Result Pod)
unfolding process_loop create_restored
restore_files path namespace [] = panic
restore_files path namespace (first ∷ others) =
    let pod_name = retrieve_pod_name first in
    if pod_name == ""
    then ret (err "failed to retrieve pod name")
    else process_loop path (first ∷ others) [] >>= create_restored pod_name namespace

unfoldable pub buildah_restore_pipelined : String → String → Op (Result Pod)
unfolding restore_files
buildah_restore_pipelined path namespace = do
  (files, _) ← ask (read_dir path)
  restore_files path namespace files
