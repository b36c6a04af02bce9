-- ===== src/Restore/Sequential.antt =====
-- `BuildahRestore` of controllers/restore.go
use live_migration_operator.Base.{
  String, List, [], ◌∷◌, ◌++◌, Option, none, some, ◌==◌, join_path, trim_newlines, if◌then◌else◌,
}
use live_migration_operator.Go.{ret, panic, Result, ok, err, ◌>>=◌, ◌>>◌}
use live_migration_operator.Kube.{Error, chmod, read_dir, create_pod, Op, ask}
use live_migration_operator.Kube.Objects.{Container, Pod}
use live_migration_operator.Utils.PodName.{find_submatch}
use live_migration_operator.Utils.ContainerName.{retrieve_container_name}
use live_migration_operator.Restore.{
  lift, from_scratch, add_call, config_call, commit_call, rm_call, restored_container, restored_pod,
}

-- `return nil, err` on an error, and the rest of the loop without one.
abbrev pub or_return : {A : Type 0} → Option Error → Op (Result A) → Op (Result A)
or_return none rest = rest
or_return (some e) rest = ret (err e)

-- One archive: its pod's name and its container. The submatch is read only after the commit; with
-- no match, `match[1]` panics.
unfoldable pub restore_file : String → Op (Result (String × Container))
restore_file checkpoint_path = do
  e ← ask (chmod checkpoint_path 0o777)
  or_return e do
    (output, e) ← ask from_scratch
    or_return e do
      let new_container = trim_newlines output
      (_, e) ← ask (add_call new_container checkpoint_path)
      or_return e do
        container_name ← lift (retrieve_container_name checkpoint_path)
        (_, e) ← ask (config_call new_container container_name)
        or_return e do
          ask (commit_call new_container container_name)
          pod_name ← elim (find_submatch checkpoint_path) [ none ↦ panic | some name ↦ ret name ]
          ask (rm_call new_container)
          ret (ok (pod_name, restored_container container_name))

-- The loop over the files, up to the file `dummy`.
unfoldable pub restore_loop :
    String → List String → String → List Container → Op (Result (String × List Container))
unfolding restore_file
restore_loop path [] pod_name containers = ret (ok (pod_name, containers))
restore_loop path (file ∷ files) pod_name containers =
    let rest = (do
      r ← restore_file (join_path path file)
      elim r [
        | err e ↦ ret (err e)
        | ok (name, container) ↦ restore_loop path files name (containers ++ container ∷ [])
      ]) in
    if file == "dummy" then ret (ok (pod_name, containers)) else rest

-- An error of the creation is only logged.
unfoldable pub buildah_restore : String → String → Op (Result Pod)
unfolding restore_loop
buildah_restore path namespace = do
  (files, _) ← ask (read_dir path)
  r ← restore_loop path files "" []
  elim r [
    | err e ↦ ret (err e)
    | ok (pod_name, containers) ↦ do
      (pod, _) ← ask (create_pod namespace (restored_pod pod_name namespace containers))
      ret (ok pod)
  ]
