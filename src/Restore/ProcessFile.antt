-- ===== src/Restore/ProcessFile.antt =====
-- `processFile` of controllers/livemigration.go
use live_migration_operator.Base.{
  ℕ, ◌+◌, String, List, [], ◌∷◌, Option, none, some, ◌==◌, ltb, join_path, trim_newlines,
  if◌then◌else◌,
}
use live_migration_operator.Go.{ret, block, Result, ok, err, ◌>>=◌, ◌>>◌}
use live_migration_operator.Kube.{Error, chmod, Op, ask}
use live_migration_operator.Kube.Objects.{Container}
use live_migration_operator.Utils.PodName.{retrieve_pod_name}
use live_migration_operator.Utils.ContainerName.{retrieve_container_name}
use live_migration_operator.Restore.{
  lift, from_scratch, add_call, config_call, commit_call, rm_call, restored_container,
}

-- A send on `results`, a channel with room for two messages that nobody receives from.
abbrev pub send : {A : Type 0} → ℕ → (ℕ → Op A) → Op A
send sent rest = if ltb sent 2 then rest (sent + 1) else block

-- A message only in case of an error.
abbrev pub send_error : {A : Type 0} → Option Error → ℕ → (ℕ → Op A) → Op A
send_error none sent rest = rest sent
send_error (some _) sent rest = send sent rest

-- The buildah commands for one archive; an error of the last one is not sent.
unfoldable pub build_image : String → String → Op Unit
build_image checkpoint_path container_name = do
  (output, e) ← ask from_scratch
  let new_container = trim_newlines output
  send_error e 0 λ sent. do
    (_, e) ← ask (add_call new_container checkpoint_path)
    send_error e sent λ sent. do
      (_, e) ← ask (config_call new_container container_name)
      send_error e sent λ sent. do
        (_, e) ← ask (commit_call new_container container_name)
        send_error e sent λ sent. do ask (rm_call new_container); send sent λ _. ret tt

unfoldable pub process_file : String → String → Op (Result (List Container × String))
process_file file path = if file == "dummy" then ret (ok ([], "dummy")) else do
  let checkpoint_path = join_path path file
  container_name ← lift (retrieve_container_name checkpoint_path)
  let pod_name = retrieve_pod_name checkpoint_path
  e ← ask (chmod checkpoint_path 0o644)
  elim e [
    | some e ↦ ret (err e)
    | none ↦ do
      build_image checkpoint_path container_name
      ret (ok (restored_container container_name ∷ [], pod_name))
  ]
