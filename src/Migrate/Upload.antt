-- ===== src/Migrate/Upload.antt =====
-- The functions of controllers/migrate.go that send files to the receiving pod.
use live_migration_operator.Base.{
  ℕ, String, ◌<>◌, List, [], ◌∷◌, Option, none, some, map, ◌==◌, if◌then◌else◌, join_path,
}
use live_migration_operator.Go.{ret, ◌>>=◌, ◌>>◌}
use live_migration_operator.Kube.{Call, Error, exec, read_dir, entry_info, Op, ask}
use live_migration_operator.Utils.Services.{
  dummy_service, url, get_dummy_service_ip_and_port, wait_for_service_ready,
}

abbrev pub chmod_call : String → Call
chmod_call path = exec ("sudo" ∷ "chmod" ∷ "+rwx" ∷ path ∷ [])

abbrev pub post_call : String → ℕ → String → Call
post_call ip port path =
    exec ("curl" ∷ "-X" ∷ "POST" ∷ "-F" ∷ ("file=@" <> path) ∷ url ip port "/upload" ∷ [])

-- The loop of `MigrateCheckpoint`; errors are only logged.
unfoldable pub upload_loop : String → ℕ → String → List String → Op (Option Error)
upload_loop ip port directory [] = ret none
upload_loop ip port directory (file ∷ files) = do
  ask (chmod_call (join_path directory file))
  ask (post_call ip port (join_path directory file))
  upload_loop ip port directory files

-- `MigrateCheckpoint`. The fuel bounds the rounds of the wait for the service.
unfoldable pub migrate_checkpoint : ℕ → String → String → Op (Option Error)
unfolding upload_loop
migrate_checkpoint fuel directory namespace = do
  (files, e) ← ask (read_dir directory)
  elim e [
    | some e ↦ ret (some e)
    | none ↦ do
      wait_for_service_ready fuel dummy_service namespace
      (ip, port) ← get_dummy_service_ip_and_port namespace
      upload_loop ip port directory files
  ]

-- The loop of `MigrateDummyFile`: files of another name are passed over.
unfoldable pub dummy_loop : String → ℕ → String → List String → Op (Option Error)
dummy_loop ip port directory [] = ret none
dummy_loop ip port directory (file ∷ files) =
    if file == "dummy"
    then (do
      ask (chmod_call (join_path directory file))
      ask (post_call ip port (join_path directory file))
      dummy_loop ip port directory files)
    else dummy_loop ip port directory files

-- `MigrateDummyFile`
unfoldable pub migrate_dummy_file : ℕ → String → String → Op (Option Error)
unfolding dummy_loop
migrate_dummy_file fuel directory namespace = do
  (files, e) ← ask (read_dir directory)
  elim e [
    | some e ↦ ret (some e)
    | none ↦ do
      wait_for_service_ready fuel dummy_service namespace
      (ip, port) ← get_dummy_service_ip_and_port namespace
      dummy_loop ip port directory files
  ]

-- The goroutine of `MigrateCheckpointParallelized` for one entry.
unfoldable pub upload_worker : String → ℕ → String → String → Op Unit
upload_worker ip port dir entry = do
  (name, e) ← ask (entry_info entry)
  elim e [ some _ ↦ ret tt | none ↦ do ask (post_call ip port (join_path dir name)); ret tt ]

abbrev pub dummy_path : String
dummy_path = "/tmp/checkpoints/checkpoints/dummy"

abbrev pub touch_call : Call
touch_call = exec ("sudo" ∷ "touch" ∷ dummy_path ∷ [])

-- `MigrateCheckpointParallelized` behind its `Wait`.
unfoldable pub announce : String → ℕ → Op (Option Error)
announce ip port = do ask touch_call; ask (post_call ip port dummy_path); ret none

-- `MigrateCheckpointParallelized`: its goroutines, and what follows them.
unfoldable pub migrate_checkpoint_parallelized :
    List String → String → String → Op (List (Op Unit) × Op (Option Error))
unfolding upload_worker announce
migrate_checkpoint_parallelized files dir namespace = do
  (ip, port) ← get_dummy_service_ip_and_port namespace
  ret (map (upload_worker ip port dir) files, announce ip port)
