-- ===== src/Examples/Restore.antt =====
-- Restores of the archive.
use live_migration_operator.Base.{
  some, String, List, [], ◌∷◌, ◌++◌, ◌≡◌, refl, leb, if◌then◌else◌, join_path, split, trim_newlines,
}
use live_migration_operator.Go.{done, blocked, ok, run}
use live_migration_operator.Kube.{Call, chmod, create_pod}
use live_migration_operator.Kube.Objects.{Pod}
use live_migration_operator.Utils.PodName.{retrieve_pod_name}
use live_migration_operator.Utils.ContainerName.{retrieve_container_name}
use live_migration_operator.Restore.{restored_container, restored_pod}
use live_migration_operator.Restore.ProcessFile.{build_image, process_file}
use live_migration_operator.Restore.Pipelined.{
  process_loop, create_restored, restore_files, buildah_restore_pipelined,
}
use live_migration_operator.Restore.Laws.{failures, process_file_blocks, restored_pod_is_empty}
use live_migration_operator.Restore.Sequential.{buildah_restore}
use live_migration_operator.Utils.PodName.{find_submatch}
use live_migration_operator.Restore.InOrder.{
  CommandsWork, last_pod, restored_containers, buildah_restore_in_order,
}
use live_migration_operator.Examples.World.{archive, calm, broken}

abbrev folder : String
folder = "/tmp"

named : retrieve_container_name (join_path folder archive) ≡ done "web-app"
unfolding retrieve_container_name split join_path
named = refl

process_file_blocks_example : (run broken (process_file archive folder) []).0 ≡ (
    if leb
      (failures broken
        (join_path folder archive)
        "web-app"
        (chmod (join_path folder archive) 0o644 ∷ []))
      1
    then done (ok (restored_container "web-app" ∷ [], retrieve_pod_name (join_path folder archive)))
    else blocked)
process_file_blocks_example =
    process_file_blocks broken archive folder "web-app" [] (λ h. cc) named refl

abbrev pod : Pod
pod = restored_pod (retrieve_pod_name archive) "test" []

abbrev restored_calls : List Call
restored_calls = (run calm (buildah_restore_pipelined folder "test") []).1

restored : run calm (buildah_restore_pipelined folder "test") [] ≡ (done (ok pod), restored_calls)
unfolding run buildah_restore_pipelined restore_files process_loop create_restored process_file
    build_image retrieve_container_name retrieve_pod_name split join_path trim_newlines
restored = refl

restored_pod_is_empty_example :
    (pod ≡ restored_pod (retrieve_pod_name archive) "test" [])
    × (mid : List Call) × (restored_calls ≡ mid ++ create_pod "test" pod ∷ [])
restored_pod_is_empty_example =
    restored_pod_is_empty calm folder "test" archive ("dummy" ∷ []) [] pod restored_calls refl
      restored

found : find_submatch (join_path folder archive) ≡ some "web"
unfolding find_submatch join_path
found = refl

calm-CommandsWork : CommandsWork calm
calm-CommandsWork = ((λ tr path mode. refl), λ tr args. refl)

abbrev names : List (String × String)
names = ("web", "web-app") ∷ []

buildah_restore_in_order_example :
    (mid : List Call) × (run calm (buildah_restore folder "test") [] ≡ (
      done (
          ok
            (calm mid (
              create_pod "test"
                (restored_pod (last_pod "" names) "test" (restored_containers names)))).0),
      mid
          ++ create_pod "test" (restored_pod (last_pod "" names) "test" (restored_containers names))
            ∷ [],
    ))
buildah_restore_in_order_example =
    buildah_restore_in_order calm folder "test" (archive ∷ []) names [] [] calm-CommandsWork refl
      ((λ h. cc), found, named, tt)
