-- ===== src/Examples/Parallel.antt =====
-- Parallel restores of two archives.
use live_migration_operator.Base.{
  ℕ, String, List, ◌≡◌, [], ◌∷◌, ◌++◌, refl, none, join_path, split, trim_newlines,
}
use live_migration_operator.Go.{ret, run}
use live_migration_operator.Go.Fork.{closing, run_fork, step_fork, step}
use live_migration_operator.Go.Weave.{advance}
use live_migration_operator.Kube.{read_dir, create_pod, Cluster}
use live_migration_operator.Kube.Objects.{Pod}
use live_migration_operator.Utils.PodName.{retrieve_pod_name}
use live_migration_operator.Utils.ContainerName.{retrieve_container_name}
use live_migration_operator.Restore.{restored_container, restored_pod}
use live_migration_operator.Restore.ProcessFile.{build_image, process_file}
use live_migration_operator.Restore.Parallel.{
  Access, outside, remembering, buildah_restore_parallelized, restore_worker, create_shared, embed,
  outside_of, containers_after, name_after,
}
use live_migration_operator.Restore.Parallel.Results.{Sound}
use live_migration_operator.Go.Fork.Keeps.{Each}
use live_migration_operator.Restore.Parallel.Sound.{restore_parallelized-Sound}
use live_migration_operator.Restore.Parallel.Lost.{Leads, Processes, restore_parallelized_loses}
use live_migration_operator.Examples.World.{archive, calm}

abbrev other_archive : String
other_archive = "checkpoint-web_test-web-db-2024-01-31.tar"

-- The folder has two archives.
abbrev holding : Cluster
holding tr (read_dir _) = (archive ∷ other_archive ∷ [], none)
holding tr c = calm tr c

-- Both files are read, one beside the other, and the pod is created.
abbrev whole : List ℕ
whole =
    0 ∷ 0 ∷ 1 ∷ 0 ∷ 1 ∷ 0 ∷ 0 ∷ 0 ∷ 1 ∷ 1 ∷ 0 ∷ 0 ∷ 1 ∷ 1 ∷ 1 ∷ 0 ∷ 1 ∷ 1 ∷ 0 ∷ 1 ∷ 0 ∷ 0 ∷ 0 ∷ 0
    ∷ 0 ∷ 0 ∷ []

restore_parallelized-Sound_example :
    Each
      (Sound "/tmp" "test" (archive ∷ other_archive ∷ []))
      []
      (run_fork (remembering holding) whole (buildah_restore_parallelized "/tmp" "test") []).1
restore_parallelized-Sound_example = restore_parallelized-Sound holding "/tmp" "test" whole

processed : Processes holding "/tmp" archive (restored_container "web-app" ∷ []) "web"
unfolding run process_file build_image retrieve_container_name retrieve_pod_name split join_path
    trim_newlines
processed tr = (_, refl)

other_processed : Processes holding "/tmp" other_archive (restored_container "web-db" ∷ []) "web"
unfolding run process_file build_image retrieve_container_name retrieve_pod_name split join_path
    trim_newlines
other_processed tr = (_, refl)

restore_parallelized_loses_example :
    (before : List Access) × (pod : Pod) × Leads holding
      (buildah_restore_parallelized "/tmp" "test", [])
      (
        closing (ret pod),
        before
            ++ outside
                (create_pod "test" (restored_pod "web" "test" (restored_container "web-db" ∷ [])))
              ∷ [],
      )
restore_parallelized_loses_example =
    restore_parallelized_loses holding "/tmp" "test" archive other_archive
      (restored_container "web-app" ∷ []) (restored_container "web-db" ∷ []) "web" "web" refl
      processed other_processed

-- The run comes to its end.
whole-ends :
    ((run_fork (remembering holding) whole (buildah_restore_parallelized "/tmp" "test") []).0)
    ≡ closing (
        ret (
          restored_pod "web" "test"
            (restored_container "web-db" ∷ restored_container "web-app" ∷ [])))
unfolding run_fork step_fork step advance remembering buildah_restore_parallelized restore_worker
    create_shared process_file build_image embed outside_of containers_after name_after
    retrieve_container_name retrieve_pod_name split join_path trim_newlines
whole-ends = refl
