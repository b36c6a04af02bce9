-- ===== src/Examples/Sequential.antt =====
-- `MigratePod` under a concrete schedule.
use live_migration_operator.Base.{ℕ, List, [], ◌∷◌, ◌≡◌, refl, none, split}
use live_migration_operator.Go.{done}
use live_migration_operator.Go.Weave.{advance}
use live_migration_operator.Go.Fork.{step, step_fork, run_fork, result}
use live_migration_operator.Utils.Pods.{
  print_container_ids, containers_of, deletion_loop, wait_for_pod_deletion,
}
use live_migration_operator.Utils.Services.{get_dummy_service_ip_and_port}
use live_migration_operator.Checkpoint.{checkpoint_pod_crio, terminate_checkpointed_pod}
use live_migration_operator.Migrate.Upload.{
  upload_worker, announce, migrate_checkpoint_parallelized,
}
use live_migration_operator.Migrate.Pod.{migrate_pod}
use live_migration_operator.Migrate.Sequential.{Ordered, migrate_pod-Ordered}
use live_migration_operator.Examples.World.{calm}

abbrev one_after_another : List ℕ
one_after_another =
    0 ∷ 0 ∷ 0 ∷ 0 ∷ 0 ∷ 0 ∷ 0 ∷ 0 ∷ 0 ∷ 0 ∷ 0 ∷ 0 ∷ 0 ∷ 0 ∷ 0 ∷ 0 ∷ 0 ∷ 0 ∷ 0 ∷ 0 ∷ 1 ∷ 1 ∷ 1 ∷ 1
    ∷ 0 ∷ 0 ∷ 0 ∷ 0 ∷ 0 ∷ 0 ∷ []

migrated : result (run_fork calm one_after_another (migrate_pod 3 "web" "test") []).0 ≡ done none
unfolding run_fork step_fork step advance migrate_pod print_container_ids containers_of
    checkpoint_pod_crio terminate_checkpointed_pod wait_for_pod_deletion deletion_loop
    migrate_checkpoint_parallelized upload_worker announce get_dummy_service_ip_and_port split
migrated = refl

migrate_pod-Ordered_example :
    Ordered calm 3 "web" "test" [] none
      (run_fork calm one_after_another (migrate_pod 3 "web" "test") []).1
migrate_pod-Ordered_example =
    migrate_pod-Ordered calm 3 "web" "test" one_after_another [] none migrated
