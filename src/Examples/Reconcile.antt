-- ===== src/Examples/Reconcile.antt =====
-- The reconciler on concrete objects and clusters.
use live_migration_operator.Base.{
  String, List, [], ◌∷◌, ◌≡◌, ◌↔◌, ◌⊎◌, ◌<◌, ◌≤◌, inl, refl, Option, none, some, split, to_lower,
  arith,
}
use live_migration_operator.Go.{Result, ok, done, run}
use live_migration_operator.Go.Weave.{advance}
use live_migration_operator.Go.Fork.{step, step_fork, run_fork}
use live_migration_operator.Go.Beside.{run_beside}
use live_migration_operator.Api.{LiveMigration}
use live_migration_operator.ApiServer.Types.{Livemigration}
use live_migration_operator.ApiServer.ListAll.{zero_template}
use live_migration_operator.ApiServer.Create.{object_for, prepare as checked}
use live_migration_operator.Kube.{Call, Error, get_pod, get_migration, poll_done, Cluster}
use live_migration_operator.Kube.Objects.{
  Dict, ObjectMeta, PodTemplateSpec, zero_meta, zero_pod_spec,
}
use live_migration_operator.Kube.Maps.{at, lookup}
use live_migration_operator.Utils.Pods.{
  check_pod_exist, print_container_ids, containers_of, deletion_loop, wait_for_pod_deletion,
}
use live_migration_operator.Utils.Services.{get_dummy_service_ip_and_port}
use live_migration_operator.Checkpoint.{
  checkpoint_worker, checkpoint_workers, terminate_checkpointed_pod,
}
use live_migration_operator.Migrate.Upload.{
  upload_worker, announce, migrate_checkpoint_parallelized,
}
use live_migration_operator.Migrate.Pod.{
  send_path, stage_one, stage_two, clean_up, stage_three, after_stage_one, migrate_pod_pipelined,
}
use live_migration_operator.Migrate.Safety.{Deletes}
use live_migration_operator.Reconcile.Builders.{desired_deployment}
use live_migration_operator.Reconcile.Builders.Replicas.{
  signed32, signed64, deployment_replicas_bounds,
}
use live_migration_operator.Reconcile.Snapshot.{remove_checkpoint_pod}
use live_migration_operator.Reconcile.Snapshot.Laws.{
  IsThere, Removal, remove_checkpoint_pod_removes,
}
use live_migration_operator.Reconcile.Prepare.{ready, prepare, prepare_object}
use live_migration_operator.Go.{◌>>◌}
use live_migration_operator.Base.{contains}
use live_migration_operator.Kube.{created, next_file_event, select_signal, migration_done}
use live_migration_operator.Restore.Pipelined.{buildah_restore_pipelined}
use live_migration_operator.Reconcile.Goroutines.{event_loop}
use live_migration_operator.Reconcile.Goroutines.Marker.{in_folder, event_loop_restores}
use live_migration_operator.Reconcile.EndToEnd.{DeletesNamesake, created_object-DeletesNamesake}
use live_migration_operator.Reconcile.Goroutines.{source_loop, source_goroutine}
use live_migration_operator.Reconcile.Goroutines.Laws.{
  OneRound, source_loop-OneRound, source_goroutine-Deletes,
}
use live_migration_operator.Reconcile.Goroutines.Template.{LeftAlone, template_is_not_migrated}
use live_migration_operator.Examples.World.{web_pod, web_migration, calm}
use live_migration_operator.Examples.Migrate.{saving, turns}

-- An owner can be set, and every error is kept.
abbrev set_owner : LiveMigration → ObjectMeta → Result String
set_owner object meta = ok object.meta.name

abbrev keep_error : Error → Option Error
keep_error e = some e

abbrev template : PodTemplateSpec
template = record {
  meta = record zero_meta {
    labels = some (("app", "web") ∷ []);
    annotations = some (("team", "a") ∷ ("sourcePod", "old") ∷ []);
  };
  spec = zero_pod_spec;
}

-- A file is created in the folder.
abbrev noticing : Cluster
noticing tr next_file_event = created (in_folder "checkpoint-dummyweb_test-app-2024.tar")
noticing tr c = calm tr c

-- The archive of a pod with the part in its name.
event_loop_restores_example :
    run noticing (event_loop 1 "test") []
    ≡ run noticing
        (do buildah_restore_pipelined "/checkpoints/" "test"; event_loop 0 "test")
        (next_file_event ∷ [])
unfolding contains
event_loop_restores_example =
    event_loop_restores noticing 0 "test" "checkpoint-dummyweb_test-app-2024.tar" [] refl

deployment_replicas_bounds_example :
    ((desired_deployment set_owner web_migration "web" "test" template).0.replicas < 4294967296)
    × ((signed32 (desired_deployment set_owner web_migration "web" "test" template).0.replicas
          ≡ signed64 1)
        ↔ ((1 < 2147483648) ⊎ (18446744071562067968 ≤ 1)))
deployment_replicas_bounds_example =
    deployment_replicas_bounds set_owner web_migration "web" "test" template (omega arith)

remove_checkpoint_pod_removes_example :
    (mid : List Call) × IsThere calm web_pod "/snapshots" "web-2" "test" [] mid
    × Removal calm web_pod "/snapshots" mid
        (run calm (remove_checkpoint_pod 1 web_pod "/snapshots" "web-2" "test") [])
remove_checkpoint_pod_removes_example =
    remove_checkpoint_pod_removes calm web_pod "/snapshots" "web-2" "test" 1 [] (λ h. inl refl)

-- A cluster where one of the channels delivers.
abbrev finishing : Cluster
finishing tr select_signal = some migration_done
finishing tr c = calm tr c

abbrev body : Livemigration
body = record {
  name = "web-migration";
  replicas = 1;
  source_pod = "web";
  dest_host = "node-2";
  snapshot_path = "/snapshots/web";
  selector = none;
  template = zero_template;
  action = "Live";
  status = none;
}

-- The object that the body was turned into is stored.
abbrev storing : Cluster
storing tr (get_migration _ _) = (object_for (checked body), none)
storing tr c = calm tr c

created_object-DeletesNamesake_example :
    (annotations : Dict) × (namespace : String) × (final : List Call) × (run storing
        (prepare set_owner keep_error 3 "test" "web-migration")
        []
      ≡ (done (ready (object_for (checked body)) annotations namespace), final))
    × (at "sourcePod" annotations ≡ "web")
    × (at "snapshotPolicy" annotations ≡ "live")
    × (at "snapshotPath" annotations ≡ "/snapshots/web")
    × DeletesNamesake storing 2 body saving turns annotations namespace
unfolding to_lower
created_object-DeletesNamesake_example =
    created_object-DeletesNamesake storing 2 body saving turns set_owner keep_error "test" []
      (
        (λ tr path. refl),
        (λ tr. refl),
        (λ tr namespace labels. refl),
        (λ object meta. (object.meta.name, refl)),
      )
      ((λ tr. refl), (λ tr namespace. refl))

abbrev annotations : Dict
annotations = ("sourcePod", "web") ∷ []

source_loop-OneRound_example :
    OneRound calm annotations "test" [] (run calm (source_loop 1 annotations "test") [])
source_loop-OneRound_example = source_loop-OneRound calm annotations "test" 0 []

abbrev calls : List Call
calls = (source_goroutine calm 3 "web-migration" "test" saving turns annotations []).1

finished :
    source_goroutine calm 3 "web-migration" "test" saving turns annotations [] ≡ (done tt, calls)
unfolding source_goroutine source_loop check_pod_exist migrate_pod_pipelined run run_fork step_fork
    step advance run_beside stage_one checkpoint_workers checkpoint_worker send_path after_stage_one
    stage_two stage_three clean_up terminate_checkpointed_pod wait_for_pod_deletion deletion_loop
    print_container_ids containers_of migrate_checkpoint_parallelized upload_worker announce
    get_dummy_service_ip_and_port split lookup
finished = refl

source_goroutine-Deletes_example :
    Deletes calm 3 "web-migration" "test" (poll_done ∷ get_pod "test" "web" ∷ []) calls
unfolding lookup
source_goroutine-Deletes_example =
    source_goroutine-Deletes calm annotations "test" "web-migration" saving turns 2 [] calls refl
      refl finished

-- No pod can be got.
abbrev refusing : Cluster
refusing tr (get_pod _ _) = (web_pod, some "resource name may not be empty")
refusing tr c = calm tr c

-- A migration that brings its own template.
abbrev templated : LiveMigration
templated = record web_migration {
  spec = record web_migration.spec {
    template = record zero_template { meta = record zero_meta { name = "web" } };
  };
}

template_is_not_migrated_example :
    (run refusing (prepare_object set_owner keep_error 1 templated "test" "test") []
      ≡ (done (ready templated [] "test"), []))
    × ((later : List Call) → LeftAlone refusing 1 "web-migration" "test" saving turns [] later)
template_is_not_migrated_example =
    template_is_not_migrated set_owner keep_error refusing 1 templated "test" "test" saving turns []
      (λ h. cc) (λ tr h. cc)
