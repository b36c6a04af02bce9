-- ===== src/Examples/Migrate.antt =====
-- Migrations of the pod, under concrete schedules.
use mathlib.Core.List.{Perm}
use live_migration_operator.Base.{
  ℕ, String, true, false, List, [], ◌∷◌, ◌++◌, ◌≡◌, refl, Option, none, ◌⊎◌, split, All,
}
use live_migration_operator.Go.{Outcome, done, run}
use live_migration_operator.Go.Weave.{Joined, advance, weave}
use live_migration_operator.Go.Fork.{setup, step, step_fork, run_fork, result}
use live_migration_operator.Go.Beside.{Turn, caller, other, run_beside}
use live_migration_operator.Kube.{
  Call, Error, get_pod, delete_pod, list_pods, remove_all, get_service, Cluster,
}
use live_migration_operator.Utils.Pods.{
  Container, print_container_ids, containers_of, deletion_loop, wait_for_pod_deletion,
}
use live_migration_operator.Utils.Services.{dummy_service, get_dummy_service_ip_and_port}
use live_migration_operator.Checkpoint.{
  checkpoint_worker, checkpoint_workers, checkpoint_pod_crio, terminate_checkpointed_pod,
}
use live_migration_operator.Checkpoint.Laws.{
  Watches, requests, checkpoint_workers-perm, run-checkpoint_pod_crio,
}
use live_migration_operator.Migrate.Upload.{
  upload_worker, announce, post_call, touch_call, dummy_path, migrate_checkpoint_parallelized,
}
use live_migration_operator.Migrate.Pod.{
  checkpoints_dir, send_path, stage_one, stage_two, clean_up, stage_three, after_stage_one,
  migrate_pod_pipelined,
}
use live_migration_operator.Migrate.Order.{InfoWorks, uploads, marker_sent_last}
use live_migration_operator.Migrate.StageOne.{Sent, stage_one-Sent}
use live_migration_operator.Migrate.Safety.{
  listed, stage_one_run, Deletes, migrate_pod_pipelined-Deletes,
}
use live_migration_operator.Migrate.Failures.{pipelined_deletes_unsaved_pod}
use live_migration_operator.Migrate.Progress.{HasPort, DeletionSeen}
use live_migration_operator.Migrate.Completion.{
  marker_can_be_sent, migrate_pod_pipelined_can_return, terminate_checkpointed_pod_deletes,
}
use live_migration_operator.Examples.World.{calm, stuck}

abbrev no_error : Option Error
no_error = none

abbrev files : List String
files = "a.tar" ∷ "b.tar" ∷ []

-- The setup, the two workers in turn, `Wait`, and the marker.
abbrev uploading : List ℕ
uploading = 0 ∷ 0 ∷ 1 ∷ 0 ∷ 1 ∷ 0 ∷ 0 ∷ 0 ∷ 0 ∷ []

abbrev containers : List Container
containers = record { id = "a1"; name = "web-app" } ∷ record { id = "b2"; name = "web-db" } ∷ []

-- The setup of stage 1, its workers in turn, `Wait`, and the change of the owner.
abbrev pub saving : List ℕ
saving = 0 ∷ 0 ∷ 0 ∷ 1 ∷ 0 ∷ 0 ∷ 0 ∷ []

-- The termination and stage 2 in turn.
abbrev pub turns : List Turn
turns =
    caller
    ∷ other 0
    ∷ caller
    ∷ other 0
    ∷ other 0
    ∷ caller
    ∷ other 0
    ∷ other 1
    ∷ caller
    ∷ other 1
    ∷ other 0
    ∷ other 0
    ∷ other 0
    ∷ other 0
    ∷ caller
    ∷ []

calm-InfoWorks : InfoWorks calm
calm-InfoWorks tr file = refl

uploaded :
    result
      (run_fork calm uploading (setup (migrate_checkpoint_parallelized files "/tmp" "test")) []).0
    ≡ done none
unfolding run_fork step_fork step advance migrate_checkpoint_parallelized upload_worker announce
    get_dummy_service_ip_and_port
uploaded = refl

marker_sent_last_example :
    (ip : String) × (port : ℕ) × (new : List Call) × (Perm new (uploads ip port "/tmp" files))
    × ((run_fork calm uploading (setup (migrate_checkpoint_parallelized files "/tmp" "test")) []).1
        ≡ get_service "test" dummy_service ∷ new
          ++ (touch_call ∷ post_call ip port dummy_path ∷ []))
    × (no_error ≡ none)
marker_sent_last_example =
    marker_sent_last calm files "/tmp" "test" uploading [] none calm-InfoWorks uploaded

saved : result (run_fork calm saving (stage_one containers "web" "test") []).0 ≡ done true
unfolding run_fork step_fork step advance stage_one checkpoint_workers checkpoint_worker send_path
saved = refl

stage_one-Sent_example :
    Sent calm containers "web" "test" []
      (run_fork calm saving (stage_one containers "web" "test") []).1
stage_one-Sent_example = stage_one-Sent calm containers "web" "test" saving [] saved

abbrev Migrated : Type 0
Migrated = Outcome (Option Error) × List Call

abbrev calls_of : Cluster → List Call
calls_of w = (migrate_pod_pipelined w 3 "web" "test" saving turns []).1

migrated : migrate_pod_pipelined calm 3 "web" "test" saving turns [] ≡ (done none, calls_of calm)
unfolding migrate_pod_pipelined run run_fork step_fork step advance run_beside stage_one
    checkpoint_workers checkpoint_worker send_path after_stage_one stage_two stage_three clean_up
    terminate_checkpointed_pod wait_for_pod_deletion deletion_loop print_container_ids containers_of
    migrate_checkpoint_parallelized upload_worker announce get_dummy_service_ip_and_port split
migrated = refl

migrate_pod_pipelined-Deletes_example :
    (no_error ≡ none)
    × Deletes calm 3 "web" "test" (stage_one_run calm "web" "test" saving []).1 (calls_of calm)
    × ((result (stage_one_run calm "web" "test" saving []).0 ≡ done true)
          × Sent calm
              (listed calm "test" [])
              "web"
              "test"
              (list_pods "test" ∷ [])
              (stage_one_run calm "web" "test" saving []).1
        ⊎ (result (stage_one_run calm "web" "test" saving []).0 ≡ done false))
migrate_pod_pipelined-Deletes_example =
    migrate_pod_pipelined-Deletes calm 3 "web" "test" saving turns [] none (calls_of calm) migrated

migrated_unsaved :
    migrate_pod_pipelined stuck 3 "web" "test" saving turns [] ≡ (done none, calls_of stuck)
unfolding migrate_pod_pipelined run run_fork step_fork step advance stage_one after_stage_one
    terminate_checkpointed_pod wait_for_pod_deletion deletion_loop print_container_ids containers_of
    split
migrated_unsaved = refl

pipelined_deletes_unsaved_pod_example :
    (no_error ≡ none)
    × (rest : List Call) × (calls_of stuck
        ≡ (list_pods "test" ∷ remove_all checkpoints_dir ∷ [])
          ++ (get_pod "test" "web" ∷ delete_pod "test" "web" ∷ rest))
    × All (Watches stuck "test" "web") rest
pipelined_deletes_unsaved_pod_example =
    pipelined_deletes_unsaved_pod stuck 3 "web" "test" saving turns [] "device or resource busy"
      none (calls_of stuck) refl migrated_unsaved

run-checkpoint_pod_crio_example :
    run calm (checkpoint_pod_crio containers "test" "web") []
    ≡ (done none, requests calm "test" "web" containers)
run-checkpoint_pod_crio_example = run-checkpoint_pod_crio calm "test" "web" containers []

joined : Joined (weave calm (1 ∷ 0 ∷ []) (checkpoint_workers containers "test" "web") []).0
unfolding weave advance checkpoint_workers checkpoint_worker
joined = tt

checkpoint_workers-perm_example :
    (new : List Call) × ((weave calm (1 ∷ 0 ∷ []) (checkpoint_workers containers "test" "web") []).1
      ≡ new)
    × (Perm new (requests calm "test" "web" containers))
checkpoint_workers-perm_example =
    checkpoint_workers-perm calm "test" "web" containers (1 ∷ 0 ∷ []) [] joined

calm-HasPort : HasPort calm "test" "web"
calm-HasPort tr h = cc

calm-DeletionSeen : DeletionSeen calm "test" "web" 1
calm-DeletionSeen = ((λ tr. refl), λ before after others. tt)

terminate_checkpointed_pod_deletes_example :
    (rest : List Call) × (run calm (terminate_checkpointed_pod 1 "web" "test") []
      ≡ (done none, get_pod "test" "web" ∷ delete_pod "test" "web" ∷ rest))
terminate_checkpointed_pod_deletes_example =
    terminate_checkpointed_pod_deletes calm "test" "web" 1 [] calm-DeletionSeen

marker_can_be_sent_example :
    (more : List ℕ) × (e : Option Error) × (result
        (run_fork calm
          (0 ∷ 0 ∷ 1 ∷ more)
          (setup (migrate_checkpoint_parallelized files "/tmp" "test"))
          []).0
      ≡ done e)
marker_can_be_sent_example =
    marker_can_be_sent calm "test" "web" files "/tmp" (0 ∷ 0 ∷ 1 ∷ []) [] calm-HasPort

migrate_pod_pipelined_can_return_example :
    (more : List ℕ) × (more_turns : List Turn) × (final : List Call) × (migrate_pod_pipelined calm 1
        "web" "test"
        (0 ∷ 1 ∷ more)
        (caller ∷ other 0 ∷ more_turns)
        []
      ≡ (done none, final))
migrate_pod_pipelined_can_return_example =
    migrate_pod_pipelined_can_return calm "test" "web" 1 (0 ∷ 1 ∷ []) (caller ∷ other 0 ∷ []) []
      calm-HasPort calm-DeletionSeen
