-- ===== src/Examples/World.antt =====
-- A cluster with one pod of two containers, one service, one archive and the marker file.
use live_migration_operator.Base.{String, [], ◌∷◌, true, Option, none, some}
use live_migration_operator.Base.{false}
use live_migration_operator.Api.{LiveMigration}
use live_migration_operator.ApiServer.ListAll.{zero_template}
use live_migration_operator.Kube.{
  Error, exec, chmod, chown_self, remove_all, mkdir_all, read_dir, entry_info, get_pod, list_pods,
  create_pod, update_pod, delete_pod, watch_pods, next_event, get_service, create_service,
  select_tick, sleep, getenv, expand_env, stat, build_config, in_cluster_config, new_clientset,
  get_migration, list_children, new_watcher, add_watch, next_file_event, poll_done, select_signal,
  cancel, created, deleted, ticked, Cluster,
}
use live_migration_operator.Kube.Objects.{Pod, Service, zero_meta, zero_pod_spec}

abbrev pub web_pod : Pod
web_pod = record {
  meta = record zero_meta { name = "web"; namespace = "test" };
  spec = zero_pod_spec;
  status = record {
    phase = "Running";
    container_statuses =
        record { name = "web-app"; container_id = "cri-o://a1"; ready = true }
        ∷ record { name = "web-db"; container_id = "cri-o://b2"; ready = true }
        ∷ [];
  };
}

-- A migration of the pod that has a name of its own.
abbrev pub web_migration : LiveMigration
web_migration = record {
  meta = record zero_meta { name = "web-migration"; namespace = "test" };
  spec = record {
    replicas = 1;
    source_pod = "web";
    dest_host = "node-2";
    snapshot_path = "/snapshots/web";
    selector = none;
    template = zero_template;
    action = "live";
  };
  status = record { state = ""; current_revision = ""; active_pod = "" };
}

abbrev pub dummy : Service
dummy = record {
  meta = record zero_meta { name = "dummy-service" };
  cluster_ip = "10.0.0.7";
  ports = record { name = "http"; port = 8080; target_port = 8080 } ∷ [];
  selector = [];
}

abbrev pub archive : String
archive = "checkpoint-web_test-web-app-2024-01-31.tar"

-- Every call succeeds, but emptying a folder is answered by the argument, and the commands of a
-- host by the second one.
abbrev pub cluster : Option Error → Option Error → Cluster
cluster emptied command tr (getenv _) = ""
cluster emptied command tr (expand_env path) = path
cluster emptied command tr (stat _) = none
cluster emptied command tr (build_config _) = none
cluster emptied command tr in_cluster_config = none
cluster emptied command tr new_clientset = none
cluster emptied command tr (get_migration _ _) = (web_migration, none)
cluster emptied command tr (list_children _ _) = ([], none)
cluster emptied command tr new_watcher = none
cluster emptied command tr (add_watch _) = none
cluster emptied command tr next_file_event = created "/checkpoints/dummy"
cluster emptied command tr poll_done = false
cluster emptied command tr select_signal = none
cluster emptied command tr cancel = tt
cluster emptied command tr (exec _) = ("working-container", command)
cluster emptied command tr (chmod _ _) = none
cluster emptied command tr (chown_self _) = none
cluster emptied command tr (remove_all _) = emptied
cluster emptied command tr (mkdir_all _ _) = none
cluster emptied command tr (read_dir _) = (archive ∷ "dummy" ∷ [], none)
cluster emptied command tr (entry_info file) = (file, none)
cluster emptied command tr (get_pod _ _) = (web_pod, none)
cluster emptied command tr (list_pods _) = (web_pod ∷ [], none)
cluster emptied command tr (create_pod _ pod) = (pod, none)
cluster emptied command tr (update_pod _) = none
cluster emptied command tr (delete_pod _ _) = none
cluster emptied command tr (watch_pods _ _) = none
cluster emptied command tr next_event = some deleted
cluster emptied command tr (get_service _ _) = (dummy, none)
cluster emptied command tr (create_service _ _) = none
cluster emptied command tr (select_tick _ _) = ticked
cluster emptied command tr (sleep _) = tt

abbrev pub calm : Cluster
calm = cluster none none

-- Its checkpoint folder cannot be emptied.
abbrev pub stuck : Cluster
stuck = cluster (some "device or resource busy") none

-- Its commands fail.
abbrev pub broken : Cluster
broken = cluster none (some "exit status 125")
