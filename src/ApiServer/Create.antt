-- ===== src/ApiServer/Create.antt =====
-- The handler `create` of api-server/endpoints/livemigration.go.
pub mod Laws
pub mod Accepted
use live_migration_operator.Base.{
  ℕ, ◌+◌, String, ◌<>◌, code, List, [], ◌∷◌, ◌++◌, Bool, ◌&&◌, Option, none, some, ◌==◌, to_lower,
  if◌then◌else◌,
}
use live_migration_operator.Go.{Prog, ret, ◌>>=◌, ◌>>◌}
use live_migration_operator.Kube.Objects.{Pod, zero_meta, zero_pod_spec}
use live_migration_operator.Api.{LiveMigration, LiveMigrationStatus}
use live_migration_operator.ApiServer.Types.{
  Livemigration, ApiError, Call, read_entity, list_pods, create_migration, write_one, Handler, ask,
  write_error, validate,
}
use live_migration_operator.ApiServer.ListAll.{zero_template, from_object}

abbrev pub namespace : String
namespace = "test"

abbrev pub bad_request : String → ApiError
bad_request details = record { title = "Bad Request"; details = details }

-- The loop over the pods: the last running pod of the name is kept.
unfoldable pub find_source : String → List Pod → Option Pod → Option Pod
find_source name [] found = found
find_source name (pod ∷ pods) found =
    find_source name pods
      (if pod.meta.name == name && pod.status.phase == "Running" then some pod else found)

-- The body with what the handler sets, whether the body could be read or not.
unfoldable pub prepare : Livemigration → Livemigration
prepare pm = record pm {
  action = to_lower pm.action;
  selector = some (("livemig", "unipi") ∷ []);
  template = zero_template;
}

abbrev pub zero_migration_status : LiveMigrationStatus
zero_migration_status = record { state = ""; current_revision = ""; active_pod = "" }

-- The object that is created for a body.
unfoldable pub object_for : Livemigration → LiveMigration
object_for pm = record {
  meta = record zero_meta { name = pm.name; namespace = namespace };
  spec = record {
    replicas = pm.replicas;
    source_pod = pm.source_pod;
    dest_host = pm.dest_host;
    snapshot_path = pm.snapshot_path;
    selector = pm.selector;
    template = pm.template;
    action = pm.action;
  };
  status = zero_migration_status;
}

-- From the pod that was found to the reply.
unfoldable pub create_for : Livemigration → Option Pod → Handler
unfolding object_for from_object
create_for pm none = write_error 400 (bad_request "Could not find sourcePod for migration")
create_for pm (some _) = do
  (created, e) ← ask (create_migration (object_for pm))
  elim e [
    | some e ↦
        write_error 400 (record { title = "Error"; details = "Could not create object: " <> e })
    | none ↦ do
      e ← ask (write_one (from_object created))
      elim e [
        | none ↦ ret tt
        | some _ ↦
            write_error 422 (record { title = "Error"; details = "Could not write response" })
      ]
  ]

-- The search for the source pod; an empty name is not searched for.
unfoldable pub search_source : Livemigration → Handler
unfolding find_source create_for
search_source pm = if pm.source_pod == "" then create_for pm none else do
  (pods, e) ← ask (list_pods namespace)
  elim e [
    | some _ ↦ write_error 400 (bad_request "Could not find any running pod for migration")
    | none ↦ create_for pm (find_source pm.source_pod pods none)
  ]

unfoldable pub create_handler : Handler
unfolding prepare search_source validate
create_handler = do
  (body, e) ← ask read_entity
  let pm = prepare body
  elim e [
    | some _ ↦ write_error 400 (bad_request "Could not read entity")
    | none ↦ elim (validate pm) [
      | some details ↦ write_error 400 (record { title = "Validation error"; details = details })
      | none ↦ search_source pm
    ]
  ]
