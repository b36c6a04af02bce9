-- ===== src/ApiServer/ListAll.antt =====
-- api-server/endpoints/converter.go, and the handler `list` of api-server/endpoints/livemigration.go
use live_migration_operator.Base.{◌<>◌, List, [], ◌∷◌, Option, none, some}
use live_migration_operator.Go.{ret, ◌>>=◌}
use live_migration_operator.Kube.Objects.{zero_meta, zero_pod_spec, PodTemplateSpec}
use live_migration_operator.Api.{LiveMigration, LiveMigrationStatus}
use live_migration_operator.ApiServer.Types.{
  Livemigration, list_migrations, write_all, Handler, ask, write_error,
}

abbrev pub zero_template : PodTemplateSpec
zero_template = record { meta = zero_meta; spec = zero_pod_spec }

-- `Object`: the template is left out, the status is a pointer to the object's.
unfoldable pub from_object : LiveMigration → Livemigration
from_object pm = record {
  name = pm.meta.name;
  dest_host = pm.spec.dest_host;
  replicas = pm.spec.replicas;
  selector = pm.spec.selector;
  action = pm.spec.action;
  snapshot_path = pm.spec.snapshot_path;
  source_pod = pm.spec.source_pod;
  template = zero_template;
  status = some pm.status;
}

-- The variable of the loop of `List` is one for all rounds, as before Go 1.22, and each item points
-- to the status in it: after the loop, that of the last object.
abbrev last_status : Option LiveMigrationStatus → List LiveMigration → Option LiveMigrationStatus
last_status held [] = held
last_status held (r ∷ rs) = last_status (some r.status) rs

-- The items as the loop leaves them, by the status that they share.
abbrev items : Option LiveMigrationStatus → List LiveMigration → List Livemigration
items shared [] = []
items shared (r ∷ rs) = record (from_object r) { status = shared } ∷ items shared rs

-- `List`
unfoldable pub from_list : List LiveMigration → List Livemigration
unfolding from_object
from_list rs = items (last_status none rs) rs

unfoldable pub list_handler : Handler
list_handler = do
  (objects, e) ← ask list_migrations
  elim e [
    | some e ↦
        write_error 404 (record { title = "Error"; details = "Could not retrieve list: " <> e })
    | none ↦ do
      e ← ask (write_all (from_list objects))
      elim e [
        | none ↦ ret tt
        | some _ ↦
            write_error 404 (record { title = "Error"; details = "Could not list resources" })
      ]
  ]
