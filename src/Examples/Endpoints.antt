-- ===== src/Examples/Endpoints.antt =====
-- Requests to the API server.
use live_migration_operator.Base.{refl, ◌≤◌, [], ◌∷◌, ◌≡◌, true, none, some}
use live_migration_operator.Go.{done, World, run}
use live_migration_operator.Go.Calls.{made}
use live_migration_operator.ApiServer.Types.{
  Livemigration, read_entity, list_pods, list_migrations, create_migration, write_one, write_all,
  write_error_json, api,
}
use live_migration_operator.ApiServer.ListAll.{zero_template}
use live_migration_operator.ApiServer.Create.{create_handler}
use live_migration_operator.ApiServer.Create.Laws.{creations, writes, create_handler_replies}
use live_migration_operator.ApiServer.Create.{object_for, prepare}
use live_migration_operator.Base.{◌⊎◌, inl}
use live_migration_operator.ApiServer.Create.Accepted.{Accepted, created, create_handler-created}
use live_migration_operator.ApiServer.Signal.{signal_all, new_signaler, signal_all-first}
use live_migration_operator.Examples.World.{web_pod}

abbrev body : Livemigration
body = record {
  name = "web-migration";
  dest_host = "10.0.0.9";
  replicas = 1;
  selector = none;
  action = "live";
  snapshot_path = "";
  source_pod = "web";
  template = zero_template;
  status = none;
}

-- A client that sends the body, and an API server that stores objects.
abbrev server : World api
server tr read_entity = (body, none)
server tr (list_pods _) = (web_pod ∷ [], none)
server tr list_migrations = ([], none)
server tr (create_migration object) = (object, none)
server tr (write_one _) = none
server tr (write_all _) = none
server tr (write_error_json _ _) = none

create_handler_replies_example :
    ((run server create_handler []).0 ≡ done tt)
    × (1 ≤ writes (made server create_handler []))
    × (writes (made server create_handler []) ≤ 2)
    × (creations (made server create_handler []) ≤ 1)
create_handler_replies_example = create_handler_replies server []

create_handler-created_example :
    (Accepted server []
      × (created (made server create_handler [])
          ≡ object_for (prepare (server [] read_entity).0) ∷ []))
    ⊎ (¬ Accepted server [] × (created (made server create_handler []) ≡ []))
create_handler-created_example = create_handler-created server []

-- The body is accepted, so the first case is the one that holds.
server-Accepted : Accepted server []
server-Accepted = (refl, ((λ h. cc), refl, inl (refl, refl)))

signal_all-first_example :
    signal_all (none ∷ some "stopped" ∷ some "again" ∷ []) new_signaler
    ≡ some (record { closed = true; err = some "stopped" })
signal_all-first_example = signal_all-first (none ∷ some "stopped" ∷ some "again" ∷ [])
