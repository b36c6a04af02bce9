-- ===== src/ApiServer/Types.antt =====
-- The types of api-server/endpoints/types.go, and what the endpoints ask of the world.
use live_migration_operator.Base.{ℕ, String, List, Bool, true, Option, none, some, if◌then◌else◌}
use live_migration_operator.Go.{Interface, Prog, ret, call}
use live_migration_operator.Api.{LabelSelector, LiveMigrationStatus, LiveMigration}
use live_migration_operator.Kube.Objects.{PodTemplateSpec, Pod}

-- The body of requests and replies.
pub record Livemigration : Type 0 where
  pub name : String
  pub dest_host : String
  pub replicas : ℕ
  pub selector : Option LabelSelector
  pub action : String
  pub snapshot_path : String
  pub source_pod : String
  pub template : PodTemplateSpec
  pub status : Option LiveMigrationStatus

pub record ApiError : Type 0 where
  pub title : String
  pub details : String

pub data Call : Type 0 where
  -- request.ReadEntity
  read_entity : Call
  -- client.List of the pods in a namespace
  list_pods : String → Call
  -- client.List of the LiveMigration objects
  list_migrations : Call
  -- client.Create; the reply is the object as the server left it
  create_migration : LiveMigration → Call
  -- response.WriteAsJson
  write_one : Livemigration → Call
  write_all : List Livemigration → Call
  -- response.WriteHeaderAndJson
  write_error_json : ℕ → ApiError → Call

abbrev pub Reply : Call → Type 0
Reply read_entity = Livemigration × Option String
Reply (list_pods _) = List Pod × Option String
Reply list_migrations = List LiveMigration × Option String
Reply (create_migration _) = LiveMigration × Option String
Reply (write_one _) = Option String
Reply (write_all _) = Option String
Reply (write_error_json _ _) = Option String

abbrev pub api : Interface
api = record { Call = Call; Reply = Reply }

abbrev pub Handler : Type 0
Handler = Prog api Unit

abbrev pub ask : (c : Call) → Prog api (Reply c)
ask c = call c ret

-- `writeError` of api-server/endpoints/livemigration.go: an error of the writing is only logged.
abbrev pub write_error : ℕ → ApiError → Handler
write_error status e = call (write_error_json status e) (λ _. ret tt)

-- `Validate` of api-server/endpoints/types.go
unfoldable pub validate : Livemigration → Option String
validate pm =
    let validated : Bool = true in
    if validated
    then none
    else some "source type validation was not performed, type can only be [WebFolder,S3]"
