-- ===== src/ApiServer/Server.antt =====
-- api-server/server.go: the server that is made, and the goroutines of its `Start`.
pub mod Late
use live_migration_operator.Base.{
  ℕ, String, ◌<>◌, decimal, List, [], ◌∷◌, ◌≡◌, Bool, true, Option, none, some,
}
use live_migration_operator.ApiServer.Types.{Handler}
use live_migration_operator.ApiServer.ListAll.{list_handler}
use live_migration_operator.ApiServer.Create.{create_handler}

pub data Method : Type 0 where
  get post : Method

pub record Route : Type 0 where
  pub method : Method
  pub path : String
  pub handler : Handler

-- `apiServer`, with what its container is set up for.
pub record HttpServer : Type 0 where
  pub addr : String
  pub allowed_domains : List String
  pub exposed_headers : List String
  pub root : String
  pub media_type : String
  pub routes : List Route

-- `SetupWithWS` adds its routes to those of the service.
abbrev pub setup_with_ws : List Route
setup_with_ws =
    record { method = get; path = "Livemigrations"; handler = list_handler }
    ∷ record { method = post; path = "Livemigrations"; handler = create_handler }
    ∷ []

-- `newApiServer`, for a port that is not negative.
unfoldable pub new_api_server : ℕ → List String → HttpServer
new_api_server port allowed_domains = record {
  addr = ":" <> decimal port;
  allowed_domains = allowed_domains;
  exposed_headers = "Access-Control-Allow-Origin" ∷ [];
  root = "/";
  media_type = "application/json";
  routes = setup_with_ws;
}

-- Where the goroutine that calls `Start` stands.
pub data Api : Type 0 where
  not_begun selecting shutting_down ended : Api

-- Where the goroutine that it starts stands.
pub data Listener : Type 0 where
  not_started listening : Listener
  -- on the channel without a buffer
  sending : String → Listener
  finished : Listener

pub record Server : Type 0 where
  pub api : Api
  pub listener : Listener

abbrev pub new_server : Server
new_server = record { api = not_begun; listener = not_started }

-- A step of the server, while the channel `stop` is closed or not. The last index is an error that
-- `Start` returns.
pub data Move (stop : Bool) (s : Server) : Server → Option String → Type 0 where
  begins : s.api ≡ not_begun → Move stop s (record { api = selecting; listener = listening }) none
  -- ListenAndServe returns no error, or http.ErrServerClosed
  closes : s.listener ≡ listening → Move stop s (record s { listener = finished }) none
  fails :
      (e : String) → s.listener ≡ listening → Move stop s (record s { listener = sending e }) none
  -- the error goes over the channel
  receives :
      (e : String)
      → s.api ≡ selecting
      → s.listener ≡ sending e
      → Move stop s (record { api = ended; listener = finished }) (some e)
  stops : stop ≡ true → s.api ≡ selecting → Move stop s (record s { api = shutting_down }) none
  -- the result of Shutdown
  shuts_down :
      (e : Option String) → s.api ≡ shutting_down → Move stop s (record s { api = ended }) e
