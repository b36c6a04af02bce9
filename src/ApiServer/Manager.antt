-- ===== src/ApiServer/Manager.antt =====
-- api-server/manager.go: the manager whose `Start` may be called several times, one call after the
-- other, with the goroutines that the calls start.
pub mod Invariant
pub mod Restart
pub mod Contract
pub mod Refinement
use live_migration_operator.Base.{
  String, List, [], ◌∷◌, ◌++◌, ◌≡◌, ◌≢◌, Bool, true, false, Option, none, some, if◌then◌else◌,
}
use live_migration_operator.ApiServer.Signal.{ErrSignaler, signal_error, new_signaler}
use live_migration_operator.ApiServer.Server.{Server, new_server, Move}

-- Where the goroutine that calls `Start` stands.
pub data Main : Type 0 where
  not_called syncing waiting : Main
  returned : Option String → Main
  -- the process panicked
  crashed : Main

pub data Cache : Type 0 where
  unstarted caching cached : Cache

-- The fields that change, the channels by whether they are closed, and the goroutines. The fields
-- `internalStop` and `internalStopper` are the two ends of one channel. A nil
-- signaler is one that is not read before the first call sets it.
pub record Manager : Type 0 where
  pub main : Main
  pub started : Bool
  -- the argument of the latest call
  pub stop : Bool
  pub internal_stop : Bool
  pub err_signal : ErrSignaler
  pub cache : Cache
  -- of all calls, the oldest first
  pub servers : List Server

abbrev pub new_manager : Manager
new_manager = record {
  main = not_called;
  started = false;
  stop = false;
  internal_stop = false;
  err_signal = new_signaler;
  cache = unstarted;
  servers = [];
}

-- `Start` can be called.
abbrev pub Callable : Main → Type 0
Callable not_called = Unit
Callable (returned _) = Unit
Callable _ = ⊥

-- A server is made and started, and `Start` waits.
abbrev pub with_server : Manager → Manager
with_server m = record m { main = waiting; servers = m.servers ++ (new_server ∷ []) }

-- The beginning of `Start`, with a new channel as its argument.
unfoldable pub begun : Manager → Manager
begun m =
    let m : Manager = record m { err_signal = new_signaler; stop = false } in
    if m.started then with_server m else record m { main = syncing; cache = caching }

-- A goroutine signals an error, if there is one.
unfoldable pub signalled : Option String → Manager → Manager
unfolding signal_error
signalled none m = m
signalled (some e) m = elim (signal_error (some e) m.err_signal) [
  | none ↦ record m { main = crashed }
  | some r ↦ record m { err_signal = r }
]

-- `Start` returns, and the deferred call closes the channel, which panics on a closed one.
unfoldable pub leave : Option String → Manager → Manager
leave r m =
    if m.internal_stop
    then record m { main = crashed }
    else record m { main = returned r; internal_stop = true }

pub data Step (m : Manager) : Manager → Type 0 where
  called : Callable m.main → Step m (begun m)
  -- WaitForCacheSync returns
  synced : m.main ≡ syncing → Step m (with_server (record m { started = true }))
  cache_ends :
      (e : Option String)
      → m.main ≢ crashed
      → m.cache ≡ caching
      → Step m (signalled e (record m { cache = cached }))
  stop_closed : m.main ≢ crashed → Step m (record m { stop = true })
  leaves_stopped : m.main ≡ waiting → m.stop ≡ true → Step m (leave none m)
  leaves_failed : m.main ≡ waiting → m.err_signal.closed ≡ true → Step m (leave m.err_signal.err m)
  serves :
      (before after : List Server) (s t : Server) (e : Option String)
      → m.main ≢ crashed
      → m.servers ≡ before ++ (s ∷ after)
      → Move m.internal_stop s t e
      → Step m (signalled e (record m { servers = before ++ (t ∷ after) }))

-- Any number of steps, in any order.
pub data Steps (m : Manager) : Manager → Type 0 where
  none_yet : Steps m m
  further : {n o : Manager} → Steps m n → Step n o → Steps m o
