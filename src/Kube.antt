-- ===== src/Kube.antt =====
-- What the operator asks of the world outside: commands of the host, its file system, the
-- Kubernetes API and the clock. Each call is one constructor; its reply is what the Go call
-- returns, an error as `some` text beside the value.
pub mod Objects
pub mod Maps
use live_migration_operator.Base.{ℕ, Bool, String, List, Option}
use live_migration_operator.Go.{Interface, Prog, ret, call, World}
use live_migration_operator.Kube.Objects.{Dict, Pod, Service}
use live_migration_operator.Api.{LiveMigration}

abbrev pub Error : Type 0
Error = String

-- What a `watch.Interface` delivers.
pub data WatchEvent : Type 0 where
  added modified deleted bookmark watch_error : WatchEvent

-- Which channel of a `select` over a timeout and a ticker is ready.
pub data Tick : Type 0 where
  timed_out ticked : Tick

-- What the select over the channels of the file watcher and of the context receives.
pub data FileEvent : Type 0 where
  -- an event with the bit of `fsnotify.Create`, and the path
  created : String → FileEvent
  -- an event without it
  touched : String → FileEvent
  watch_failed : Error → FileEvent
  -- the context is done
  cancelled : FileEvent

-- Which of the channels that `Reconcile` waits for is received from.
pub data Signal : Type 0 where
  source_pod_detected migration_done : Signal

pub data Call : Type 0 where
  -- os.Getenv
  getenv : String → Call
  -- os.ExpandEnv, which reads the environment
  expand_env : String → Call
  -- os.Stat
  stat : String → Call
  -- clientcmd.BuildConfigFromFlags, by the path of the kubeconfig
  build_config : String → Call
  -- rest.InClusterConfig
  in_cluster_config : Call
  -- kubernetes.NewForConfig
  new_clientset : Call
  -- the LiveMigration object of a namespace and a name
  get_migration : String → String → Call
  -- the pods of a namespace with the labels
  list_children : String → Dict → Call
  -- fsnotify.NewWatcher
  new_watcher : Call
  -- Watcher.Add
  add_watch : String → Call
  -- the select of the goroutine that watches files
  next_file_event : Call
  -- a select over `ctx.Done()` with a default: whether the context is done
  poll_done : Call
  -- the select over the channels `sourcePodDetected` and `migrationDone`; `none` says that no
  -- goroutine ever sends to either
  select_signal : Call
  -- cancel(), of the context
  cancel : Call
  -- a command and its arguments; the reply is its output
  exec : List String → Call
  chmod : String → ℕ → Call
  -- os.Chown(path, os.Getuid(), os.Getgid())
  chown_self : String → Call
  remove_all : String → Call
  mkdir_all : String → ℕ → Call
  -- the names of the entries
  read_dir : String → Call
  -- DirEntry.Info, which gives the file's name once more
  entry_info : String → Call
  get_pod : String → String → Call
  list_pods : String → Call
  create_pod : String → Pod → Call
  update_pod : Pod → Call
  delete_pod : String → String → Call
  -- a watch on the pods of a namespace, under a field selector
  watch_pods : String → String → Call
  -- a receive on the channel of the watch; `none` says that it is closed
  next_event : Call
  get_service : String → String → Call
  create_service : String → Service → Call
  -- a `select` over a timeout and a ticker, both in seconds
  select_tick : ℕ → ℕ → Call
  sleep : ℕ → Call

abbrev pub Reply : Call → Type 0
Reply (getenv _) = String
Reply (expand_env _) = String
Reply (stat _) = Option Error
Reply (build_config _) = Option Error
Reply in_cluster_config = Option Error
Reply new_clientset = Option Error
Reply (get_migration _ _) = LiveMigration × Option Error
Reply (list_children _ _) = List Pod × Option Error
Reply new_watcher = Option Error
Reply (add_watch _) = Option Error
Reply next_file_event = FileEvent
Reply poll_done = Bool
Reply select_signal = Option Signal
Reply cancel = Unit
Reply (exec _) = String × Option Error
Reply (chmod _ _) = Option Error
Reply (chown_self _) = Option Error
Reply (remove_all _) = Option Error
Reply (mkdir_all _ _) = Option Error
Reply (read_dir _) = List String × Option Error
Reply (entry_info _) = String × Option Error
Reply (get_pod _ _) = Pod × Option Error
Reply (list_pods _) = List Pod × Option Error
Reply (create_pod _ _) = Pod × Option Error
Reply (update_pod _) = Option Error
Reply (delete_pod _ _) = Option Error
Reply (watch_pods _ _) = Option Error
Reply next_event = Option WatchEvent
Reply (get_service _ _) = Service × Option Error
Reply (create_service _ _) = Option Error
Reply (select_tick _ _) = Tick
Reply (sleep _) = Unit

abbrev pub kube : Interface
kube = record { Call = Call; Reply = Reply }

-- Code of the operator.
abbrev pub Op : Type 0 → Type 0
Op A = Prog kube A

abbrev pub Cluster : Type 0
Cluster = World kube

abbrev pub ask : (c : Call) → Op (Reply c)
ask c = call c ret
