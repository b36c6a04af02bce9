-- ===== src/Lib.antt =====
-- A verification library for the live-migration operator: a Kubernetes controller that
-- checkpoints the containers of a pod, sends the archives to another node and restores the pod
-- there.
--
-- The parts. The controller calls the migration pipeline (controllers/migrate.go), which lists
-- the containers (controllers/utils/utils.go), requests their checkpoints
-- (controllers/checkpoint.go, controllers/crio.go), uploads the archives and a marker file to
-- the receiving pod, and deletes the pod. The receiving side restores a pod from the archives
-- (controllers/restore.go, processFile of controllers/livemigration.go). For an object,
-- Reconcile prepares the annotations and the labels (controllers/helpers.go) and starts a
-- goroutine that looks for the source pod and migrates, and one that watches the file system and
-- restores when the marker file arrives. The API server (api-server) creates and lists the
-- LiveMigration objects.
--
-- Go code is a value of `Prog` (Go.antt): its calls of the world outside, in order, each with
-- what is done with the reply, or a return, a panic, an operation on a channel that never
-- completes, or a polling loop at the end of its fuel. A world answers every call by the calls
-- before it, so a theorem about all worlds is about all replies. Goroutines are interleaved call
-- by call under a schedule, a list of the numbers of the goroutines that make the next call
-- (Go/Weave.antt, Go/Fork.antt, Go/Beside.antt); most theorems are about all schedules. What
-- goroutines share without a lock is a memory that is read and written by calls
-- (Restore/Parallel.antt). The manager of the API server, whose goroutines meet at channels, is
-- a step relation (ApiServer/Manager.antt).
--
-- - Kube.antt, Kube/Objects.antt: the commands of the host, the file system, the Kubernetes API
--   and the clock, as calls; the API's objects with the fields that are read or written.
-- - Utils/PodName.antt, Utils/ContainerName.antt, Utils/Pods.antt, Utils/Services.antt:
--   controllers/utils/utils.go (RetrievePodName, RetrieveContainerName, the helpers on pods, the
--   helpers on the service).
-- - Checkpoint.antt: CheckpointPodCrio of controllers/crio.go, CheckpointPodPipelined and
--   TerminateCheckpointedPod of controllers/checkpoint.go.
-- - Migrate/Upload.antt, Migrate/Pod.antt: controllers/migrate.go.
-- - Restore.antt, Restore/ProcessFile.antt, Restore/Sequential.antt, Restore/Pipelined.antt,
--   Restore/Parallel.antt: controllers/restore.go and processFile of
--   controllers/livemigration.go.
-- - Kube/Maps.antt: Go's maps from texts to texts.
-- - Reconcile/Builders.antt: controllers/helpers.go. Reconcile/Prepare.antt: Reconcile of
--   controllers/livemigration.go on its own goroutine; Reconcile/Goroutines.antt: the two
--   goroutines that it starts; Reconcile/Snapshot.antt: RemoveCheckpointPod, updateAnnotations
--   and NewKubernetesClient.
-- - Api.antt: api/v1alpha1/livemigration_types.go, the LiveMigration object.
-- - ApiServer/Types.antt, ApiServer/ListAll.antt, ApiServer/Create.antt: api-server/endpoints;
--   ApiServer/Signal.antt: api-server/signals.go; ApiServer/Server.antt: api-server/server.go;
--   ApiServer/Manager.antt: api-server/manager.go, a step relation on the fields of the manager
--   and its goroutines.
-- - Dummy.antt: controllers/dummy/dummy.go, the receiving pod and the service in front of it.
-- - Startup.antt: main.go.
-- - FileHandler.antt: file-handler/file-handler.go, the server in the receiving pod.
-- - Examples: concrete clusters and runs.
--
-- Fuel. The loops that poll (WaitForPodDeletion over the events of a watch,
-- WaitForContainerReady over ticks, WaitForServiceReady over rounds, the wait of
-- RemoveCheckpointPod, and the two goroutines of Reconcile over their rounds and events) have no
-- bound in the code. Their fuel bounds the rounds; running out of it is the outcome `polling`,
-- which no return value can be mistaken for. A watch that delivers the deletion as its event of
-- number n needs the fuel n + 1.
--
-- The two channels that Reconcile waits for at its end are answered by the world like a call
-- (`select_signal`), which says whether one of them ever delivers.
--
-- Not modelled: log lines and printing, which no reply depends on; how a context comes to be
-- cancelled; the generated deep copies and the registration of types; the interleaving of the
-- goroutines of Reconcile with each other; torn writes of the slice and the text that the
-- goroutines of BuildahRestoreParallelized share, and arrays that two of its slices share. Texts
-- are compared and lowered (strings.ToLower) on ASCII letters, but for the comparison of methods
-- (strings.EqualFold), which folds the two other characters that fold to ASCII letters.
pub mod Base
pub mod Go
pub mod Kube
pub mod Api
pub mod Utils
pub mod Checkpoint
pub mod Migrate
pub mod Restore
pub mod ApiServer
pub mod Dummy
pub mod FileHandler
pub mod Reconcile
pub mod Startup
pub mod Examples
