-- ===== src/Migrate/Pod.antt =====
-- `MigratePod` and `MigratePodPipelined` of controllers/migrate.go.
use live_migration_operator.Base.{ℕ, String, Bool, true, false, List, [], Option, none, some}
use live_migration_operator.Go.{
  ret, panic, block, poll, call, Result, ok, err, Outcome, done, panicked, blocked, polling, ◌>>=◌,
  ◌>>◌, run,
}
use live_migration_operator.Go.Fork.{Fork, setup, run_fork, result}
use live_migration_operator.Go.Beside.{Turn, run_beside}
use live_migration_operator.Kube.{
  Call, Error, remove_all, mkdir_all, chown_self, read_dir, kube, Op, ask, Cluster,
}
use live_migration_operator.Utils.Pods.{Container, print_container_ids}
use live_migration_operator.Checkpoint.{
  terminate_checkpointed_pod, checkpoint_pod_crio, checkpoint_workers,
}
use live_migration_operator.Migrate.Upload.{migrate_checkpoint_parallelized}

abbrev pub checkpoints_dir : String
checkpoints_dir = "/tmp/checkpoints/checkpoints"

-- An error leaves the slice nil.
abbrev pub or_nil : Result (List Container) → List Container
or_nil (ok containers) = containers
or_nil (err _) = []

-- `MigratePod`, up to the goroutines of the upload and what follows them.
unfoldable pub migrate_pod : ℕ → String → String → Fork kube (Option Error)
migrate_pod fuel pod_name namespace = setup do
  containers ← print_container_ids namespace
  ask (remove_all checkpoints_dir)
  e ← ask (mkdir_all checkpoints_dir 0o777)
  elim e [
    | some e ↦ ret ([], ret (some e))
    | none ↦ do
      checkpoint_pod_crio (or_nil containers) namespace pod_name
      ask (chown_self checkpoints_dir)
      terminate_checkpointed_pod fuel pod_name namespace
      (files, _) ← ask (read_dir checkpoints_dir)
      (workers, after) ← migrate_checkpoint_parallelized files checkpoints_dir namespace
      ret (workers, (do after; ret none))
  ]

abbrev no_error : Option Error → Bool
no_error none = true
no_error (some _) = false

-- The end of stage 1: whether the folder's path is sent to stage 2.
unfoldable pub send_path : Op Bool
send_path = do e ← ask (chown_self checkpoints_dir); ret (no_error e)

-- The workers of a stage, and what follows them.
abbrev pub Plan : Type 0
Plan = List (Op Unit) × Op Bool

-- An error ends the stage with nothing sent.
abbrev pub or_stop : Option Error → Op Plan → Op Plan
or_stop none rest = rest
or_stop (some _) rest = ret ([], ret false)

-- Stage 1 of `MigratePodPipelined`.
unfoldable pub stage_one : List Container → String → String → Fork kube Bool
stage_one containers pod_name namespace = setup do
  e ← ask (remove_all checkpoints_dir)
  or_stop e do
    e ← ask (mkdir_all checkpoints_dir 0o777)
    or_stop e (ret (checkpoint_workers containers namespace pod_name, send_path))

-- Stage 2, for the path that was sent: whether the path is handed on to stage 3.
unfoldable pub stage_two : String → Fork kube Bool
stage_two namespace = setup do
  (files, e) ← ask (read_dir checkpoints_dir)
  or_stop e do
    (workers, after) ← migrate_checkpoint_parallelized files checkpoints_dir namespace
    ret (workers, (do after; ret true))

-- Stage 3: an error of the removal is only logged.
unfoldable pub clean_up : Op (Option Error)
clean_up = do ask (remove_all checkpoints_dir); ret none

-- Stage 3 begins when the pod's termination has returned, and waits for stage 2.
unfoldable pub stage_three :
    Cluster → Op (Option Error) → Outcome Bool → List Call → Outcome (Option Error) × List Call
unfolding clean_up
stage_three w panic two tr = (panicked, tr)
stage_three w p panicked tr = (panicked, tr)
stage_three w poll two tr = (polling, tr)
stage_three w block two tr = (blocked, tr)
stage_three w (call _ _) two tr = (blocked, tr)
stage_three w (ret (some e)) two tr = (done (some e), tr)
stage_three w (ret none) (done true) tr = run w clean_up tr
stage_three w (ret none) (done false) tr = (done none, tr)
stage_three w (ret none) blocked tr = (blocked, tr)
stage_three w (ret none) polling tr = (polling, tr)

module _ (w : Cluster) (fuel : ℕ) (pod_name namespace : String) where
  -- What follows stage 1: the termination of the pod, beside stage 2 if a path was sent.
  unfoldable pub after_stage_one :
      Outcome Bool → List Turn → List Call → Outcome (Option Error) × List Call
  unfolding stage_three
  after_stage_one (done true) turns tr =
      let (p, two, tr') =
        run_beside w turns (terminate_checkpointed_pod fuel pod_name namespace)
          (stage_two namespace) tr in
      stage_three w p (result two) tr'
  after_stage_one (done false) turns tr =
      run w (terminate_checkpointed_pod fuel pod_name namespace) tr
  after_stage_one panicked turns tr = (panicked, tr)
  after_stage_one blocked turns tr = (blocked, tr)
  after_stage_one polling turns tr = (polling, tr)

  -- `MigratePodPipelined`, under a schedule for stage 1 and one for what runs beside stage 2.
  unfoldable pub migrate_pod_pipelined :
      List ℕ → List Turn → List Call → Outcome (Option Error) × List Call
  unfolding after_stage_one
  migrate_pod_pipelined schedule turns tr =
      let (containers, tr') = run w (print_container_ids namespace) tr in
      elim containers [
        | done containers ↦
            let (one, tr'') =
              run_fork w schedule (stage_one (or_nil containers) pod_name namespace) tr' in
            after_stage_one (result one) turns tr''
        | panicked ↦ (panicked, tr')
        | blocked ↦ (blocked, tr')
        | polling ↦ (polling, tr')
      ]
