-- ===== src/Reconcile/Goroutines.antt =====
-- The two goroutines that `Reconcile` of controllers/livemigration.go starts.
pub mod Laws
pub mod Template
pub mod Marker
use live_migration_operator.Base.{
  ℕ, zero, suc, String, true, false, List, Option, none, some, ◌&&◌, contains, if◌then◌else◌,
}
use live_migration_operator.Go.{
  ret, poll, Outcome, done, panicked, blocked, polling, ◌>>=◌, ◌>>◌, run,
}
use live_migration_operator.Go.Beside.{Turn}
use live_migration_operator.Base.{Bool}
use live_migration_operator.Kube.{Error}
use live_migration_operator.Kube.{
  Call, FileEvent, created, touched, watch_failed, cancelled, next_file_event, poll_done, sleep, Op,
  ask, Cluster,
}
use live_migration_operator.Kube.Objects.{Dict, Pod}
use live_migration_operator.Kube.Maps.{at}
use live_migration_operator.Utils.Pods.{check_pod_exist}
use live_migration_operator.Migrate.Pod.{migrate_pod_pipelined}
use live_migration_operator.Restore.Pipelined.{buildah_restore_pipelined}

-- The marker file has been created.
abbrev pub is_marker : String → Bool
is_marker name = contains "/checkpoints/" name && contains "dummy" name

-- What the goroutine that watches files does for an event; `rest` is the rest of its loop. The
-- result of a restore is only logged.
abbrev pub on_event : FileEvent → String → Op Unit → Op Unit
on_event (created name) namespace rest =
    if is_marker name then (do buildah_restore_pipelined "/checkpoints/" namespace; rest) else rest
on_event (touched _) namespace rest = rest
on_event (watch_failed _) namespace rest = rest
on_event cancelled namespace rest = ret tt

-- The goroutine that watches files. The fuel bounds the events.
unfoldable pub event_loop : ℕ → String → Op Unit
event_loop zero namespace = poll
event_loop (suc fuel) namespace =
    let rest = event_loop fuel namespace in
    do event ← ask next_file_event; on_event event namespace rest

-- The loop of the goroutine that looks for the source pod: the pod, or `none` where the goroutine
-- returns. The fuel bounds the rounds.
unfoldable pub source_loop : ℕ → Dict → String → Op (Option Pod)
source_loop zero annotations namespace = poll
source_loop (suc fuel) annotations namespace =
    let rest = source_loop fuel annotations namespace in
    do
      cancelled_now ← ask poll_done
      elim cancelled_now [
        | true ↦ ret none
        | false ↦ do
          (pod, e) ← check_pod_exist (at "sourcePod" annotations) namespace
          elim e [
            | some _ ↦ ret none
            | none ↦ elim pod [ some pod ↦ ret (some pod) | none ↦ do ask (sleep 5); rest ]
          ]
      ]

-- The result of the migration is only logged.
abbrev pub drop_result : Outcome (Option Error) × List Call → Outcome Unit × List Call
drop_result (done _, tr) = (done tt, tr)
drop_result (panicked, tr) = (panicked, tr)
drop_result (blocked, tr) = (blocked, tr)
drop_result (polling, tr) = (polling, tr)

module _ (w : Cluster) (fuel : ℕ) (object_name namespace : String) (schedule : List ℕ)
    (turns : List Turn) where
  -- The pod that is migrated is the one named like the object.
  abbrev pub migrate_found : Outcome (Option Pod) × List Call → Outcome Unit × List Call
  migrate_found (done (some _), tr) =
      drop_result (migrate_pod_pipelined w fuel object_name namespace schedule turns tr)
  migrate_found (done none, tr) = (done tt, tr)
  migrate_found (panicked, tr) = (panicked, tr)
  migrate_found (blocked, tr) = (blocked, tr)
  migrate_found (polling, tr) = (polling, tr)

  -- The goroutine that looks for the source pod. The fuel bounds the rounds, and the events of the
  -- watch on the deletion.
  unfoldable pub source_goroutine : Dict → List Call → Outcome Unit × List Call
  unfolding source_loop
  source_goroutine annotations tr =
      migrate_found (run w (source_loop fuel annotations namespace) tr)
