-- ===== src/Migrate/Completion.antt =====
-- `MigratePodPipelined` comes to its end, from whatever its goroutines have done so far.
use live_migration_operator.Base.{
  ℕ, String, Bool, true, false, List, [], ◌∷◌, ◌++◌, ◌≡◌, refl, ap, ◌∙◌, Option, none,
}
use live_migration_operator.Go.{ret, panic, block, poll, call, Outcome, done, run}
use live_migration_operator.Go.Fork.{Fork, setup, run_fork, result}
use live_migration_operator.Go.Progress.{Returns, after_call}
use live_migration_operator.Go.Progress.Finish.{can_finish}
use live_migration_operator.Go.Beside.{Turn}
use live_migration_operator.Go.Beside.Progress.{both_can_finish}
use live_migration_operator.Kube.{Call, Error, kube, get_pod, delete_pod, list_pods, Op, Cluster}
use live_migration_operator.Utils.Pods.{print_container_ids}
use live_migration_operator.Checkpoint.{terminate_checkpointed_pod}
use live_migration_operator.Checkpoint.Laws.{run-terminate}
use live_migration_operator.Migrate.Upload.{migrate_checkpoint_parallelized}
use live_migration_operator.Migrate.Pod.{
  stage_one, stage_two, stage_three, after_stage_one, migrate_pod_pipelined,
}
use live_migration_operator.Migrate.Safety.{beside-Deletes, listed}
use live_migration_operator.Migrate.Progress.{
  HasPort, DeletionSeen, stage_one-Good, stage_two-Good, terminate-Returns,
  migrate_checkpoint_parallelized-Always,
}

run-Returns :
    {A : Type 0} (w : Cluster) (p : Op A) (tr : List Call)
    → Returns w p tr
    → (a : A) × (final : List Call) × (run w p tr ≡ (done a, final))
unfolding run
run-Returns w (ret a) tr h = (a, tr, refl)
run-Returns w (call c k) tr h =
    run-Returns w (k (w tr c)) (tr ++ c ∷ []) (after_call w (λ _ _. Unit) c k tr h)
run-Returns w panic tr h = absurd h
run-Returns w block tr h = absurd h
run-Returns w poll tr h = absurd h

abbrev Ended : Type 0
Ended = Outcome (Option Error) × List Call

module _ (w : Cluster) (namespace pod_name : String) where
  -- However the goroutines of `MigrateCheckpointParallelized` were scheduled so far, they can go on
  -- to the end, if the receiving pod's service has a port.
  pub marker_can_be_sent :
      (files : List String) (dir : String) (schedule : List ℕ) (tr : List Call)
      → HasPort w namespace pod_name
      → (more : List ℕ) × (e : Option Error) × (result
            (run_fork w
              (schedule ++ more)
              (setup (migrate_checkpoint_parallelized files dir namespace))
              tr).0
          ≡ done e)
  marker_can_be_sent files dir schedule tr h =
      can_finish w schedule (setup (migrate_checkpoint_parallelized files dir namespace)) tr
        (migrate_checkpoint_parallelized-Always w namespace pod_name files dir tr h)

  module _ (fuel : ℕ) where
    -- `TerminateCheckpointedPod` returns with no error and has got the pod and then requested its
    -- deletion, if the watch is accepted and delivers the deletion or is closed among its next
    -- events, as many as the fuel.
    pub terminate_checkpointed_pod_deletes :
        (tr : List Call)
        → DeletionSeen w namespace pod_name fuel
        → (rest : List Call) × (run w (terminate_checkpointed_pod fuel pod_name namespace) tr ≡ (
          done none,
          tr ++ (get_pod namespace pod_name ∷ delete_pod namespace pod_name ∷ rest),
        ))
    terminate_checkpointed_pod_deletes tr seen =
        let (e, final, q) =
          run-Returns w (terminate_checkpointed_pod fuel pod_name namespace) tr
            (terminate-Returns w namespace pod_name fuel tr seen) in
        let (e_none, rest, final_eq) = run-terminate w namespace pod_name fuel tr e final q in
        (rest, q ∙ rw (e_none, final_eq))

    stage_three_returns :
        (p : Op (Option Error)) (two : Outcome Bool) (sent : Bool) (tr : List Call)
        → p ≡ ret none
        → two ≡ done sent
        → (final : List Call) × (stage_three w p two tr ≡ (done none, final))
    unfolding stage_three run
    stage_three_returns p two true tr q r = rw (q, r) (_, refl)
    stage_three_returns p two false tr q r = rw (q, r) (_, refl)

    after_stage_one_returns :
        (sent : Bool) (turns : List Turn) (tr : List Call)
        → HasPort w namespace pod_name
        → DeletionSeen w namespace pod_name fuel
        → (more : List Turn) × (final : List Call) × (after_stage_one w fuel pod_name namespace
              (done sent)
              (turns ++ more)
              tr
            ≡ (done none, final))
    unfolding after_stage_one
    after_stage_one_returns true turns tr port seen =
        let (more, e, sent, ended, two) =
          both_can_finish w turns (terminate_checkpointed_pod fuel pod_name namespace)
            (stage_two namespace) tr (terminate-Returns w namespace pod_name fuel tr seen)
            (stage_two-Good w namespace pod_name tr port) in
        let (e_none, _) =
          beside-Deletes w fuel pod_name namespace (turns ++ more) (stage_two namespace) tr e
            ended in
        let (final, q) = stage_three_returns _ _ sent _ (ended ∙ ap ret e_none) two in
        (more, final, q)
    after_stage_one_returns false turns tr port seen =
        let (rest, q) = terminate_checkpointed_pod_deletes tr seen in ([], _, q)

    -- However stage 1 and what runs beside stage 2 were scheduled so far, the function can go on
    -- to its end, and returns no error, if the receiving pod's service has a port, and if the
    -- watch is accepted and delivers the deletion or is closed among its next events, as many as
    -- the fuel.
    pub migrate_pod_pipelined_can_return :
        (schedule : List ℕ) (turns : List Turn) (tr : List Call)
        → HasPort w namespace pod_name
        → DeletionSeen w namespace pod_name fuel
        → (more : List ℕ) × (more_turns : List Turn) × (final : List Call) × (migrate_pod_pipelined
              w fuel pod_name namespace
              (schedule ++ more)
              (turns ++ more_turns)
              tr
            ≡ (done none, final))
    unfolding migrate_pod_pipelined print_container_ids run
    migrate_pod_pipelined_can_return schedule turns tr port seen =
        let f : Fork kube Bool = stage_one (listed w namespace tr) pod_name namespace in
        let tr' : List Call = tr ++ list_pods namespace ∷ [] in
        let (more, sent, one) =
          can_finish w schedule f tr'
            (stage_one-Good w namespace pod_name (listed w namespace tr) tr') in
        let (more_turns, final, q) =
          after_stage_one_returns sent turns (run_fork w (schedule ++ more) f tr').1 port seen in
        (
          more,
          more_turns,
          final,
          ap
                (λ o.
                  after_stage_one w fuel pod_name namespace o (turns ++ more_turns)
                    (run_fork w (schedule ++ more) f tr').1)
                one
              ∙ q,
        )
