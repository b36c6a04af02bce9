-- ===== src/Checkpoint/Laws.antt =====
-- The calls that checkpointing and terminating a pod make.
use mathlib.Core.List.{Perm}
use live_migration_operator.Base.{
  ℕ, zero, suc, String, ◌<>◌, some, ◌⊎◌, inl, inr, All, List, [], ◌∷◌, ◌++◌, ◌≡◌, refl, ap, subst,
  append_assoc, append-nil, Option, none, map,
}
use live_migration_operator.Go.{ret, panic, ◌>>=◌, done, run}
use live_migration_operator.Go.Calls.{made, final_trace, done_of_ret, Only, All-made}
use live_migration_operator.Go.Weave.{Joined, weave, AllEmit, remaining, joined_calls}
use live_migration_operator.Kube.{
  Call, Error, WatchEvent, deleted, get_pod, delete_pod, watch_pods, next_event, Op, Cluster,
}
use live_migration_operator.Utils.Pods.{Container, deletion_loop, wait_for_pod_deletion}
use live_migration_operator.Checkpoint.{
  terminate_checkpointed_pod, checkpoint_call, checkpoint_pod_crio, checkpoint_workers,
}

module _ (w : Cluster) (namespace pod_name : String) where
  -- One checkpoint request for each container, in order.
  abbrev pub requests : List Container → List Call
  requests = map (λ container. checkpoint_call namespace pod_name container.name)

  -- `CheckpointPodCrio` requests the checkpoint of each container once, in order, whatever is
  -- answered, and returns no error.
  pub run-checkpoint_pod_crio :
      (containers : List Container) (tr : List Call)
      → run w (checkpoint_pod_crio containers namespace pod_name) tr
        ≡ (done none, tr ++ requests containers)
  unfolding checkpoint_pod_crio run
  run-checkpoint_pod_crio [] tr = rw append-nil
  run-checkpoint_pod_crio (c ∷ containers) tr = rw (
    run-checkpoint_pod_crio containers (tr ++ checkpoint_call namespace pod_name c.name ∷ []),
    append_assoc,
  )

  AllEmit-checkpoint_workers :
      (containers : List Container)
      → (css : List (List Call)) × AllEmit w (checkpoint_workers containers namespace pod_name) css
        × (remaining w css ≡ requests containers)
  unfolding checkpoint_workers
  AllEmit-checkpoint_workers [] = ([], tt, refl)
  AllEmit-checkpoint_workers (c ∷ containers) =
      let (css, emit, e) = AllEmit-checkpoint_workers containers in
      (
        (checkpoint_call namespace pod_name c.name ∷ []) ∷ css,
        (([], refl, λ tr. refl), emit),
        ap (λ l. checkpoint_call namespace pod_name c.name ∷ l) e,
      )

  -- When `Wait` returns in `CheckpointPodPipelined`, exactly the requests of `CheckpointPodCrio` have
  -- been made, in some order, whatever the schedule.
  pub checkpoint_workers-perm :
      (containers : List Container) (schedule : List ℕ) (tr : List Call)
      → Joined (weave w schedule (checkpoint_workers containers namespace pod_name) tr).0
      → (new : List Call) × ((weave w schedule
            (checkpoint_workers containers namespace pod_name)
            tr).1
          ≡ tr ++ new)
        × (Perm new (requests containers))
  checkpoint_workers-perm containers schedule tr j =
      let (css, emit, e) = AllEmit-checkpoint_workers containers in
      let (new, e', same) =
        joined_calls w schedule (checkpoint_workers containers namespace pod_name) css tr emit j in
      (new, e', subst (λ l. Perm new l) e same)

  -- The calls of the wait for the pod's deletion.
  abbrev pub Watches : Call → Type 0
  Watches c = (c ≡ watch_pods namespace ("metadata.name=" <> pod_name)) ⊎ (c ≡ next_event)

  deletion_loop-Watches :
      (fuel : ℕ) (rest : Option Error → Op (Option Error))
      → ((e : Option Error) → Only Watches (rest e))
      → Only Watches (deletion_loop fuel pod_name >>= rest)
  unfolding deletion_loop
  deletion_loop-Watches zero rest h = tt
  deletion_loop-Watches (suc fuel) rest h =
      (inr refl, after_event (deletion_loop-Watches fuel rest h))
    where
      after_event :
          Only Watches (deletion_loop fuel pod_name >>= rest)
          → (event : Option WatchEvent)
          → Only Watches (
              elim event [
                | none ↦ ret (some ("pod " <> pod_name <> " not found or already deleted"))
                | some deleted ↦ ret none
                | some _ ↦ deletion_loop fuel pod_name
              ]
              >>= rest)
      after_event again none = h _
      after_event again (some deleted) = h _
      after_event again (some _) = again

  wait-Watches :
      (fuel : ℕ)
      → Only Watches
          (◌>>=◌ {B = Option Error} (wait_for_pod_deletion fuel pod_name namespace) (λ _. ret none))
  unfolding wait_for_pod_deletion
  wait-Watches fuel = (inl refl, accepted)
    where
      accepted :
          (e : Option Error)
          → Only Watches (
              ◌>>=◌ {A = Option Error} {B = Option Error}
                (elim e [ some _ ↦ panic | none ↦ deletion_loop fuel pod_name ])
                (λ _. ret none))
      accepted (some _) = tt
      accepted none = deletion_loop-Watches fuel (λ _. ret none) (λ _. tt)

  -- `TerminateCheckpointedPod` that returns has deleted the pod, and returns no error.
  pub run-terminate :
      (fuel : ℕ) (tr : List Call) (e : Option Error) (final : List Call)
      → run w (terminate_checkpointed_pod fuel pod_name namespace) tr ≡ (done e, final)
      → (e ≡ none)
        × (rest : List Call) × (final
            ≡ tr ++ (get_pod namespace pod_name ∷ delete_pod namespace pod_name ∷ rest))
  unfolding terminate_checkpointed_pod run made
  run-terminate fuel tr e final h =
      let tr' : List Call =
        (tr ++ get_pod namespace pod_name ∷ []) ++ delete_pod namespace pod_name ∷ [] in
      let wait : Op (Option Error) = wait_for_pod_deletion fuel pod_name namespace in
      (
        done_of_ret w none wait tr' h,
        made w (wait >>= λ _. ret none) tr',
        final_trace w (terminate_checkpointed_pod fuel pod_name namespace) tr h,
      )

  -- What follows the deletion is the wait for it.
  pub run-terminate_watching :
      (fuel : ℕ) (tr : List Call) (e : Option Error) (final : List Call)
      → run w (terminate_checkpointed_pod fuel pod_name namespace) tr ≡ (done e, final)
      → (e ≡ none)
        × (rest : List Call) × (final
            ≡ tr ++ (get_pod namespace pod_name ∷ delete_pod namespace pod_name ∷ rest))
        × All Watches rest
  unfolding terminate_checkpointed_pod run made
  run-terminate_watching fuel tr e final h =
      let tr' : List Call =
        (tr ++ get_pod namespace pod_name ∷ []) ++ delete_pod namespace pod_name ∷ [] in
      let wait : Op (Option Error) = wait_for_pod_deletion fuel pod_name namespace in
      (
        done_of_ret w none wait tr' h,
        made w (wait >>= λ _. ret none) tr',
        final_trace w (terminate_checkpointed_pod fuel pod_name namespace) tr h,
        All-made Watches w (wait >>= λ _. ret none) tr' (wait-Watches fuel),
      )
