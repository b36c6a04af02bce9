-- ===== src/Migrate/Failures.antt =====
-- `MigratePodPipelined` when its checkpoint folder cannot be emptied.
use live_migration_operator.Base.{
  ℕ, String, Bool, false, List, [], ◌∷◌, ◌++◌, ◌≡◌, refl, ap, ◌∙◌, sym, All, Option, none, some,
  arith,
}
use live_migration_operator.Go.{ret, ◌>>=◌, Outcome, done, run}
use live_migration_operator.Go.Weave.{weave}
use live_migration_operator.Go.Fork.{run_fork, result}
use live_migration_operator.Go.Fork.Phases.{run_setup, Rest}
use live_migration_operator.Go.Beside.{Turn}
use live_migration_operator.Kube.{
  Call, Error, get_pod, delete_pod, list_pods, remove_all, Op, ask, Cluster,
}
use live_migration_operator.Utils.Pods.{Container, print_container_ids}
use live_migration_operator.Checkpoint.{terminate_checkpointed_pod}
use live_migration_operator.Checkpoint.Laws.{Watches, run-terminate_watching}
use live_migration_operator.Migrate.Pod.{
  checkpoints_dir, Plan, or_stop, stage_one, after_stage_one, migrate_pod_pipelined,
}
use live_migration_operator.Migrate.Safety.{after_stage_one_done, listed, stage_one_run}

weave-nil : (w : Cluster) (schedule : List ℕ) (tr : List Call) → (weave w schedule [] tr).1 ≡ tr
unfolding weave
weave-nil w [] tr = refl
weave-nil w (i ∷ schedule) tr = weave-nil w schedule tr

-- A stage that was stopped made no call after its setup.
stopped-Rest :
    (w : Cluster) (sent : Bool) (ps : List (Op Unit)) (after : Op Bool) (tr final : List Call)
    → ps ≡ []
    → after ≡ ret false
    → Rest w sent ps after tr final
    → (final ≡ tr) × (sent ≡ false)
unfolding run
stopped-Rest w sent ps after tr final p q rest =
    let (schedule, joined, ended) = rw (p, q) at rest in
    (sym (ap (λ (r : Outcome Bool × List Call). r.1) ended) ∙ weave-nil w schedule tr, ground arith)

module _ (w : Cluster) (containers : List Container) (pod_name namespace : String) where
  refused_setup :
      (rest : Op Plan) (tr : List Call) (x : Error) (ps : List (Op Unit)) (after : Op Bool)
      (tr' : List Call)
      → w tr (remove_all checkpoints_dir) ≡ some x
      → run w (do e ← ask (remove_all checkpoints_dir); or_stop e rest) tr ≡ (done (ps, after), tr')
      → (ps ≡ []) × (after ≡ ret false) × (tr' ≡ tr ++ remove_all checkpoints_dir ∷ [])
  unfolding run
  refused_setup rest tr x ps after tr' refused h = ground arith

  stage_one_refused :
      (schedule : List ℕ) (tr : List Call) (x : Error) (sent : Bool)
      → w tr (remove_all checkpoints_dir) ≡ some x
      → result (run_fork w schedule (stage_one containers pod_name namespace) tr).0 ≡ done sent
      → ((run_fork w schedule (stage_one containers pod_name namespace) tr).1
          ≡ tr ++ remove_all checkpoints_dir ∷ [])
        × (sent ≡ false)
  unfolding stage_one
  stage_one_refused schedule tr x sent refused h =
      let (ps, after, tr', ran, rest) = run_setup w sent schedule _ tr h in
      let (ps_nil, stops, tr_eq) = refused_setup _ tr x ps after tr' refused ran in
      let (final_eq, not_sent) = stopped-Rest w sent ps after tr' _ ps_nil stops rest in
      (final_eq ∙ tr_eq, not_sent)

module _ (w : Cluster) (fuel : ℕ) (pod_name namespace : String) where
  after_refused :
      (one : Outcome Bool) (turns : List Turn) (tr tr' : List Call) (e : Option Error)
      (final : List Call)
      → one ≡ done false
      → tr' ≡ tr
      → after_stage_one w fuel pod_name namespace one turns tr' ≡ (done e, final)
      → run w (terminate_checkpointed_pod fuel pod_name namespace) tr ≡ (done e, final)
  unfolding after_stage_one
  after_refused one turns tr tr' e final p q h = rw (p, q) at h

  -- If the checkpoint folder cannot be emptied, then under every schedule, when the function
  -- returns it returns no error and has requested the deletion of the pod all the same, but no
  -- checkpoint: between the listing and the deletion it has only tried to empty the folder and got
  -- the pod, and behind the deletion it has only watched for it.
  pub pipelined_deletes_unsaved_pod :
      (schedule : List ℕ) (turns : List Turn) (tr : List Call) (x : Error) (e : Option Error)
      (final : List Call)
      → w (tr ++ list_pods namespace ∷ []) (remove_all checkpoints_dir) ≡ some x
      → migrate_pod_pipelined w fuel pod_name namespace schedule turns tr ≡ (done e, final)
      → (e ≡ none)
        × (rest : List Call) × (final
            ≡ ((tr ++ list_pods namespace ∷ []) ++ remove_all checkpoints_dir ∷ [])
              ++ (get_pod namespace pod_name ∷ delete_pod namespace pod_name ∷ rest))
        × All (Watches w namespace pod_name) rest
  unfolding migrate_pod_pipelined print_container_ids run
  pipelined_deletes_unsaved_pod schedule turns tr x e final refused h =
      let one = stage_one_run w pod_name namespace schedule tr in
      let listed_trace : List Call = tr ++ list_pods namespace ∷ [] in
      let (sent, one_eq, _, _) =
        after_stage_one_done w fuel pod_name namespace (result one.0) turns one.1 e final h in
      let (trace_eq, not_sent) =
        stage_one_refused w (listed w namespace tr) pod_name namespace schedule listed_trace x sent
          refused one_eq in
      run-terminate_watching w namespace pod_name fuel
        (listed_trace ++ remove_all checkpoints_dir ∷ []) e final
        (after_refused (result one.0) turns _ one.1 e final (one_eq ∙ ap done not_sent) trace_eq h)
