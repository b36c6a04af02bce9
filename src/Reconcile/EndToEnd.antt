-- ===== src/Reconcile/EndToEnd.antt =====
-- From an object that the API server created to the deletion of a pod.
use live_migration_operator.Base.{
  ℕ, suc, String, List, [], ◌∷◌, ◌++◌, ◌≡◌, sym, subst, Option, none, to_lower, false,
}
use live_migration_operator.Go.{Result, done, run}
use live_migration_operator.Go.Beside.{Turn}
use live_migration_operator.Api.{LiveMigration}
use live_migration_operator.ApiServer.Types.{Livemigration}
use live_migration_operator.ApiServer.Create.{object_for, prepare as checked}
use live_migration_operator.Kube.{Call, Error, poll_done, get_pod, Cluster}
use live_migration_operator.Kube.Objects.{Dict, ObjectMeta}
use live_migration_operator.Kube.Maps.{at}
use live_migration_operator.Migrate.Safety.{Deletes}
use live_migration_operator.Reconcile.Prepare.{ready, prepare}
use live_migration_operator.Reconcile.Prepare.Created.{Reachable, Stored, created_object_goes_on}
use live_migration_operator.Reconcile.Goroutines.{source_goroutine}
use live_migration_operator.Reconcile.Goroutines.Laws.{source_goroutine-Deletes}

module _ (w : Cluster) (fuel : ℕ) (body : Livemigration) (schedule : List ℕ)
    (turns : List Turn) where
  -- The goroutine that is started on these annotations asks for the body's source pod and, if it is
  -- not cancelled, has deleted the pod with the body's own name when it returns.
  abbrev pub DeletesNamesake : Dict → String → Type 0
  DeletesNamesake annotations namespace =
      (tr final : List Call)
      → w tr poll_done ≡ false
      → source_goroutine w (suc fuel) body.name namespace schedule turns annotations tr
        ≡ (done tt, final)
      → Deletes w (suc fuel) body.name namespace
          ((tr ++ poll_done ∷ []) ++ get_pod namespace body.source_pod ∷ []) final

  goroutine-DeletesNamesake :
      (annotations : Dict) (namespace : String)
      → at "sourcePod" annotations ≡ body.source_pod
      → ((tr : List Call) (namespace : String)
          → (w tr (get_pod namespace body.source_pod)).1 ≡ none)
      → DeletesNamesake annotations namespace
  goroutine-DeletesNamesake annotations namespace source got tr final on finished =
      subst
        (λ pod.
          Deletes w (suc fuel) body.name namespace
            ((tr ++ poll_done ∷ []) ++ get_pod namespace pod ∷ []) final)
        source
        (source_goroutine-Deletes w annotations namespace body.name schedule turns fuel tr final on
          (subst (λ pod. (w (tr ++ poll_done ∷ []) (get_pod namespace pod)).1 ≡ none) (sym source)
            (got (tr ++ poll_done ∷ []) namespace))
          finished)

  -- Of the object that the API server creates for a body, `Reconcile` goes on to its goroutines, if
  -- the cluster can be reached, reading the object gives it back, its child pods can be listed, its
  -- owner can be set and its source pod can be got. The annotations have the body's source pod and
  -- path, and its action in lower case. The goroutine that looks for the source pod gets that pod
  -- and, if it is not cancelled, has then requested the deletion of the pod named like the object
  -- when it returns.
  pub created_object-DeletesNamesake :
      (set_owner : LiveMigration → ObjectMeta → Result String)
      (ignore_not_found : Error → Option Error) (req_namespace : String) (tr : List Call)
      → Reachable set_owner ignore_not_found w
      → Stored set_owner ignore_not_found w req_namespace body
      → (annotations : Dict) × (namespace : String) × (final : List Call) × (run w
            (prepare set_owner ignore_not_found (suc fuel) req_namespace body.name)
            tr
          ≡ (done (ready (object_for (checked body)) annotations namespace), final))
        × (at "sourcePod" annotations ≡ body.source_pod)
        × (at "snapshotPolicy" annotations ≡ to_lower body.action)
        × (at "snapshotPath" annotations ≡ body.snapshot_path)
        × DeletesNamesake annotations namespace
  created_object-DeletesNamesake set_owner ignore_not_found req_namespace tr reach stored =
      let (annotations, namespace, final, e, source, policy, path) =
        created_object_goes_on set_owner ignore_not_found w (suc fuel) req_namespace body tr reach
          stored in
      (
        annotations,
        namespace,
        final,
        e,
        source,
        policy,
        path,
        goroutine-DeletesNamesake annotations namespace source stored.1,
      )
