-- ===== src/Reconcile/Goroutines/Template.antt =====
-- A LiveMigration object that brings its own template.
use live_migration_operator.Base.{
  ℕ, suc, String, List, [], ◌∷◌, ◌++◌, ◌≡◌, ◌≢◌, refl, Option, none, eq-false_of_ne, Option-cases,
  Bool-cases, inl, inr, ◌⊎◌,
}
use live_migration_operator.Go.{Result, done, run}
use live_migration_operator.Go.Beside.{Turn}
use live_migration_operator.Api.{LiveMigration}
use live_migration_operator.Kube.{Call, Error, poll_done, get_pod, Cluster}
use live_migration_operator.Kube.Objects.{Dict, ObjectMeta}
use live_migration_operator.Kube.Maps.{lookup}
use live_migration_operator.Utils.Pods.{check_pod_exist}
use live_migration_operator.Reconcile.Prepare.{ready, prepare_object}
use live_migration_operator.Reconcile.Goroutines.{source_loop, source_goroutine}

module _ (w : Cluster) (fuel : ℕ) (object_name namespace : String) (schedule : List ℕ)
    (turns : List Turn) where
  -- The goroutine returned at once, or after it asked for the pod with the empty name.
  abbrev pub LeftAlone : Dict → List Call → Type 0
  LeftAlone annotations tr =
      (source_goroutine w (suc fuel) object_name namespace schedule turns annotations tr
        ≡ (done tt, tr ++ poll_done ∷ []))
      ⊎ (source_goroutine w (suc fuel) object_name namespace schedule turns annotations tr
          ≡ (done tt, (tr ++ poll_done ∷ []) ++ get_pod namespace "" ∷ []))

  no_annotations-LeftAlone :
      (tr : List Call)
      → ((tr : List Call) → (w tr (get_pod namespace "")).1 ≢ none)
      → LeftAlone [] tr
  unfolding source_goroutine source_loop check_pod_exist run lookup
  no_annotations-LeftAlone tr refused = elim (Bool-cases (w tr poll_done)) [
    | inl stop ↦ inl (rw stop refl)
    | inr on ↦ elim (Option-cases (w (tr ++ poll_done ∷ []) (get_pod namespace "")).1) [
      | inl got ↦ absurd (refused (tr ++ poll_done ∷ []) got)
      | inr (e, missing) ↦ inr (rw (on, missing) refl)
    ]
  ]

-- If the object that was read brings a named template, and the API refuses to get a pod with the
-- empty name, then the rest of the preparation makes no call and goes on with no annotations, and
-- on these the goroutine that looks for the source pod asks for no other pod and migrates none.
pub template_is_not_migrated :
    (set_owner : LiveMigration → ObjectMeta → Result String)
    (ignore_not_found : Error → Option Error) (w : Cluster) (fuel : ℕ) (migrating : LiveMigration)
    (req_namespace namespace : String) (schedule : List ℕ) (turns : List Turn) (tr : List Call)
    → migrating.spec.template.meta.name ≢ ""
    → ((tr : List Call) → (w tr (get_pod namespace "")).1 ≢ none)
    → (run w (prepare_object set_owner ignore_not_found fuel migrating req_namespace namespace) tr
        ≡ (done (ready migrating [] namespace), tr))
      × ((later : List Call)
          → LeftAlone w fuel migrating.meta.name namespace schedule turns [] later)
unfolding prepare_object run
template_is_not_migrated set_owner ignore_not_found w fuel migrating req_namespace namespace
      schedule turns tr named refused =
    (
      simp (eq-false_of_ne migrating.spec.template.meta.name "" named),
      λ later.
          no_annotations-LeftAlone w fuel migrating.meta.name namespace schedule turns later
            refused,
    )
