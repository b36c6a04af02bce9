-- ===== src/Reconcile/Builders/Laws.antt =====
-- The labels of what `Reconcile` makes of a template.
use live_migration_operator.Base.{String, [], ◌≡◌, refl, some, ◌==◌, eq_iff, if◌then◌else◌, arith}
use live_migration_operator.Go.{Result, ok, err}
use live_migration_operator.Api.{LiveMigration}
use live_migration_operator.Kube.Objects.{Dict, ObjectMeta, PodTemplateSpec, Deployment}
use live_migration_operator.Kube.Maps.{
  lookup, put, put_all, keys_of, Distinct, lookup-put, lookup-put_all,
}
use live_migration_operator.Reconcile.Builders.{owned, get_pods_label_set, desired_deployment}

-- A copy of a map reads as the map.
copied : (key : String) (d : Dict) → Distinct d → lookup key (put_all d []) ≡ lookup key d
unfolding lookup
copied key d h = ground (arith, lookup-put_all key d [] h)

-- Whether the owner could be set or not, the rest of the object is the same.
pub owned_keeps :
    {A B : Type 0} (field : A → B) (object : A) (with_owner : String → A) (r : Result String)
    → ((owner : String) → field (with_owner owner) ≡ field object)
    → field (owned object with_owner r).0 ≡ field object
owned_keeps field object with_owner (ok owner) h = h owner
owned_keeps field object with_owner (err e) h = refl

module _ (set_owner : LiveMigration → ObjectMeta → Result String) (migrating : LiveMigration)
    (parent namespace : String) (template : PodTemplateSpec) where
  abbrev pub deployment : Deployment
  deployment = (desired_deployment set_owner migrating parent namespace template).0

  abbrev labels : Dict
  labels = put "migratingPod" migrating.meta.name (get_pods_label_set template)

  deployment_labels :
      (deployment.selector ≡ labels) × (deployment.template.meta.labels ≡ some labels)
  unfolding desired_deployment
  deployment_labels = (
    owned_keeps (λ (d : Deployment). d.selector) _ _ (set_owner migrating _) (λ owner. refl),
    owned_keeps (λ (d : Deployment). d.template.meta.labels) _ _ (set_owner migrating _)
        (λ owner. refl),
  )

  -- The deployment selects the labels that its own pods have: those of the template, and the
  -- migration's name under `migratingPod`.
  pub deployment_selects_its_pods :
      (key : String)
      → Distinct (keys_of template.meta.labels)
      → (deployment.template.meta.labels ≡ some deployment.selector)
        × (lookup key deployment.selector ≡ (
            if key == "migratingPod"
            then some migrating.meta.name
            else lookup key (keys_of template.meta.labels)))
  unfolding get_pods_label_set
  deployment_selects_its_pods key h =
      let (selected, labelled) = deployment_labels in
      rw (selected, labelled)
        (
          refl,
          rw
              (
                lookup-put key "migratingPod" migrating.meta.name (get_pods_label_set template),
                copied key (keys_of template.meta.labels) h,
              )
              (ground (arith, eq_iff key "migratingPod", eq_iff "migratingPod" key)),
        )
