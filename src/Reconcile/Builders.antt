-- ===== src/Reconcile/Builders.antt =====
-- controllers/helpers.go: the objects that `Reconcile` makes of a template.
pub mod Laws
pub mod Replicas
use live_migration_operator.Base.{
  ℕ, ◌%◌, String, ◌<>◌, List, [], ◌∷◌, ◌≡◌, refl, Option, none, some,
}
use live_migration_operator.Go.{Result, ok, err}
use live_migration_operator.Api.{LiveMigration}
use live_migration_operator.Kube.{Error}
use live_migration_operator.Kube.Objects.{
  Dict, ObjectMeta, zero_meta, zero_status, PodTemplateSpec, Pod, Deployment,
}
use live_migration_operator.Kube.Maps.{put, put_all, keys_of}

-- `getPodsLabelSet`
unfoldable pub get_pods_label_set : PodTemplateSpec → Dict
get_pods_label_set template = put_all (keys_of template.meta.labels) []

-- `getPodsFinalizers`: a slice of the same length, into which the finalizers are copied.
unfoldable pub get_pods_finalizers : PodTemplateSpec → List String
get_pods_finalizers template = template.meta.finalizers

-- `getPodsAnnotationSet`
unfoldable pub get_pods_annotation_set : LiveMigration → PodTemplateSpec → Dict
get_pods_annotation_set migrating template = put "snapshotPath" migrating.spec.snapshot_path (
    put "snapshotPolicy" migrating.spec.action
      (put "sourcePod" migrating.spec.source_pod (put_all (keys_of template.meta.annotations) [])))

-- `getPodsPrefix`
unfoldable pub get_pods_prefix : String → String
get_pods_prefix controller_name = controller_name <> "-"

-- The metadata of what is made from the template.
abbrev pub desired_meta : LiveMigration → String → String → Dict → PodTemplateSpec → ObjectMeta
desired_meta migrating parent namespace labels template = record zero_meta {
  namespace = namespace;
  labels = some labels;
  finalizers = get_pods_finalizers template;
  annotations = some (get_pods_annotation_set migrating template);
  generate_name = get_pods_prefix parent;
}

-- An object that the code returns beside an error.
abbrev pub owned : {A : Type 0} → A → (String → A) → Result String → A × Option Error
owned object with_owner (ok owner) = (with_owner owner, none)
owned object with_owner (err e) = (object, some e)

-- The conversion of an int to an int32, on the patterns of 64 and 32 bits.
abbrev pub to_int32 : ℕ → ℕ
to_int32 n = n % 4294967296

-- `ctrl.SetControllerReference` on an object with the metadata: the owner to be set, or the error.
module _ (set_owner : LiveMigration → ObjectMeta → Result String) where
  -- `desiredPod`, for a parent object of this name
  unfoldable pub desired_pod :
      LiveMigration → String → String → PodTemplateSpec → Pod × Option Error
  unfolding get_pods_label_set
  desired_pod migrating parent namespace template =
      let meta = desired_meta migrating parent namespace (get_pods_label_set template) template in
      let pod : Pod = record { meta = meta; spec = template.spec; status = zero_status } in
      owned pod (λ owner. record pod { meta = record meta { owner = some owner } })
        (set_owner migrating meta)

  -- `desiredDeployment`, for a parent object of this name
  unfoldable pub desired_deployment :
      LiveMigration → String → String → PodTemplateSpec → Deployment × Option Error
  unfolding get_pods_label_set
  desired_deployment migrating parent namespace template =
      let labels = put "migratingPod" migrating.meta.name (get_pods_label_set template) in
      let meta : ObjectMeta = record zero_meta {
        name = migrating.meta.name;
        namespace = migrating.meta.namespace;
      } in
      let depl : Deployment = record {
        api_version = "apps/v1";
        kind = "Deployment";
        meta = meta;
        selector = labels;
        replicas = to_int32 migrating.spec.replicas;
        template = record {
          meta = desired_meta migrating parent namespace labels template;
          spec = template.spec;
        };
      } in
      owned depl (λ owner. record depl { meta = record meta { owner = some owner } })
        (set_owner migrating meta)
