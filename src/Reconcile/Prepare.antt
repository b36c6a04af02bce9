-- ===== src/Reconcile/Prepare.antt =====
-- `Reconcile` of controllers/livemigration.go on its own goroutine: what it prepares, and its wait.
pub mod Wait
pub mod Created
use live_migration_operator.Base.{ℕ, String, List, [], ◌∷◌, Option, none, some, ◌==◌, if◌then◌else◌}
use live_migration_operator.Go.{ret, panic, block, Result, ◌>>=◌, ◌>>◌}
use live_migration_operator.Api.{LiveMigration}
use live_migration_operator.Kube.{
  Error, getenv, expand_env, stat, build_config, new_clientset, get_migration, list_children,
  new_watcher, add_watch, select_signal, cancel, Op, ask,
}
use live_migration_operator.Kube.Objects.{Dict, ObjectMeta, PodTemplateSpec}
use live_migration_operator.Kube.Maps.{put}
use live_migration_operator.Utils.Pods.{get_source_pod_template}
use live_migration_operator.Dummy.{create_dummy_pod, create_dummy_service}
use live_migration_operator.Reconcile.Builders.{
  get_pods_label_set, get_pods_annotation_set, desired_pod, desired_deployment,
}

-- How the preparation ends.
pub data Prepared : Type 0 where
  -- `Reconcile` returns
  stopped : Option Error → Prepared
  -- it goes on with the object, the annotations (a nil map is empty) and the namespace
  ready : LiveMigration → Dict → String → Prepared

-- `os.Getenv` with a default for an empty value.
abbrev pub getenv_or : String → String → Op String
getenv_or name default = do value ← ask (getenv name); ret (if value == "" then default else value)

-- An error ends the preparation.
abbrev pub or_stopped : Option Error → Op Prepared → Op Prepared
or_stopped none rest = rest
or_stopped (some e) rest = ret (stopped (some e))

-- The node of the destination is put into the template.
abbrev pub on_host : String → PodTemplateSpec → PodTemplateSpec
on_host dest_host template = if dest_host == "" then template else record template {
  spec = record template.spec { node_selector = some (("kubernetes.io/hostname", dest_host) ∷ []) };
}

module _ (set_owner : LiveMigration → ObjectMeta → Result String)
    (ignore_not_found : Error → Option Error) where
  -- With a template of the source pod. The pod and the deployment that are made are dropped.
  unfoldable pub prepare_template : LiveMigration → String → String → PodTemplateSpec → Op Prepared
  prepare_template migrating req_namespace namespace source =
      let template = on_host migrating.spec.dest_host source in
      do
        let labels = put "migratingPod" migrating.meta.name (get_pods_label_set template)
        (_, e) ← ask (list_children req_namespace labels)
        or_stopped e (
            or_stopped
              (desired_pod set_owner migrating migrating.meta.name req_namespace template).1
              (or_stopped
                (desired_deployment set_owner migrating migrating.meta.name req_namespace
                  template).1
                (ret (ready migrating (get_pods_annotation_set migrating template) namespace))))

  -- The object was read. A template in the object leaves the annotations nil, and so does a source
  -- pod that is not found; errors of the dummy pod and service are only logged.
  unfoldable pub prepare_object : ℕ → LiveMigration → String → String → Op Prepared
  unfolding prepare_template
  prepare_object fuel migrating req_namespace namespace =
      if migrating.spec.template.meta.name == ""
      then (do
        (template, e) ← get_source_pod_template migrating.spec.source_pod namespace
        elim e [
          | none ↦ elim template [
            | some template ↦ prepare_template migrating req_namespace namespace template
            | none ↦ do
              create_dummy_pod fuel namespace
              create_dummy_service namespace
              ret (ready migrating [] namespace)
          ]
          | some _ ↦ do
            create_dummy_pod fuel namespace
            create_dummy_service namespace
            ret (ready migrating [] namespace)
        ])
      else ret (ready migrating [] namespace)

  unfoldable pub prepare : ℕ → String → String → Op Prepared
  unfolding prepare_object
  prepare fuel req_namespace req_name = do
    namespace ← getenv_or "NAMESPACE" "test"
    kubeconfig ← getenv_or "KUBECONFIG" "~/.kube/config"
    kubeconfig ← ask (expand_env kubeconfig)
    ask (stat kubeconfig)
    e ← ask (build_config kubeconfig)
    or_stopped e do
      e ← ask new_clientset
      or_stopped e do
        (migrating, e) ← ask (get_migration req_namespace req_name)
        elim e [
          | some e ↦ ret (stopped (ignore_not_found e))
          | none ↦ prepare_object fuel migrating req_namespace namespace
        ]

  -- What the goroutine of `Reconcile` does behind the preparation. With no watcher, its field
  -- `Events` is read from a nil pointer. What the channels `sourcePodDetected` and `migrationDone`
  -- deliver is answered by the world; `cancel` is called whichever of them it is.
  unfoldable pub watch_and_wait : Op (Option Error)
  watch_and_wait = do
    e ← ask new_watcher
    elim e [
      | some _ ↦ panic
      | none ↦ do
        ask (add_watch "/checkpoints/")
        signal ← ask select_signal
        elim signal [ none ↦ block | some _ ↦ do ask cancel; ret none ]
    ]

  unfoldable pub reconcile : ℕ → String → String → Op (Option Error)
  unfolding watch_and_wait
  reconcile fuel req_namespace req_name = do
    prepared ← prepare fuel req_namespace req_name
    elim prepared [ stopped e ↦ ret e | ready _ _ _ ↦ watch_and_wait ]
