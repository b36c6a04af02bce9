-- ===== src/Reconcile/Prepare/Created.antt =====
-- The preparation of `Reconcile` for an object that the API server created.
use live_migration_operator.Base.{
  ℕ, String, List, [], ◌∷◌, ◌++◌, ◌≡◌, refl, ap, ◌∙◌, Option, none, some, ◌==◌, if◌then◌else◌,
  to_lower,
}
use live_migration_operator.Go.{Result, ok, Outcome, done, run, ret}
use live_migration_operator.Api.{LiveMigration}
use live_migration_operator.ApiServer.Types.{Livemigration}
use live_migration_operator.ApiServer.Create.{object_for, prepare as checked}
use live_migration_operator.Kube.{
  Call, Error, getenv, expand_env, stat, build_config, new_clientset, get_migration, list_children,
  get_pod, kube, Op, Cluster,
}
use live_migration_operator.Kube.Objects.{Dict, ObjectMeta, PodTemplateSpec}
use live_migration_operator.Kube.Maps.{at, put, put_all, keys_of, lookup-put}
use live_migration_operator.Utils.Pods.{template_of, check_pod_exist, get_source_pod_template}
use live_migration_operator.Reconcile.Builders.{
  owned, get_pods_annotation_set, desired_pod, desired_deployment,
}
use live_migration_operator.Reconcile.Prepare.{
  Prepared, ready, stopped, or_stopped, on_host, prepare_template, prepare_object, prepare,
}

or_stopped-none :
    (w : Cluster) (e : Option Error) (rest : Op Prepared) (tr : List Call)
    → e ≡ none
    → run w (or_stopped e rest) tr ≡ run w rest tr
or_stopped-none w e rest tr h = rw h refl

owned_ok :
    {A : Type 0} (object : A) (with_owner : String → A) (r : Result String) (owner : String)
    → r ≡ ok owner
    → (owned object with_owner r).1 ≡ none
owned_ok object with_owner r owner h = rw h refl

module _ (set_owner : LiveMigration → ObjectMeta → Result String)
    (ignore_not_found : Error → Option Error) (w : Cluster) where
  -- The operator can reach the cluster, the child pods can be listed, and owners can be set.
  abbrev pub Reachable : Type 0
  Reachable =
      ((tr : List Call) (path : String) → w tr (build_config path) ≡ none)
      × ((tr : List Call) → w tr new_clientset ≡ none)
      × ((tr : List Call) (namespace : String) (labels : Dict)
          → (w tr (list_children namespace labels)).1 ≡ none)
      × ((object : LiveMigration) (meta : ObjectMeta)
          → (owner : String) × (set_owner object meta ≡ ok owner))

  -- The preparation goes on with the object and with annotations made from it.
  abbrev pub GoesOn : LiveMigration → Outcome Prepared × List Call → Type 0
  GoesOn object r =
      (template : PodTemplateSpec) × (namespace : String) × (final : List Call) × (r
        ≡ (done (ready object (get_pods_annotation_set object template) namespace), final))

  prepare_template-GoesOn :
      (object : LiveMigration) (req_namespace namespace : String) (source : PodTemplateSpec)
      (tr : List Call)
      → Reachable
      → GoesOn object (
          run w
            (prepare_template set_owner ignore_not_found object req_namespace namespace source)
            tr)
  unfolding prepare_template desired_pod desired_deployment run
  prepare_template-GoesOn object req_namespace namespace source tr (_, _, listed, owners) = (
    on_host object.spec.dest_host source,
    namespace,
    _,
    or_stopped-none w _ _ _ (listed tr req_namespace _)
        ∙ (or_stopped-none w _ _ _ (owned_ok _ _ _ _ (owners object _).1)
            ∙ or_stopped-none w _ _ _ (owned_ok _ _ _ _ (owners object _).1)),
  )

  prepare_object-GoesOn :
      (fuel : ℕ) (object : LiveMigration) (req_namespace namespace : String) (tr : List Call)
      → Reachable
      → object.spec.template.meta.name ≡ ""
      → (w tr (get_pod namespace object.spec.source_pod)).1 ≡ none
      → GoesOn object
          (run w (prepare_object set_owner ignore_not_found fuel object req_namespace namespace) tr)
  unfolding prepare_object get_source_pod_template check_pod_exist run
  prepare_object-GoesOn fuel object req_namespace namespace tr reach unnamed got =
      let asked = get_pod namespace object.spec.source_pod in
      let (template, ns, final, e) =
        prepare_template-GoesOn object req_namespace namespace (template_of (w tr asked).0)
          (tr ++ asked ∷ []) reach in
      (template, ns, final, simp (unnamed, got) e)

  -- The world behind the object that the API server creates for a body: reading it gives it back,
  -- and its source pod can be got.
  abbrev pub Stored : String → Livemigration → Type 0
  Stored req_namespace body =
      ((tr : List Call)
        → w tr (get_migration req_namespace body.name) ≡ (object_for (checked body), none))
      × ((tr : List Call) (namespace : String)
          → (w tr (get_pod namespace body.source_pod)).1 ≡ none)

  -- The object was read.
  loaded :
      (fuel : ℕ) (req_namespace namespace : String) (object : LiveMigration)
      (reply : LiveMigration × Option Error) (tr : List Call)
      → reply ≡ (object, none)
      → run {I = kube} w
          (elim reply.1 [
            | some e ↦ ret (stopped (ignore_not_found e))
            | none ↦ prepare_object set_owner ignore_not_found fuel reply.0 req_namespace namespace
          ])
          tr
        ≡ run w (prepare_object set_owner ignore_not_found fuel object req_namespace namespace) tr
  loaded fuel req_namespace namespace object reply tr h =
      let failed : reply.1 ≡ none = ap (λ (r : LiveMigration × Option Error). r.1) h in
      let read : reply.0 ≡ object = ap (λ (r : LiveMigration × Option Error). r.0) h in
      rw (failed, read) refl

  prepare-GoesOn :
      (fuel : ℕ) (req_namespace name : String) (object : LiveMigration) (tr : List Call)
      → Reachable
      → ((tr : List Call) → w tr (get_migration req_namespace name) ≡ (object, none))
      → object.spec.template.meta.name ≡ ""
      → ((tr : List Call) (namespace : String)
          → (w tr (get_pod namespace object.spec.source_pod)).1 ≡ none)
      → GoesOn object (run w (prepare set_owner ignore_not_found fuel req_namespace name) tr)
  unfolding prepare run
  prepare-GoesOn fuel req_namespace name object tr reach stored unnamed got =
      let (configured, connected, _, _) = reach in
      let env : Call = getenv "NAMESPACE" in
      let ns : String = if w tr env == "" then "test" else w tr env in
      let tr₁ : List Call = tr ++ env ∷ [] in
      let env₁ : Call = getenv "KUBECONFIG" in
      let config : String = if w tr₁ env₁ == "" then "~/.kube/config" else w tr₁ env₁ in
      let tr₂ : List Call = tr₁ ++ env₁ ∷ [] in
      let path : String = w tr₂ (expand_env config) in
      let tr₃ : List Call = (tr₂ ++ expand_env config ∷ []) ++ stat path ∷ [] in
      let tr₄ : List Call = tr₃ ++ build_config path ∷ [] in
      let tr₅ : List Call = tr₄ ++ new_clientset ∷ [] in
      let (template, ns', final, e) =
        prepare_object-GoesOn fuel object req_namespace ns
          (tr₅ ++ get_migration req_namespace name ∷ []) reach unnamed (got _ ns) in
      (
        template,
        ns',
        final,
        or_stopped-none w _ _ _ (configured tr₃ path)
            ∙ (or_stopped-none w _ _ _ (connected tr₄)
                ∙ (loaded fuel req_namespace ns object _ _ (stored tr₅) ∙ e)),
      )

three_annotations :
    (object : LiveMigration) (template : PodTemplateSpec)
    → (at "sourcePod" (get_pods_annotation_set object template) ≡ object.spec.source_pod)
      × (at "snapshotPolicy" (get_pods_annotation_set object template) ≡ object.spec.action)
      × (at "snapshotPath" (get_pods_annotation_set object template) ≡ object.spec.snapshot_path)
unfolding get_pods_annotation_set
three_annotations object template =
    let read : Option String → String = λ o. elim o [ none ↦ "" | some v ↦ v ] in
    let from = put_all (keys_of template.meta.annotations) [] in
    let source = put "sourcePod" object.spec.source_pod from in
    let policy = put "snapshotPolicy" object.spec.action source in
    (
      ap read (
          lookup-put "sourcePod" "snapshotPath" object.spec.snapshot_path policy
          ∙ (lookup-put "sourcePod" "snapshotPolicy" object.spec.action source
              ∙ lookup-put "sourcePod" "sourcePod" object.spec.source_pod from)),
      ap read (
          lookup-put "snapshotPolicy" "snapshotPath" object.spec.snapshot_path policy
          ∙ lookup-put "snapshotPolicy" "snapshotPolicy" object.spec.action source),
      ap read (lookup-put "snapshotPath" "snapshotPath" object.spec.snapshot_path policy),
    )

-- What follows from these for the preparation.
pub created_object_goes_on :
    (set_owner : LiveMigration → ObjectMeta → Result String)
    (ignore_not_found : Error → Option Error) (w : Cluster) (fuel : ℕ) (req_namespace : String)
    (body : Livemigration) (tr : List Call)
    → Reachable set_owner ignore_not_found w
    → Stored set_owner ignore_not_found w req_namespace body
    → (annotations : Dict) × (namespace : String) × (final : List Call) × (run w
          (prepare set_owner ignore_not_found fuel req_namespace body.name)
          tr
        ≡ (done (ready (object_for (checked body)) annotations namespace), final))
      × (at "sourcePod" annotations ≡ body.source_pod)
      × (at "snapshotPolicy" annotations ≡ to_lower body.action)
      × (at "snapshotPath" annotations ≡ body.snapshot_path)
unfolding object_for checked
created_object_goes_on set_owner ignore_not_found w fuel req_namespace body tr reach (stored, got) =
    let object : LiveMigration = object_for (checked body) in
    let (template, namespace, final, e) =
      prepare-GoesOn set_owner ignore_not_found w fuel req_namespace body.name object tr reach
        stored refl got in
    let (source, policy, path) = three_annotations object template in
    (get_pods_annotation_set object template, namespace, final, e, source, policy, path)
