-- ===== src/ApiServer/Create/Accepted.antt =====
-- For which requests the handler `create` creates an object, and which one.
use live_migration_operator.Base.{
  String, List, [], ◌∷◌, ◌++◌, ◌≡◌, ◌≢◌, ◌⊎◌, inl, inr, refl, Option, none, some, ◌==◌, eq_iff,
  arith, Option-cases, Bool-cases,
}
use live_migration_operator.Go.{World}
use live_migration_operator.Go.Calls.{made}
use live_migration_operator.Kube.Objects.{Pod}
use live_migration_operator.Api.{LiveMigration}
use live_migration_operator.ApiServer.Types.{
  Livemigration, Call, Handler, write_error, read_entity, list_pods, create_migration, api,
  validate,
}
use live_migration_operator.ApiServer.Create.{
  namespace, find_source, prepare, object_for, bad_request, create_for, search_source,
  create_handler,
}
use live_migration_operator.ApiServer.Create.Laws.{AnyRunning, find_source_iff}

-- The objects that the calls create, in order.
abbrev pub created : List Call → List LiveMigration
created [] = []
created (create_migration object ∷ cs) = object ∷ created cs
created (_ ∷ cs) = created cs

module _ (w : World api) where
  created-create_for :
      (pm : Livemigration) (found : Option Pod) (tr : List Call)
      → created (made w (create_for pm found) tr)
        ≡ elim found [ none ↦ [] | some _ ↦ object_for pm ∷ [] ]
  unfolding create_for made
  created-create_for pm none tr = refl
  created-create_for pm (some p) tr = ground arith

  -- The pod of this name is among the listed running pods.
  abbrev pub FindsSource : String → List Call → Type 0
  FindsSource name tr =
      (name ≢ "")
      × ((w tr (list_pods namespace)).1 ≡ none)
      × AnyRunning name (w tr (list_pods namespace)).0

  -- The reply to the listing, as the handler goes on with it.
  after_listing : Livemigration → List Pod × Option String → Handler
  after_listing pm (pods, some _) =
      write_error 400 (bad_request "Could not find any running pod for migration")
  after_listing pm (pods, none) = create_for pm (find_source pm.source_pod pods none)

  Lists : String → List Pod × Option String → Type 0
  Lists name (pods, e) = (e ≡ none) × AnyRunning name pods

  created-after_listing :
      (pm : Livemigration) (reply : List Pod × Option String) (tr : List Call)
      → (Lists pm.source_pod reply
          × (created (made w (after_listing pm reply) tr) ≡ object_for pm ∷ []))
        ⊎ (¬ Lists pm.source_pod reply × (created (made w (after_listing pm reply) tr) ≡ []))
  unfolding after_listing Lists made
  created-after_listing pm (pods, some e) tr = inr ((λ h. cc h.0), refl)
  created-after_listing pm (pods, none) tr =
      let (to, from) = find_source_iff pm.source_pod pods in
      elim (Option-cases (find_source pm.source_pod pods none)) [
        | inl missing ↦ inr ((λ h. from h.1 missing), rw missing (created-create_for pm none tr))
        | inr (pod, found) ↦
            inl ((refl, to (λ n. cc (n, found))), rw found (created-create_for pm (some pod) tr))
      ]

  created-search_source :
      (pm : Livemigration) (tr : List Call)
      → (FindsSource pm.source_pod tr
          × (created (made w (search_source pm) tr) ≡ object_for pm ∷ []))
        ⊎ (¬ FindsSource pm.source_pod tr × (created (made w (search_source pm) tr) ≡ []))
  unfolding search_source made after_listing Lists
  created-search_source pm tr = elim (Bool-cases (pm.source_pod == "")) [
    | inl unnamed ↦ inr (
      (λ h. h.0 ((eq_iff pm.source_pod "").0 unnamed)),
      rw unnamed (created-create_for pm none tr),
    )
    | inr named ↦
        let named' : pm.source_pod ≢ "" = (λ e. cc (named, (eq_iff pm.source_pod "").1 e)) in
        elim (created-after_listing pm (w tr (list_pods namespace))
          (tr ++ list_pods namespace ∷ [])) [
            | inl (h, e) ↦ inl ((named', h.0, h.1), rw named e)
            | inr (n, e) ↦ inr ((λ h. n (h.1, h.2)), rw named e)
          ]
  ]

  -- The body was read, and the pod that it names is among the listed running pods.
  abbrev pub Accepted : List Call → Type 0
  Accepted tr =
      ((w tr read_entity).1 ≡ none)
      × FindsSource (w tr read_entity).0.source_pod (tr ++ read_entity ∷ [])

  after_reading : Livemigration × Option String → Handler
  after_reading (body, some _) = write_error 400 (bad_request "Could not read entity")
  after_reading (body, none) = search_source (prepare body)

  created-after_reading :
      (reply : Livemigration × Option String) (tr : List Call)
      → ((reply.1 ≡ none)
          × FindsSource reply.0.source_pod tr
          × (created (made w (after_reading reply) tr) ≡ object_for (prepare reply.0) ∷ []))
        ⊎ (¬ ((reply.1 ≡ none) × FindsSource reply.0.source_pod tr)
            × (created (made w (after_reading reply) tr) ≡ []))
  unfolding after_reading prepare made
  created-after_reading (body, some e) tr = inr ((λ h. cc h.0), refl)
  created-after_reading (body, none) tr = elim (created-search_source (prepare body) tr) [
    | inl (h, e) ↦ inl (refl, h, e)
    | inr (n, e) ↦ inr ((λ h. n h.1), e)
  ]

  -- The handler creates the object that the body describes if the body was read and the pod that
  -- it names is running, and creates nothing otherwise.
  pub create_handler-created :
      (tr : List Call)
      → (Accepted tr
          × (created (made w create_handler tr) ≡ object_for (prepare (w tr read_entity).0) ∷ []))
        ⊎ (¬ Accepted tr × (created (made w create_handler tr) ≡ []))
  unfolding create_handler validate after_reading made
  create_handler-created tr =
      elim (created-after_reading (w tr read_entity) (tr ++ read_entity ∷ [])) [
        | inl (read, h, e) ↦ inl ((read, h), e)
        | inr (n, e) ↦ inr (n, e)
      ]
