-- ===== src/Reconcile/Snapshot/Laws.antt =====
-- When `RemoveCheckpointPod` removes the snapshot.
use live_migration_operator.Base.{
  ℕ, zero, suc, String, List, [], ◌∷◌, ◌++◌, ◌≡◌, ◌≢◌, refl, ◌∙◌, Option, none, some, ◌==◌, eq_iff,
  append_assoc, Option-cases, Bool-cases, inl, inr, ◌⊎◌,
}
use live_migration_operator.Go.{Outcome, done, run, run-bind, ◌>>◌}
use live_migration_operator.Kube.{Call, Error, exec, chmod, update_pod, get_pod, Cluster}
use live_migration_operator.Kube.Objects.{Pod}
use live_migration_operator.Utils.Pods.{check_pod_exist}
use live_migration_operator.Reconcile.Snapshot.{
  annotated, update_annotations, await_pod, remove_command, remove_snapshot, remove_checkpoint_pod,
}

module _ (w : Cluster) (pod : Pod) (snapshot_path : String) where
  abbrev update : Call
  update = update_pod (annotated pod "" "")

  abbrev change : Call
  change = chmod snapshot_path 0o777

  abbrev remove : Call
  remove = exec (remove_command snapshot_path)

  -- How the removal ends: with no error exactly if each step succeeded, and else with the error of
  -- the first step that failed, behind which nothing is called.
  abbrev pub Removal : List Call → Outcome (Option Error) × List Call → Type 0
  Removal tr (done none, final) =
      (final ≡ tr ++ (update ∷ change ∷ remove ∷ []))
      × (w tr update ≡ none)
      × (w (tr ++ update ∷ []) change ≡ none)
      × ((w ((tr ++ update ∷ []) ++ change ∷ []) remove).1 ≡ none)
  Removal tr (done (some e), final) =
      ((final ≡ tr ++ update ∷ []) × (w tr update ≡ some e))
      ⊎ ((final ≡ tr ++ (update ∷ change ∷ []))
          × (w tr update ≡ none)
          × (w (tr ++ update ∷ []) change ≡ some e))
      ⊎ ((final ≡ tr ++ (update ∷ change ∷ remove ∷ []))
          × (w tr update ≡ none)
          × (w (tr ++ update ∷ []) change ≡ none)
          × ((w ((tr ++ update ∷ []) ++ change ∷ []) remove).1 ≡ some e))
  Removal tr _ = ⊥

  remove_snapshot-Removal :
      (tr : List Call) → Removal tr (run w (remove_snapshot pod snapshot_path) tr)
  unfolding remove_snapshot update_annotations run
  remove_snapshot-Removal tr =
      let tr₁ : List Call = tr ++ update ∷ [] in
      let tr₂ : List Call = tr₁ ++ change ∷ [] in
      elim (Option-cases (w tr update)) [
        | inr (e, failed) ↦ rw failed (inl (refl, failed))
        | inl updated ↦ elim (Option-cases (w tr₁ change)) [
          | inr (e, failed) ↦
              rw (updated, failed)
                (inr (inl (append_assoc tr (update ∷ []) (change ∷ []), updated, failed)))
          | inl changed ↦ elim (Option-cases (w tr₂ remove).1) [
            | inr (e, failed) ↦
                rw (updated, changed, failed)
                  (inr (inr (simp append_assoc, updated, changed, failed)))
            | inl removed ↦
                rw (updated, changed, removed) (simp append_assoc, updated, changed, removed)
          ]
        ]
      ]

  module _ (new_pod_name namespace : String) where
    -- The new pod is got at one of the next requests, as many as the fuel.
    abbrev pub Appears : ℕ → List Call → Type 0
    Appears zero tr = ⊥
    Appears (suc fuel) tr =
        ((w tr (get_pod namespace new_pod_name)).1 ≡ none)
        ⊎ Appears fuel (tr ++ get_pod namespace new_pod_name ∷ [])

    -- The requests for the new pod, from the trace in front of them to the one behind: all but the
    -- last one missed it.
    pub data Polled : List Call → List Call → Type 0 where
      finds :
          {tr : List Call}
          → (w tr (get_pod namespace new_pod_name)).1 ≡ none
          → Polled tr (tr ++ get_pod namespace new_pod_name ∷ [])
      misses :
          {tr mid : List Call}
          → (w tr (get_pod namespace new_pod_name)).1 ≢ none
          → Polled (tr ++ get_pod namespace new_pod_name ∷ []) mid
          → Polled tr mid

    -- No new pod is named and nothing is called, or it was requested until it was got.
    abbrev pub IsThere : List Call → List Call → Type 0
    IsThere tr mid = ((new_pod_name ≡ "") × (mid ≡ tr)) ⊎ ((new_pod_name ≢ "") × Polled tr mid)

    abbrev Awaited : ℕ → List Call → Type 0
    Awaited fuel tr =
        (mid : List Call) × Polled tr mid
        × (run w (await_pod fuel new_pod_name namespace) tr ≡ (done tt, mid))

    await_pod-Awaited : (fuel : ℕ) (tr : List Call) → Appears fuel tr → Awaited fuel tr
    unfolding await_pod check_pod_exist run
    await_pod-Awaited zero tr h = absurd h
    await_pod-Awaited (suc fuel) tr h =
        let asked : List Call = tr ++ get_pod namespace new_pod_name ∷ [] in
        elim (Option-cases (w tr (get_pod namespace new_pod_name)).1) [
          | inl got ↦ (asked, finds got, rw got refl)
          | inr (e, missing) ↦
              let (mid, there, ran) = await_pod-Awaited fuel asked (later fuel tr e missing h) in
              (mid, misses (λ got. cc (missing, got)) there, rw missing ran)
        ]
      where
        later :
            (fuel : ℕ) (tr : List Call) (e : Error)
            → (w tr (get_pod namespace new_pod_name)).1 ≡ some e
            → Appears (suc fuel) tr
            → Appears fuel (tr ++ get_pod namespace new_pod_name ∷ [])
        later fuel tr e missing (inl got) = cc (missing, got)
        later fuel tr e missing (inr h) = h

    -- If the new pod, when one is named, appears at one of the next requests, as many as the fuel,
    -- `RemoveCheckpointPod` returns. When one is named, it requests it until it gets it; then, and
    -- with no call before that when none is named, it updates the annotations, changes the
    -- permissions and removes the snapshot, each step only if those before it succeeded. It returns
    -- the error of the step that failed, or none if all succeeded.
    pub remove_checkpoint_pod_removes :
        (fuel : ℕ) (tr : List Call)
        → (new_pod_name ≢ "" → Appears fuel tr)
        → (mid : List Call) × IsThere tr mid
          × Removal mid
              (run w (remove_checkpoint_pod fuel pod snapshot_path new_pod_name namespace) tr)
    unfolding remove_checkpoint_pod
    remove_checkpoint_pod_removes fuel tr h = elim (Bool-cases (new_pod_name == "")) [
      | inl unnamed ↦ (
        tr,
        inl ((eq_iff new_pod_name "").0 unnamed, refl),
        rw unnamed (remove_snapshot-Removal tr),
      )
      | inr named ↦
          let (mid, there, ran) =
            await_pod-Awaited fuel tr (h (λ e. cc (named, (eq_iff new_pod_name "").1 e))) in
          let whole : run w
                (do await_pod fuel new_pod_name namespace; remove_snapshot pod snapshot_path) tr
              ≡ run w (remove_snapshot pod snapshot_path) mid =
            run-bind w (await_pod fuel new_pod_name namespace)
              (λ _. remove_snapshot pod snapshot_path) tr
            ∙ rw ran refl in
          (
            mid,
            inr ((λ e. cc (named, (eq_iff new_pod_name "").1 e)), there),
            rw (named, whole) (remove_snapshot-Removal mid),
          )
    ]
