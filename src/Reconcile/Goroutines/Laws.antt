-- ===== src/Reconcile/Goroutines/Laws.antt =====
-- How the goroutines of `Reconcile` behave: the search does not retry, and which pod is migrated.
use live_migration_operator.Base.{
  ℕ, suc, String, List, [], ◌∷◌, ◌++◌, ◌≡◌, ◌≢◌, refl, ap, ◌∙◌, sym, true, false, Option, none,
  some, Option-cases, Bool-cases, inl, inr, append_assoc, ◌⊎◌, Extends, Extends-refl, Extends-trans,
}
use live_migration_operator.Go.{Outcome, done, panicked, blocked, polling, run}
use live_migration_operator.Go.Fork.{Fork, step_fork, run_fork}
use live_migration_operator.Go.Beside.{Turn}
use live_migration_operator.Go.Beside.Laws.{step_fork-Extends}
use live_migration_operator.Kube.{Call, Error, poll_done, get_pod, list_pods, kube, Cluster}
use live_migration_operator.Kube.Objects.{Dict, Pod}
use live_migration_operator.Kube.Maps.{at}
use live_migration_operator.Utils.Pods.{check_pod_exist}
use live_migration_operator.Migrate.Pod.{stage_one, migrate_pod_pipelined}
use live_migration_operator.Migrate.Safety.{migrate_pod_pipelined-Deletes, Deletes, listed}
use live_migration_operator.Reconcile.Goroutines.{
  source_loop, drop_result, migrate_found, source_goroutine,
}

run_fork-Extends :
    {A : Type 0} (w : Cluster) (schedule : List ℕ) (f : Fork kube A) (tr : List Call)
    → Extends tr (run_fork w schedule f tr).1
unfolding run_fork
run_fork-Extends w [] f tr = Extends-refl tr
run_fork-Extends w (i ∷ schedule) f tr =
    Extends-trans tr _ _ (step_fork-Extends w i f tr)
      (run_fork-Extends w schedule (step_fork w i f tr).0 (step_fork w i f tr).1)

drop_result_done :
    (r : Outcome (Option Error) × List Call) (final : List Call)
    → drop_result r ≡ (done tt, final)
    → (e : Option Error) × (r ≡ (done e, final))
drop_result_done (done e, tr) final h = (e, ap (λ (l : Outcome Unit × List Call). (done e, l.1)) h)
drop_result_done (panicked, tr) final h = cc
drop_result_done (blocked, tr) final h = cc
drop_result_done (polling, tr) final h = cc

module _ (w : Cluster) (annotations : Dict) (namespace : String) where
  abbrev asked : Call
  asked = get_pod namespace (at "sourcePod" annotations)

  -- The search comes to its end in its first round, by one of three ways.
  abbrev pub OneRound : List Call → Outcome (Option Pod) × List Call → Type 0
  OneRound tr (done none, final) =
      ((w tr poll_done ≡ true) × (final ≡ tr ++ poll_done ∷ []))
      ⊎ ((w tr poll_done ≡ false)
          × ((w (tr ++ poll_done ∷ []) asked).1 ≢ none)
          × (final ≡ (tr ++ poll_done ∷ []) ++ asked ∷ []))
  OneRound tr (done (some pod), final) =
      (w tr poll_done ≡ false)
      × ((w (tr ++ poll_done ∷ []) asked).1 ≡ none)
      × ((w (tr ++ poll_done ∷ []) asked).0 ≡ pod)
      × (final ≡ (tr ++ poll_done ∷ []) ++ asked ∷ [])
  OneRound tr _ = ⊥

  -- The goroutine looks for the source pod once, whatever the fuel: an error ends it, and so does
  -- the pod, so that it never waits and looks again.
  pub source_loop-OneRound :
      (fuel : ℕ) (tr : List Call)
      → OneRound tr (run w (source_loop (suc fuel) annotations namespace) tr)
  unfolding source_loop check_pod_exist run
  source_loop-OneRound fuel tr = elim (Bool-cases (w tr poll_done)) [
    | inl stop ↦ rw stop (inl (stop, refl))
    | inr on ↦ elim (Option-cases (w (tr ++ poll_done ∷ []) asked).1) [
      | inl got ↦ rw (on, got) (on, got, refl, refl)
      | inr (e, missing) ↦ rw (on, missing) (inr (on, (λ q. cc (q, missing)), refl))
    ]
  ]

  module _ (object_name : String) (schedule : List ℕ) (turns : List Turn) where
    after_search :
        (fuel : ℕ) (tr final : List Call)
        → drop_result (migrate_pod_pipelined w fuel object_name namespace schedule turns tr)
          ≡ (done tt, final)
        → Deletes w fuel object_name namespace tr final
    after_search fuel tr final h =
        let (e, migrated) = drop_result_done _ final h in
        let (_, (before, after, e₁), _) =
          migrate_pod_pipelined-Deletes w fuel object_name namespace schedule turns tr e final
            migrated in
        let (new, e₂) =
          run_fork-Extends w schedule (stage_one (listed w namespace tr) object_name namespace)
            (tr ++ list_pods namespace ∷ []) in
        (list_pods namespace ∷ new ++ before, after, e₁ ∙ rw e₂ (simp append_assoc))

    found_pod :
        (fuel : ℕ) (tr : List Call)
        → w tr poll_done ≡ false
        → (w (tr ++ poll_done ∷ []) asked).1 ≡ none
        → run w (source_loop (suc fuel) annotations namespace) tr
          ≡ (done (some (w (tr ++ poll_done ∷ []) asked).0), (tr ++ poll_done ∷ []) ++ asked ∷ [])
    unfolding source_loop check_pod_exist run
    found_pod fuel tr on got = rw (on, got) refl

    -- If the goroutine is not cancelled and gets the pod that the annotation names, then, when it
    -- returns, it has requested the deletion of a pod afterwards: of the one that has the name of
    -- the LiveMigration object, whatever pod was got.
    pub source_goroutine-Deletes :
        (fuel : ℕ) (tr final : List Call)
        → w tr poll_done ≡ false
        → (w (tr ++ poll_done ∷ []) asked).1 ≡ none
        → source_goroutine w (suc fuel) object_name namespace schedule turns annotations tr
          ≡ (done tt, final)
        → Deletes w (suc fuel) object_name namespace ((tr ++ poll_done ∷ []) ++ asked ∷ []) final
    unfolding source_goroutine
    source_goroutine-Deletes fuel tr final on got h =
        after_search (suc fuel) ((tr ++ poll_done ∷ []) ++ asked ∷ []) final (
          sym (
            ap (migrate_found w (suc fuel) object_name namespace schedule turns)
              (found_pod fuel tr on got))
          ∙ h)
