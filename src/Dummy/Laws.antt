-- ===== src/Dummy/Laws.antt =====
-- When the receiving pod is created, and that its creation comes to an end.
use live_migration_operator.Base.{
  ℕ, String, List, [], ◌∷◌, ◌++◌, ◌≡◌, refl, ◌∙◌, Option, none, some, Option-cases, inl, inr,
}
use live_migration_operator.Go.{ret, Outcome, done, run, run-bind, and_then}
use live_migration_operator.Kube.{Call, Error, get_pod, create_pod, Op, Cluster}
use live_migration_operator.Utils.Pods.{wait_for_container_ready}
use live_migration_operator.Utils.Pods.Ready.{
  TimesOut, Waited, Returned, wait_for_container_ready-Waited,
}
use live_migration_operator.Dummy.{dummy_pod, create_dummy_pod}

module _ (w : Cluster) where
  -- A wait that returned is followed by what stands behind it.
  and_then_done :
      (pod_name namespace container_name : String) (tr : List Call)
      (r : Outcome (Option Error) × List Call)
      → Returned w pod_name namespace container_name tr r
      → and_then {B = Option Error} w r (λ _. ret none) ≡ (done none, r.1)
  unfolding run
  and_then_done pod_name namespace container_name tr r (e, ended, _) = rw ended refl

  module _ (fuel : ℕ) (namespace : String) (tr : List Call) where
    abbrev pub missing_trace : List Call
    missing_trace = tr ++ get_pod namespace "dummy-pod" ∷ []

    abbrev pub created_trace : List Call
    created_trace = missing_trace ++ create_pod namespace (dummy_pod namespace) ∷ []

    -- What the function comes to, by the replies to the two calls.
    abbrev pub Outcomes : Option Error → Option Error → Outcome (Option Error) × List Call → Type 0
    Outcomes none _ r = r ≡ (done none, missing_trace)
    Outcomes (some _) (some e) r = r ≡ (done (some e), created_trace)
    Outcomes (some _) none r =
        (r.0 ≡ done none) × Waited w "dummy-pod" namespace "dummy-container" created_trace r.1

    -- `CreateDummyPod` creates the pod exactly if it cannot be got, returns the error of the
    -- creation, and otherwise returns no error after it has looked at the pod at every tick until
    -- its container was ready or the timeout, if one of the next ticks of the wait, as many as the
    -- fuel, is the timeout.
    pub create_dummy_pod_ends :
        TimesOut w "dummy-pod" namespace "dummy-container" fuel created_trace
        → Outcomes
            (w tr (get_pod namespace "dummy-pod")).1
            (w missing_trace (create_pod namespace (dummy_pod namespace))).1
            (run w (create_dummy_pod fuel namespace) tr)
    unfolding create_dummy_pod run
    create_dummy_pod_ends h = elim (Option-cases (w tr (get_pod namespace "dummy-pod")).1) [
      | inl found ↦ rw found refl
      | inr (x, missing) ↦
          elim (Option-cases (w missing_trace (create_pod namespace (dummy_pod namespace))).1) [
            | inr (e, failed) ↦ rw (missing, failed) refl
            | inl created ↦
                let wait : Op (Option Error) =
                  wait_for_container_ready fuel "dummy-pod" namespace "dummy-container" in
                let returned : Returned w "dummy-pod" namespace "dummy-container" created_trace
                    (run w wait created_trace) =
                  wait_for_container_ready-Waited w "dummy-pod" namespace "dummy-container" fuel
                    created_trace h in
                let whole =
                  run-bind {B = Option Error} w wait (λ _. ret none) created_trace
                  ∙ and_then_done "dummy-pod" namespace "dummy-container" created_trace
                      (run w wait created_trace) returned in
                let (_, _, waited) = returned in rw (missing, created, whole) (refl, waited)
          ]
    ]
